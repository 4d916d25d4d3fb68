-- ===== src/Base/Exec.antt =====
-- Calls that change a state and may fail. What was changed before a failure stays changed.
use mathlib.Core.Path.{◌≡◌, refl}
use adbfs_rust.Base.Outcomes.{Result, ok, err, panicked}

abbrev pub Exec : Type 0 → Type 0 → Type 0 → Type 0
Exec S E A = S → Result E A × S

module _ {S E : Type 0} where
  abbrev pub pure : {A : Type 0} → A → Exec S E A
  pure a s = (ok a, s)

  abbrev pub raise : {A : Type 0} → E → Exec S E A
  raise e s = (err e, s)

  abbrev pub lift : {A : Type 0} → Result E A → Exec S E A
  lift r s = (r, s)

  abbrev pub gets : {A : Type 0} → (S → A) → Exec S E A
  gets f s = (ok (f s), s)

  abbrev pub modify : (S → S) → Exec S E (Unit {0})
  modify f s = (ok tt, f s)

  abbrev pub continue : {A B : Type 0} → Result E A → (A → Exec S E B) → Exec S E B
  continue (ok a) f s = f a s
  continue (err e) f s = (err e, s)
  continue panicked f s = (panicked, s)

  infixl 5 ◌>>=◌ ◌>>◌
  abbrev pub ◌>>=◌ : {A B : Type 0} → Exec S E A → (A → Exec S E B) → Exec S E B
  ◌>>=◌ m f s = let (r, s') = m s in continue r f s'

  abbrev pub ◌>>◌ : {B : Type 0} → Exec S E (Unit {0}) → Exec S E B → Exec S E B
  m >> n = m >>= λ _. n

  -- Two continuations that agree at each result and state may be exchanged.
  pub >>=_ext :
      {A B : Type 0} (m : Exec S E A) (f g : A → Exec S E B) (s : S)
      → ((a : A) (t : S) → f a t ≡ g a t)
      → (m >>= f) s ≡ (m >>= g) s
  >>=_ext {A} {B} m f g s h = continue_ext (m s).0 (m s).1
    where
      continue_ext : (r : Result E A) (t : S) → continue r f t ≡ continue r g t
      continue_ext (ok a) t = h a t
      continue_ext (err e) t = refl
      continue_ext panicked t = refl
