-- ===== src/Base/Triples.antt =====
-- Conditions before and after a call that changes a state and may fail: what holds of the value and
-- the state when it returns, and of the state when it fails. Of a call that panics nothing is said.
use adbfs_rust.Base.Outcomes.{Result, ok, err, panicked}
use mathlib.Core.Path.{◌≡◌, refl, sym, subst}
use adbfs_rust.Base.Exec.{Exec, pure, raise, gets, continue, ◌>>=◌}

pub data Outcome {S E A : Type 0} (Q : A → S → Type 0) (R : S → Type 0)
    : Result E A → S → Type 0 where
  returns : {a : A} {s : S} → Q a s → Outcome Q R (ok a) s
  raises : {e : E} {s : S} → R s → Outcome Q R (err e) s
  panics : {s : S} → Outcome Q R panicked s

pub record Triple {S E A : Type 0} (P : S → Type 0) (m : Exec S E A) (Q : A → S → Type 0)
    (R : S → Type 0) : Type 0 where
  pub run : (s : S) → P s → Outcome Q R (m s).0 (m s).1

-- Whether it returns or fails.
abbrev pub Keeps : {S E A : Type 0} → (S → Type 0) → Exec S E A → Type 0
Keeps P m = Triple P m (λ _. P) P

module _ {S E A : Type 0} {P : S → Type 0} where
  pub pure_lem :
      {Q : A → S → Type 0} {R : S → Type 0} (a : A)
      → ((s : S) → P s → Q a s)
      → Triple {E = E} P (pure a) Q R
  pure_lem a h = record { run = λ s p. returns (h s p) }

  pub raise_lem :
      {Q : A → S → Type 0} {R : S → Type 0} (e : E)
      → ((s : S) → P s → R s)
      → Triple P (raise {A = A} e) Q R
  raise_lem e h = record { run = λ s p. raises (h s p) }

  pub gets_lem : {R : S → Type 0} (f : S → A) → Triple {E = E} P (gets f) (λ a s. P s × (a ≡ f s)) R
  gets_lem f = record { run = λ s p. returns (p, refl) }

  -- What the state says is the same before and after.
  pub gets_any : {R : S → Type 0} (f : S → A) → Triple {E = E} P (gets f) (λ _. P) R
  gets_any f = record { run = λ s p. returns p }

  pub any_outcome : (r : Result E A) (s : S) → P s → Outcome (λ _. P) P r s
  any_outcome (ok a) s p = returns p
  any_outcome (err e) s p = raises p
  any_outcome panicked s p = panics

  pub keeps : (m : Exec S E A) → ((s : S) → P s → P (m s).1) → Keeps P m
  keeps m h = record { run = λ s p. any_outcome (m s).0 (m s).1 (h s p) }

module _ {S E A B : Type 0} where
  continued :
      {Q : A → S → Type 0} {R : S → Type 0} {T : B → S → Type 0} {r : Result E A} {s : S}
      (f : A → Exec S E B)
      → Outcome Q R r s
      → ((a : A) → Triple (Q a) (f a) T R)
      → Outcome T R (continue r f s).0 (continue r f s).1
  continued f (returns {a} {s} q) h = (h a).run s q
  continued f (raises r) h = raises r
  continued f panics h = panics

  pub bind_lem :
      {P : S → Type 0} {Q : A → S → Type 0} {R : S → Type 0} {T : B → S → Type 0} {m : Exec S E A}
      {f : A → Exec S E B}
      → Triple P m Q R
      → ((a : A) → Triple (Q a) (f a) T R)
      → Triple P (m >>= f) T R
  bind_lem {f} hm hf = record { run = λ s p. continued f (hm.run s p) hf }

module _ {S E A : Type 0} where
  weaker :
      {Q T : A → S → Type 0} {R U : S → Type 0} {r : Result E A} {s : S}
      → Outcome Q R r s
      → ((a : A) (s : S) → Q a s → T a s)
      → ((s : S) → R s → U s)
      → Outcome T U r s
  weaker (returns q) f g = returns (f _ _ q)
  weaker (raises r) f g = raises (g _ r)
  weaker panics f g = panics

  pub weaken :
      {P P' : S → Type 0} {Q T : A → S → Type 0} {R U : S → Type 0} {m : Exec S E A}
      → ((s : S) → P' s → P s)
      → Triple P m Q R
      → ((a : A) (s : S) → Q a s → T a s)
      → ((s : S) → R s → U s)
      → Triple P' m T U
  weaken before h f g = record { run = λ s p. weaker (h.run s (before s p)) f g }

module _ {S E A : Type 0} {Q : A → S → Type 0} {R : S → Type 0} {s : S} where
  pub returned : {a : A} → Outcome {E = E} Q R (ok a) s → Q a s
  returned (returns q) = q

  pub raised : {e : E} → Outcome Q R (err e) s → R s
  raised (raises r) = r

  -- Where the call is computed.
  pub by_value :
      {r : Result E A} {o : Result E A × S} → o ≡ (r, s) → Outcome Q R r s → Outcome Q R o.0 o.1
  by_value e h = subst (λ p. Outcome Q R p.0 p.1) (sym e) h
