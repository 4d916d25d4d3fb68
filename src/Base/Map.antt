-- ===== src/Base/Map.antt =====
-- `DashMap` as an association list: one entry for a key, in an order that the program cannot rely on.
use mathlib.Core.Path.{◌≡◌, refl}
use mathlib.Core.Bool.{Bool, true}
use mathlib.Core.Option.{Option, none, some}
use mathlib.Core.List.{List, [], ◌∷◌}
use native.Mathlib.Omega.{arith}
use mathlib.Core.Logic.{◌≢◌}
use adbfs_rust.Base.Lists.{All, All-zip}
use adbfs_rust.Base.Tests.{if◌then◌else◌, Eq}

abbrev pub Map : Type 0 → Type 0 → Type 0
Map K V = List (K × V)

module _ {K V : Type 0} ⦃e : Eq K⦄ where
  unfoldable pub get : K → Map K V → Option V
  get k [] = none
  get k ((j, v) ∷ m) = if e.beq j k then some v else get k m

  unfoldable pub remove : K → Map K V → Map K V
  remove k [] = []
  remove k ((j, v) ∷ m) = let rest = remove k m in if e.beq j k then rest else (j, v) ∷ rest

  unfoldable pub insert : K → V → Map K V → Map K V
  unfolding remove
  insert k v m = (k, v) ∷ remove k m

  -- `retain`
  unfoldable pub retain : (K → Bool) → Map K V → Map K V
  retain p [] = []
  retain p ((j, v) ∷ m) = let rest = retain p m in if p j then (j, v) ∷ rest else rest

  pub get-nil : (k : K) → get k [] ≡ none
  unfolding get
  get-nil k = refl

  pub get-cons :
      (k j : K) (v : V) (m : Map K V) → get k ((j, v) ∷ m) ≡ (if e.beq j k then some v else get k m)
  unfolding get
  get-cons k j v m = refl

  pub get-remove :
      (k j : K) (m : Map K V) → get j (remove k m) ≡ (if e.beq k j then none else get j m)
  unfolding get remove
  get-remove k j [] = ground arith
  get-remove k j ((i, v) ∷ m) =
      ground (arith, e.beq_iff i k, e.beq_iff i j, e.beq_iff k j, get-remove k j m)

  pub get-insert :
      (k j : K) (v : V) (m : Map K V)
      → get j (insert k v m) ≡ (if e.beq k j then some v else get j m)
  unfolding get insert
  get-insert k j v m = ground (arith, get-remove k j m)

  pub get-retain :
      (p : K → Bool) (j : K) (m : Map K V) → get j (retain p m) ≡ (if p j then get j m else none)
  unfolding get retain
  get-retain p j [] = ground arith
  get-retain p j ((i, v) ∷ m) = ground (arith, e.beq_iff i j, get-retain p j m)

-- No key stands twice.
module _ {K V : Type 0} where
  abbrev pub Unique : Map K V → Type 0
  Unique [] = Unit
  Unique ((k, v) ∷ m) = All (λ e. e.0 ≢ k) m × Unique m

module _ {K V : Type 0} ⦃e : Eq K⦄ where
  All-remove : (P : K × V → Type 0) (k : K) (m : Map K V) → All P m → All P (remove k m)
  unfolding remove
  All-remove P k [] _ = tt
  All-remove P k ((j, v) ∷ m) (h, hs) = ground (arith, All-remove P k m hs)

  All-remove_self : (k : K) (m : Map K V) → All (λ p. p.0 ≢ k) (remove k m)
  unfolding remove
  All-remove_self k [] = tt
  All-remove_self k ((j, v) ∷ m) = ground (arith, All-remove_self k m, e.beq_iff j k)

  pub Unique-remove : (k : K) (m : Map K V) → Unique m → Unique (remove k m)
  unfolding remove
  Unique-remove k [] _ = tt
  Unique-remove k ((j, v) ∷ m) (fresh, u) =
      ground (arith, Unique-remove k m u, All-remove (λ p. p.0 ≢ j) k m fresh)

  pub Unique-insert : (k : K) (v : V) (m : Map K V) → Unique m → Unique (insert k v m)
  unfolding insert
  Unique-insert k v m u = (All-remove_self k m, Unique-remove k m u)

  -- Each entry of the list is what its key is mapped to.
  pub get-entries : (m : Map K V) → Unique m → All (λ p. get p.0 m ≡ some p.1) m
  unfolding get
  get-entries [] _ = tt
  get-entries ((k, v) ∷ m) (fresh, u) = (
    ground (arith, e.beq_iff k k),
    All-zip (λ p. p.0 ≢ k) (λ p. get p.0 m ≡ some p.1) _
        (λ p ne found. ground (arith, e.beq_iff k p.0)) m fresh (get-entries m u),
  )

pub beq_refl : {K : Type 0} ⦃e : Eq K⦄ (k : K) → e.beq k k ≡ true
beq_refl ⦃e⦄ k = (e.beq_iff k k).1 refl
