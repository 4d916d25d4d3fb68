-- ===== src/Base/Family.antt =====
-- A family of things, one for each number: a change of one of them, and the weight of those below a bound.
use mathlib.Core.Logic.{inl, inr}
use mathlib.Core.Path.{◌≡◌, refl}
use native.Mathlib.Omega.{arith}
use Prim.Native.Nat.{ℕ, ◌+◌, ◌<◌, ◌≤◌, suc, zero}
use adbfs_rust.Base.Tests.{if◌then◌else◌, ◌==◌, Bool-cases}

abbrev pub update : {A : Type 0} → (ℕ → A) → ℕ → A → ℕ → A
update family i here j = if i == j then here else family j

-- The weights of the members 0, …, bound - 1 together.
pub weigh : {A : Type 0} → (A → ℕ) → (ℕ → A) → ℕ → ℕ
weigh weight family zero = 0
weigh weight family (suc bound) = weight (family bound) + weigh weight family bound

pub weigh_mono :
    {A : Type 0} (v w : A → ℕ) (family : ℕ → A)
    → ((a : A) → v a ≤ w a)
    → (bound : ℕ) → weigh v family bound ≤ weigh w family bound
unfolding weigh
weigh_mono v w family less zero = omega arith
weigh_mono v w family less (suc bound) =
    omega (arith, weigh_mono v w family less bound, less (family bound))

weigh_const :
    {A : Type 0} (c : ℕ) (family : ℕ → A)
    → c ≤ 1
    → (bound : ℕ) → weigh (λ a. c) family bound ≤ bound
unfolding weigh
weigh_const c family one zero = omega arith
weigh_const c family one (suc bound) = omega (arith, weigh_const c family one bound)

module _ {A : Type 0} (weight : A → ℕ) (family : ℕ → A) where
  -- Members of weight 0 or 1 weigh no more than there are of them.
  pub weigh-le : ((a : A) → weight a ≤ 1) → (bound : ℕ) → weigh weight family bound ≤ bound
  weigh-le light bound = omega (
    arith,
    weigh_mono weight (λ a. 1) family light bound,
    weigh_const 1 family (omega arith) bound,
  )

  pub weigh_none : ((j : ℕ) → weight (family j) ≡ 0) → (bound : ℕ) → weigh weight family bound ≡ 0
  unfolding weigh
  weigh_none empty zero = refl
  weigh_none empty (suc bound) = omega (arith, weigh_none empty bound, empty bound)

  pub weight-le-weigh : (bound i : ℕ) → i < bound → weight (family i) ≤ weigh weight family bound
  unfolding weigh
  weight-le-weigh zero i below = absurd (omega arith)
  weight-le-weigh (suc bound) i below = elim (Bool-cases (i == bound)) [
    | inr less ↦ ground (arith, weight-le-weigh bound i)
    | inl last ↦ ground arith
  ]

  -- A change of a member from the bound on does not count.
  weigh-update_beyond :
      (i : ℕ) (here : A) (bound : ℕ)
      → bound ≤ i
      → weigh weight (update family i here) bound ≡ weigh weight family bound
  unfolding weigh
  weigh-update_beyond i here zero beyond = refl
  weigh-update_beyond i here (suc bound) beyond =
      ground (arith, weigh-update_beyond i here bound (omega arith))

  -- A change of a member below the bound takes its weight away and adds the new one.
  pub weigh-update :
      (bound i : ℕ) (here : A)
      → i < bound
      → weight (family i) + weigh weight (update family i here) bound
        ≡ weight here + weigh weight family bound
  unfolding weigh
  weigh-update zero i here below = absurd (omega arith)
  weigh-update (suc bound) i here below = elim (Bool-cases (i == bound)) [
    | inr less ↦ ground (arith, weigh-update bound i here)
    | inl last ↦ ground (arith, weigh-update_beyond i here bound)
  ]
