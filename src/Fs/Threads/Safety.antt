-- ===== src/Fs/Threads/Safety.antt =====
-- src/fs.rs: what holds whenever threads have run `acquire_copy` and `release_copy` in any order.
use adbfs_rust.Base.{
  ℕ, ◌^◌, ◌<◌, Str, true, false, Option, none, some, ◌≡◌, ◌≢◌, refl, arith, subst, Bool-cases, inl,
  inr,
}
use adbfs_rust.Base.Family.{weigh, weigh_none, weight-le-weigh}
use adbfs_rust.Fs.State.{Ptr}
use adbfs_rust.Fs.Copies.{CopyInit}
use adbfs_rust.Fs.Threads.Program.{Pc, idle, waiting, held, deleting, locked, holds, wants}
use adbfs_rust.Fs.Threads.Invariant.{Inv, Knows}
use adbfs_rust.Fs.Threads.Settled.{Leaves}
use adbfs_rust.Fs.Threads.System.{System, Reach, Reach-Inv, Reach-Settled}

module _ {n : ℕ} {s : System} (few : n < 2 ^ 64) (r : Reach n s) where
  inv : Inv n s.shared s.owner s.place
  inv = Reach-Inv few r

  open inv use {home, mapped_home, knows, live, counted, dead, locks, owners, doomed}

  at : (i : ℕ) (y : Pc) → s.place i ≡ y → Knows home s.shared y
  at i y e = subst (Knows home s.shared) e (knows i)

  held_live :
      (i ino p : ℕ)
      → i < n
      → s.place i ≡ held ino p
      → (s.shared.refs p ≢ 0) × (s.shared.evicted p ≡ false) × (s.shared.mapped ino ≡ some p)
  held_live i ino p lt e =
      let (at_home, old) = at i _ e in
      let one : holds p (s.place i) ≡ 1 = ground arith in
      let used : s.shared.refs p ≢ 0 =
        omega (arith, counted p old, weight-le-weigh (holds p) s.place n i lt, one) in
      let fresh : s.shared.evicted p ≡ false = ground (arith, dead p old) in
      (used, fresh, subst (λ x. s.shared.mapped x ≡ some p) at_home (live p old fresh))

  -- Two threads that have the file of one inode open share one local copy.
  pub one_copy :
      (i j ino p q : ℕ) → i < n → j < n → s.place i ≡ held ino p → s.place j ≡ held ino q → p ≡ q
  one_copy i j ino p q lt lt' e e' =
      let (_, _, hit) = held_live i ino p lt e in
      let (_, _, hit') = held_live j ino q lt' e' in ground (arith, hit, hit')

  -- While a thread has a copy, the copy is counted and in the map, and no thread deletes its file.
  pub copy_kept :
      (i ino p : ℕ)
      → i < n
      → s.place i ≡ held ino p
      → (s.shared.refs p ≢ 0)
        × (s.shared.evicted p ≡ false)
        × (s.shared.mapped ino ≡ some p)
        × ((j q : ℕ) → s.place j ≢ deleting ino q)
  copy_kept i ino p lt e =
      let (used, fresh, hit) = held_live i ino p lt e in
      (
        used,
        fresh,
        hit,
        λ j q e'.
            let (_, _, gone) = at j _ e' in
            let leaves = subst (Leaves s.shared) e' ((Reach-Settled few r).leaves j) in
            ground (arith, fresh, gone, hit, leaves),
      )

  -- At most one thread has the lock of a copy: it alone pulls, evicts or deletes.
  pub one_owner : (i j p : ℕ) → locked (s.place i) ≡ some p → locked (s.place j) ≡ some p → i ≡ j
  one_owner i j p e e' = ground (arith, locks i p e, locks j p e')

  -- The count of a copy is the number of threads that have it.
  pub refs_counted : (p : Ptr) → p < s.shared.next → s.shared.refs p ≡ weigh (holds p) s.place n
  refs_counted = counted

  -- A thread that finds its copy evicted starts over with another: the copy has left the map.
  pub again_elsewhere :
      (i ino p : ℕ) (path : Str) (init : CopyInit)
      → s.place i ≡ waiting ino path init p
      → s.owner p ≡ none
      → s.shared.evicted p ≡ true
      → s.shared.mapped ino ≢ some p
  again_elsewhere i ino p path init e free gone hit = doomed ino p hit gone free

  -- When every thread has given back what it took, no copy is left in the map.
  pub all_given_back : ((i : ℕ) → s.place i ≡ idle) → (ino : ℕ) → s.shared.mapped ino ≡ none
  all_given_back quiet ino =
      elim (s.shared.mapped ino) as (λ x. s.shared.mapped ino ≡ x → x ≡ none) [
        | none ↦ λ e. refl
        | some p ↦ λ e. absurd (elim (Bool-cases (s.shared.evicted p)) [
          | inl gone ↦ doomed ino p e gone (ownerless (s.owner p) p refl)
          | inr fresh ↦
              let (_, old) = mapped_home ino p e in
              let unwanted = weigh_none (wants p) s.place (λ i. ground (arith, quiet i)) n in
              omega (arith, (Reach-Settled few r).claimed p old fresh, unwanted)
        ])
      ]
        refl
    where
      ownerless : (x : Option ℕ) (p : Ptr) → s.owner p ≡ x → x ≡ none
      ownerless none p e = refl
      ownerless (some j) p e = absurd (ground (arith, owners j p e, quiet j))
