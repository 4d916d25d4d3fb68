-- ===== src/Fs/Threads/Moves.antt =====
-- Every step of a thread keeps the invariant.
use adbfs_rust.Fs.Copies.{CopyInit}
use adbfs_rust.Base.{
  subst, Str, ℕ, ◌+◌, ◌%◌, ◌^◌, ◌<◌, ◌≤◌, true, false, Option, none, some, ◌≡◌, ◌≢◌, refl, arith,
  Bool-cases, inl, inr, ◌==◌,
}
use adbfs_rust.Base.Family.{update, weigh-update, weigh-le, weigh_none}
use adbfs_rust.Fs.State.{Ptr}
use adbfs_rust.Fs.Threads.Program.{
  Pc, idle, starting, waiting, filling, filled, held, closing, deleting, unmapping, locked, holds,
}
use adbfs_rust.Fs.Threads.Protocol.{Shared, Owners, with_copy}
use adbfs_rust.Fs.Threads.Invariant.{Inv, Knows, Knows-change, All-update}

pub holds-le : (q : Ptr) (x : Pc) → holds q x ≤ 1
holds-le q (held _ p) = ground arith
holds-le q (closing _ p) = ground arith
holds-le q _ = omega arith

-- No thread has a reference on a copy that is yet to be made.
holds-new :
    (home : Ptr → ℕ) (m : Shared) (x : Pc) (q : Ptr)
    → (m.next == q) ≡ true
    → Knows home m x
    → holds q x ≡ 0
holds-new home m (held _ p) q new (k, lt) = ground arith
holds-new home m (closing _ p) q new (k, lt) = ground arith
holds-new home m idle q new k = refl
holds-new home m (starting _ _ _) q new k = refl
holds-new home m (waiting _ _ _ _) q new k = refl
holds-new home m (filling _ _ _ _) q new k = refl
holds-new home m (filled _ _ _) q new k = refl
holds-new home m (deleting _ _) q new k = refl
holds-new home m (unmapping _ _) q new k = refl

module _ (n i : ℕ) (m : Shared) (o : Owners) (pc : ℕ → Pc) (lt : i < n) (inv : Inv n m o pc) where
  open inv use {home, mapped_home, knows, live, counted, dead, locks, owners, doomed}

  -- A thread that keeps its lock goes on, and the shared state stays.
  pub going_on :
      (x : Pc)
      → locked x ≡ locked (pc i)
      → Knows home m x
      → ((q : Ptr) → holds q x ≡ holds q (pc i))
      → Inv n m o (update pc i x)
  going_on x same k h = record {
    home = home;
    few = inv.few;
    mapped_home = mapped_home;
    knows = λ j. All-update (Knows home m) pc i x k j (λ _. knows j);
    live = live;
    counted = λ q fresh. omega (arith, counted q fresh, h q, weigh-update (holds q) pc n i x lt);
    dead = dead;
    unlocked = inv.unlocked;
    locks = λ j q e. ground (arith, locks j q);
    owners = λ j q e. ground (arith, owners j q, owners i q);
    doomed = doomed;
  }

  -- A thread takes the lock of a copy that is not evicted.
  pub locking :
      (x : Pc) (p : Ptr)
      → locked (pc i) ≡ none
      → locked x ≡ some p
      → o p ≡ none
      → Knows home m x
      → p < m.next
      → ((q : Ptr) → holds q x ≡ holds q (pc i))
      → Inv n m (update o p (some i)) (update pc i x)
  locking x p out got free k old h = record {
    home = home;
    few = inv.few;
    mapped_home = mapped_home;
    knows = λ j. All-update (Knows home m) pc i x k j (λ _. knows j);
    live = live;
    counted = λ q fresh. omega (arith, counted q fresh, h q, weigh-update (holds q) pc n i x lt);
    dead = dead;
    unlocked = λ q above. ground (arith, inv.unlocked q);
    locks = λ j q e. ground (arith, locks j q);
    owners = λ j q e. ground (arith, owners j q, owners i q);
    doomed = λ ino' q e d. ground (arith, doomed ino' q);
  }

  pub known : (y : Pc) → pc i ≡ y → Knows home m y
  known y here = subst (Knows home m) here (knows i)

  -- Another thread has no lock that this one has.
  pub apart :
      (p q j : ℕ) → locked (pc i) ≡ some p → locked (pc j) ≡ some q → (i == j) ≡ false → p ≢ q
  apart p q j mine other ne same = ground (arith, locks i p, locks j q)

  pub adding :
      (ino : ℕ) (path : Str) (init : CopyInit)
      → pc i ≡ starting ino path init
      → m.mapped ino ≡ none
      → Inv n (with_copy m ino) o (update pc i (waiting ino path init m.next))
  adding ino path init here free = record {
    home = update home m.next ino;
    few = inv.few;
    mapped_home = λ ino' q e. ground (arith, mapped_home ino' q);
    knows = λ j.
        All-update (Knows (update home m.next ino) (with_copy m ino)) pc i _
          (ground arith, ground arith) j
          (λ _.
            Knows-change home (update home m.next ino) m (with_copy m ino) (pc j) (omega arith)
              (λ q old. ground arith) (λ q old e. ground arith) (knows j));
    live = λ q fresh e. ground (arith, live q);
    counted = λ q fresh. elim (Bool-cases (m.next == q)) [
      | inl new ↦ ground (
        arith,
        weigh-update (holds q) pc n i (waiting ino path init m.next) lt,
        weigh_none (holds q) pc (λ j. holds-new home m (pc j) q new (knows j)) n,
      )
      | inr old ↦
          ground (arith, counted q, weigh-update (holds q) pc n i (waiting ino path init m.next) lt)
    ];
    dead = λ q fresh e. ground (arith, dead q);
    unlocked = λ q above. inv.unlocked q (omega arith);
    locks = λ j q e. ground (arith, locks j q);
    owners = λ j q e. ground (arith, owners j q, owners i q);
    doomed = λ ino' q e d. ground (arith, doomed ino' q);
  }

  pub taking :
      (ino : ℕ) (p : Ptr) (r : Option ℕ)
      → pc i ≡ filled ino p r
      → Inv n
          (record m { refs = update m.refs p ((m.refs p + 1) % 2 ^ 64) })
          (update o p none)
          (update pc i (held ino p))
  taking ino p r here =
      let (at_home, old, fresh) = known _ here in
      record {
        home = home;
        few = inv.few;
        mapped_home = mapped_home;
        knows = λ j. All-update (Knows home m) pc i (held ino p) (at_home, old) j (λ _. knows j);
        live = live;
        counted = λ q f. ground (
          arith,
          counted q f,
          weigh-update (holds q) pc n i (held ino p) lt,
          weigh-le (holds q) (update pc i (held ino p)) (holds-le q) n,
          inv.few,
        );
        dead = λ q f e. ground (arith, dead q);
        unlocked = λ q above. ground (arith, inv.unlocked q);
        locks = λ j q e. ground (arith, locks j q, locks i p);
        owners = λ j q e. ground (arith, owners j q, owners i q);
        doomed = λ ino' q e d. ground (arith, doomed ino' q);
      }

  pub failing :
      (ino : ℕ) (p : Ptr) (r : Option ℕ)
      → pc i ≡ filled ino p r
      → Inv n m (update o p none) (update pc i idle)
  failing ino p r here =
      let (at_home, old, fresh) = known _ here in
      record {
        home = home;
        few = inv.few;
        mapped_home = mapped_home;
        knows = λ j. All-update (Knows home m) pc i idle tt j (λ _. knows j);
        live = live;
        counted = λ q f. ground (arith, counted q f, weigh-update (holds q) pc n i idle lt);
        dead = dead;
        unlocked = λ q above. ground (arith, inv.unlocked q);
        locks = λ j q e. ground (arith, locks j q, locks i p);
        owners = λ j q e. ground (arith, owners j q, owners i q);
        doomed = λ ino' q e d. ground (arith, doomed ino' q);
      }
