-- ===== src/Fs/Threads/Evictions.antt =====
-- Steps of a thread that gives a reference back, evicts a copy, or takes one out of the map.
use adbfs_rust.Base.{ℕ, ◌<◌, true, Option, none, some, ◌≡◌, ◌≢◌, refl, arith}
use adbfs_rust.Base.Family.{update, weigh-update, weigh-le, weight-le-weigh}
use adbfs_rust.Fs.State.{Ptr}
use adbfs_rust.Fs.Threads.Program.{Pc, idle, filled, closing, deleting, unmapping, holds}
use adbfs_rust.Fs.Threads.Protocol.{Shared, Owners, left}
use adbfs_rust.Fs.Threads.Invariant.{Inv, Knows, Knows-change, All-update}
use adbfs_rust.Fs.Threads.Moves.{known, apart, holds-le}

module _ (n i : ℕ) (m : Shared) (o : Owners) (pc : ℕ → Pc) (lt : i < n) (inv : Inv n m o pc) where
  open inv use {home, mapped_home, knows, live, counted, dead, locks, owners, doomed}

  pub evicting :
      (ino : ℕ) (p : Ptr) (r : Option ℕ)
      → pc i ≡ filled ino p r
      → m.refs p ≡ 0
      → Inv n (record m { evicted = update m.evicted p true }) o (update pc i (unmapping ino p))
  evicting ino p r here unused =
      let (at_home, old, fresh) = known n i m o pc lt inv _ here in
      let m' : Shared = record m { evicted = update m.evicted p true } in
      record {
        home = home;
        few = inv.few;
        mapped_home = mapped_home;
        knows = λ j.
            All-update (Knows home m') pc i (unmapping ino p) (at_home, old, ground arith) j
              (λ ne.
                Knows-change home home m m' (pc j) (omega arith) (λ q f. refl)
                  (λ q f e. ground (arith, apart n i m o pc lt inv p q j (ground arith) e ne))
                  (knows j));
        live = λ q f e. ground (arith, live q);
        counted =
            λ q f. ground (arith, counted q f, weigh-update (holds q) pc n i (unmapping ino p) lt);
        dead = λ q f e. ground (arith, dead q);
        unlocked = inv.unlocked;
        locks = λ j q e. ground (arith, locks j q, locks i p);
        owners = λ j q e. ground (arith, owners j q, owners i q);
        doomed = λ ino' q e d. ground (arith, doomed ino' q, locks i p);
      }

  pub giving_back :
      (ino : ℕ) (p : Ptr)
      → pc i ≡ closing ino p
      → o p ≡ none
      → left m p ≢ 0
      → Inv n (record m { refs = update m.refs p (left m p) }) o (update pc i idle)
  giving_back ino p here free more =
      let (at_home, old) = known n i m o pc lt inv _ here in
      record {
        home = home;
        few = inv.few;
        mapped_home = mapped_home;
        knows = λ j. All-update (Knows home m) pc i idle tt j (λ _. knows j);
        live = live;
        counted = λ q f. ground (
          arith,
          counted q f,
          weigh-update (holds q) pc n i idle lt,
          weigh-le (holds q) pc (holds-le q) n,
          weight-le-weigh (holds q) pc n i lt,
          inv.few,
        );
        dead = λ q f e. ground (arith, dead q, counted p old, weight-le-weigh (holds p) pc n i lt);
        unlocked = inv.unlocked;
        locks = λ j q e. ground (arith, locks j q);
        owners = λ j q e. ground (arith, owners j q, owners i q);
        doomed = doomed;
      }

  pub giving_last :
      (ino : ℕ) (p : Ptr)
      → pc i ≡ closing ino p
      → o p ≡ none
      → left m p ≡ 0
      → Inv n
          (record m { refs = update m.refs p 0; evicted = update m.evicted p true })
          (update o p (some i))
          (update pc i (deleting ino p))
  giving_last ino p here free last =
      let (at_home, old) = known n i m o pc lt inv _ here in
      let m' : Shared = record m { refs = update m.refs p 0; evicted = update m.evicted p true } in
      record {
        home = home;
        few = inv.few;
        mapped_home = mapped_home;
        knows = λ j.
            All-update (Knows home m') pc i (deleting ino p) (at_home, old, ground arith) j
              (λ ne.
                Knows-change home home m m' (pc j) (omega arith) (λ q f. refl)
                  (λ q f e. ground (arith, locks j q e)) (knows j));
        live = λ q f e. ground (arith, live q);
        counted = λ q f. ground (
          arith,
          counted q f,
          weigh-update (holds q) pc n i (deleting ino p) lt,
          weigh-le (holds q) pc (holds-le q) n,
          weight-le-weigh (holds q) pc n i lt,
          inv.few,
        );
        dead = λ q f e. ground (arith, dead q);
        unlocked = λ q above. ground (arith, inv.unlocked q);
        locks = λ j q e. ground (arith, locks j q);
        owners = λ j q e. ground (arith, owners j q, owners i q);
        doomed = λ ino' q e d. ground (arith, doomed ino' q);
      }

  pub unmapping_hit :
      (ino : ℕ) (p : Ptr)
      → pc i ≡ unmapping ino p
      → m.mapped ino ≡ some p
      → Inv n (record m { mapped = update m.mapped ino none }) (update o p none) (update pc i idle)
  unmapping_hit ino p here hit =
      let (at_home, old, gone) = known n i m o pc lt inv _ here in
      record {
        home = home;
        few = inv.few;
        mapped_home = λ ino' q e. ground (arith, mapped_home ino' q);
        knows = λ j. All-update (Knows home m) pc i idle tt j (λ _. knows j);
        live = λ q f e. ground (arith, live q);
        counted = λ q f. ground (arith, counted q f, weigh-update (holds q) pc n i idle lt);
        dead = dead;
        unlocked = λ q above. ground (arith, inv.unlocked q);
        locks = λ j q e. ground (arith, locks j q, locks i p);
        owners = λ j q e. ground (arith, owners j q, owners i q);
        doomed = λ ino' q e d. ground (arith, doomed ino' q, mapped_home ino' q);
      }

  pub unmapping_miss :
      (ino : ℕ) (p : Ptr)
      → pc i ≡ unmapping ino p
      → m.mapped ino ≢ some p
      → Inv n m (update o p none) (update pc i idle)
  unmapping_miss ino p here miss =
      let (at_home, old, gone) = known n i m o pc lt inv _ here in
      record {
        home = home;
        few = inv.few;
        mapped_home = mapped_home;
        knows = λ j. All-update (Knows home m) pc i idle tt j (λ _. knows j);
        live = live;
        counted = λ q f. ground (arith, counted q f, weigh-update (holds q) pc n i idle lt);
        dead = dead;
        unlocked = λ q above. ground (arith, inv.unlocked q);
        locks = λ j q e. ground (arith, locks j q, locks i p);
        owners = λ j q e. ground (arith, owners j q, owners i q);
        doomed = λ ino' q e d. ground (arith, doomed ino' q, mapped_home ino' q);
      }
