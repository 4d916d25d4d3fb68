-- ===== src/Fs/Pushes/Races.antt =====
-- src/fs.rs: what a write that races with a push comes to, and what two pushes at once come to.
use adbfs_rust.Base.{ℕ, Bool, true, false, ◌≡◌, ◌≢◌, refl, arith}
use adbfs_rust.Base.Family.{update}
use adbfs_rust.Fs.Pushes.{
  Place, resting, written, cleared, sending, pushed, Shared, Move, writing, write, mark, clear,
  begin, deliver, sync, Threads, turn, Reach, start, step,
}
use adbfs_rust.Fs.Pushes.Invariant.{Covered, same, marked, owed, Reach-IsTracked}

abbrev all_rest : Threads
all_rest i = resting

-- Thread 0 has begun to push the content `a`.
abbrev first_sending : Threads
first_sending =
    update (update (update (update all_rest 0 written) 0 resting) 0 cleared) 0 (sending 1)

-- Then thread 1 writes `b` and pushes it to the end.
abbrev second_done : Threads
second_done =
    update
      (update
        (update (update (update (update first_sending 1 written) 1 resting) 1 cleared) 1
          (sending 2))
        1 pushed)
      1 resting

module _ {C : Type 0} where
  rest_synced :
      (m : Shared C) (x : Threads)
      → ((i : ℕ) → x i ≡ resting)
      → m.dirty ≡ false
      → Covered m x
      → m.device ≡ m.local
  rest_synced m x rest clean (same e) = e
  rest_synced m x rest clean (marked d) = cc
  rest_synced m x rest clean (owed i o) = absurd (ground (arith, rest i))

  -- Writers and pushes of a local copy may stand between one another in any order, and pushes may
  -- fail: as long as no push of the copy begins while another one runs, once all threads are done
  -- and `dirty` is not set, the device has exactly what the local file holds.
  pub clean-synced :
      (m : Shared C) (x : Threads)
      → Reach true m x
      → ((i : ℕ) → x i ≡ resting)
      → m.dirty ≡ false
      → m.device ≡ m.local
  clean-synced m x reach rest clean = rest_synced m x rest clean (Reach-IsTracked m x reach).covered

  -- All threads are done, `dirty` is not set, and the device does not have what the local file holds.
  pub record IsStale (m : Shared C) (x : Threads) : Type 0 where
    pub at_rest : (i : ℕ) → x i ≡ resting
    pub clean : m.dirty ≡ false
    pub differs : m.device ≢ m.local

  then_turn :
      {m m' : Shared C} {x : Threads} (i : ℕ) (place : Place)
      → Reach false m x
      → Move m (x i) m' place
      → Reach false m' (update x i place)
  then_turn i place reach move = step reach (turn i place move refl (λ e f p j. cc))

  -- The device's and the local content, the version and the mark.
  abbrev at : C → C → ℕ → Bool → Shared C
  at device local version dirty = record {
    local = local;
    version = version;
    device = device;
    dirty = dirty;
  }

  first_push : (a : C) → Reach false (at a a 1 false) first_sending
  first_push a =
      let begun : Reach false (at a a 0 false) all_rest =
        start (record { synced = refl; at_rest = λ i. refl }) in
      let wrote : Reach false (at a a 1 false) (update all_rest 0 written) =
        then_turn 0 written begun (writing (write a)) in
      let noted : Reach false (at a a 1 true) (update (update all_rest 0 written) 0 resting) =
        then_turn 0 resting wrote (writing mark) in
      then_turn 0 (sending 1) (then_turn 0 cleared noted (clear refl)) begin

  second_push : (a b : C) → Reach false (at b b 2 false) second_done
  second_push a b =
      let wrote : Reach false (at a b 2 false) (update first_sending 1 written) =
        then_turn 1 written (first_push a) (writing (write b)) in
      let noted : Reach false (at a b 2 true) (update (update first_sending 1 written) 1 resting) =
        then_turn 1 resting wrote (writing mark) in
      then_turn 1 resting
        (then_turn 1 pushed (then_turn 1 (sending 2) (then_turn 1 cleared noted (clear refl)) begin)
          (deliver 2 b (λ e. refl)))
        sync

  -- Two pushes of one copy that overlap: where the older one takes effect on the device after the
  -- newer one, the device is left with older data and nothing says so. For any two contents there is
  -- such a run.
  pub overlap-IsStale :
      (a b : C)
      → a ≢ b
      → (m : Shared C) × (x : Threads) × Reach false m x
        × IsStale m x
        × (m.device ≡ a)
        × (m.local ≡ b)
  overlap-IsStale a b differ = (
    at a b 2 false,
    update (update second_done 0 pushed) 0 resting,
    then_turn 0 resting
        (then_turn 0 pushed (second_push a b) (deliver 1 a (λ e. absurd (omega (arith, e))))) sync,
    record { at_rest = λ i. ground arith; clean = refl; differs = differ },
    refl,
    refl,
  )
