-- ===== src/Fs/Pushes/Invariant.antt =====
-- src/fs.rs: what keeps the device and the local copy together where pushes do not overlap.
use adbfs_rust.Base.{
  ℕ, ◌==◌, Bool, true, false, ◌≡◌, inl, inr, refl, sym, ◌∙◌, arith, subst, Bool-cases,
}
use adbfs_rust.Base.Family.{update}
use adbfs_rust.Fs.Pushes.{
  Place, resting, written, cleared, sending, pushed, failed, Shared, Move, writing, write, mark,
  skip, clear, lost, begin, deliver, break, sync, unsynced, mark_again, Threads, is_pushing, Turn,
  turn, Reach, start, step,
}

-- A thread that will set `dirty`, or deliver what the local file holds.
abbrev pub owes : ℕ → Place → Bool
owes version resting = false
owes version written = true
owes version cleared = true
owes version (sending v) = v == version
owes version pushed = false
owes version failed = true

abbrev pub is_written : Place → Bool
is_written written = true
is_written resting = false
is_written cleared = false
is_written (sending v) = false
is_written pushed = false
is_written failed = false

module _ (x : Threads) (i : ℕ) (place : Place) where
  alone_kept :
      ((j k : ℕ) → is_pushing (x j) ≡ true → is_pushing (x k) ≡ true → j ≡ k)
      → (is_pushing (x i) ≡ false → is_pushing place ≡ true → (j : ℕ) → is_pushing (x j) ≡ false)
      → (j k : ℕ) → is_pushing (update x i place j) ≡ true
      → is_pushing (update x i place k) ≡ true
      → j ≡ k
  alone_kept alone first j k p q = elim (Bool-cases (is_pushing (x i))) [
    | inl e ↦ ground (arith, alone i j, alone i k, alone j k)
    | inr e ↦ elim (Bool-cases (is_pushing place)) [
      | inl b ↦ ground (arith, first e b j, first e b k)
      | inr b ↦ ground (arith, alone j k)
    ]
  ]

module _ {C : Type 0} where
  -- The device has the local file's content, or will get it, or `dirty` tells that it has not.
  pub data Covered (m : Shared C) (x : Threads) : Type 0 where
    same : m.device ≡ m.local → Covered m x
    marked : m.dirty ≡ true → Covered m x
    owed : (i : ℕ) → owes m.version (x i) ≡ true → Covered m x

  -- A push that has begun before a change of the local file leaves the change to another one.
  pub data Followed (m : Shared C) (x : Threads) (v : ℕ) : Type 0 where
    current : v ≡ m.version → Followed m x v
    marked_since : m.dirty ≡ true → Followed m x v
    written_since : (i : ℕ) → is_written (x i) ≡ true → Followed m x v

  pub record IsTracked (m : Shared C) (x : Threads) : Type 0 where
    pub covered : Covered m x
    pub followed : (i v : ℕ) → x i ≡ sending v → Followed m x v
    pub alone : (i j : ℕ) → is_pushing (x i) ≡ true → is_pushing (x j) ≡ true → i ≡ j

  module _ (x : Threads) (i : ℕ) (place : Place) where
    -- A step of a thread that owes nothing, where nothing that is shared changes.
    covers_still :
        (m : Shared C) → owes m.version (x i) ≡ false → Covered m x → Covered m (update x i place)
    covers_still m free (same e) = same e
    covers_still m free (marked e) = marked e
    covers_still m free (owed j e) = owed j (ground arith)

    follows :
        (m m' : Shared C) (v : ℕ)
        → is_written (x i) ≡ false
        → m'.version ≡ m.version
        → m'.dirty ≡ m.dirty
        → Followed m x v
        → Followed m' (update x i place) v
    follows m m' v quiet version dirty (current e) = current (e ∙ sym version)
    follows m m' v quiet version dirty (marked_since e) = marked_since (dirty ∙ e)
    follows m m' v quiet version dirty (written_since j e) = written_since j (ground arith)

    follows_still :
        (m m' : Shared C)
        → is_written (x i) ≡ false
        → m'.version ≡ m.version
        → m'.dirty ≡ m.dirty
        → ((v : ℕ) → place ≡ sending v → v ≡ m'.version)
        → ((j v : ℕ) → x j ≡ sending v → Followed m x v)
        → (j v : ℕ) → update x i place j ≡ sending v
        → Followed m' (update x i place) v
    follows_still m m' quiet version dirty begun h j v e = elim (Bool-cases (i == j)) [
      | inl s ↦ current (begun v (ground arith))
      | inr s ↦ follows m m' v quiet version dirty (h j v (ground arith))
    ]

  module _ (x : Threads) (i : ℕ) where
    delivered :
        (m : Shared C) (v : ℕ) (c : C)
        → x i ≡ sending v
        → (m.version ≡ v → c ≡ m.local)
        → Followed m x v
        → Covered (record m { device = c }) (update x i pushed)
    delivered m v c e whole (current now) = same (whole (sym now))
    delivered m v c e whole (marked_since d) = marked d
    delivered m v c e whole (written_since j w) = owed j (ground arith)

    moved :
        (m m' : Shared C) (here place : Place)
        → x i ≡ here
        → (is_pushing (x i) ≡ false → is_pushing place ≡ true → (j : ℕ) → is_pushing (x j) ≡ false)
        → IsTracked m x
        → Move m here m' place
        → Covered m' (update x i place)
          × ((j v : ℕ) → update x i place j ≡ sending v → Followed m' (update x i place) v)
    moved m m' here place e first t (writing (write c)) =
        (owed i (ground arith), λ j v s. written_since i (ground arith))
    moved m m' here place e first t (writing mark) = (marked refl, λ j v s. marked_since refl)
    moved m m' here place e first t (skip clean) = (
      covers_still x i place m (ground arith) t.covered,
      follows_still x i place m m' (ground arith) refl refl (λ v s. cc) t.followed,
    )
    moved m m' here place e first t (clear d) =
        (owed i (ground arith), λ j v s. absurd (ground (arith, first (ground arith) refl j)))
    moved m m' here place e first t lost = (
      owed i (ground arith),
      follows_still x i place m m' (ground arith) refl refl (λ v s. cc) t.followed,
    )
    moved m m' here place e first t begin = (
      owed i (ground arith),
      follows_still x i place m m' (ground arith) refl refl (λ v s. ground arith) t.followed,
    )
    moved m m' here place e first t (deliver v c whole) = (
      delivered m v c e whole (t.followed i v e),
      follows_still x i place m m' (ground arith) refl refl (λ w s. cc) t.followed,
    )
    moved m m' here place e first t (break v c) = (
      owed i (ground arith),
      follows_still x i place m m' (ground arith) refl refl (λ w s. cc) t.followed,
    )
    moved m m' here place e first t sync = (
      covers_still x i place m (ground arith) t.covered,
      follows_still x i place m m' (ground arith) refl refl (λ v s. cc) t.followed,
    )
    moved m m' here place e first t unsynced = (
      owed i (ground arith),
      follows_still x i place m m' (ground arith) refl refl (λ v s. cc) t.followed,
    )
    moved m m' here place e first t mark_again = (marked refl, λ j v s. marked_since refl)

  turned :
      (m m' : Shared C) (x x' : Threads) → IsTracked m x → Turn true m x m' x' → IsTracked m' x'
  turned m m' x x' t (turn i place move e first) =
      let (c, f) = moved x i m m' (x i) place refl (first refl) t move in
      subst (IsTracked m') (sym e)
        (record { covered = c; followed = f; alone = alone_kept x i place t.alone (first refl) })

  -- In every state of a serial run the invariant holds.
  pub Reach-IsTracked : (m : Shared C) (x : Threads) → Reach true m x → IsTracked m x
  Reach-IsTracked m x (start s) = record {
    covered = same s.synced;
    followed = λ i v e. cc (s.at_rest i);
    alone = λ i j p q. absurd (ground (arith, s.at_rest i));
  }
  Reach-IsTracked m x (step {m = n} {x = y} reach t) = turned n m y x (Reach-IsTracked n y reach) t
