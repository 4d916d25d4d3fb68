-- ===== src/Fs/Pushes.antt =====
-- src/fs.rs: threads that write to one local copy and push it to the device, in `write`, the
-- truncation of `setattr`, `flush` and `create`. `push_if_dirty` takes no lock: its steps and those of
-- writers stand between one another in any order.
pub mod Invariant
pub mod Races
pub mod Alone
use adbfs_rust.Base.{ℕ, ◌+◌, ◌==◌, Bool, true, false, ◌≡◌, ◌≢◌}
use adbfs_rust.Base.Family.{update}

-- Where a thread stands.
pub data Place : Type 0 where
  -- in neither
  resting : Place
  -- the local file has changed, and `dirty` is about to be set
  written : Place
  -- `dirty` was set and is cleared now
  cleared : Place
  -- the push has begun, at the version of the local file
  sending : ℕ → Place
  -- the push has ended, and the device is asked to sync
  pushed : Place
  -- the push or the sync has failed, or the inode has no path, and `dirty` is about to be set again
  failed : Place

-- What the threads share. The version counts the changes of the local file.
pub record Shared (C : Type 0) : Type 0 where
  pub local : C
  pub version : ℕ
  pub device : C
  pub dirty : Bool

abbrev pub Threads : Type 0
Threads = ℕ → Place

-- A thread between the swap and the end of `push_if_dirty`.
abbrev pub is_pushing : Place → Bool
is_pushing cleared = true
is_pushing (sending v) = true
is_pushing pushed = true
is_pushing failed = true
is_pushing resting = false
is_pushing written = false

module _ {C : Type 0} where
  -- A step of `write` or of the truncation in `setattr`.
  pub data Writing (m : Shared C) : Place → Shared C → Place → Type 0 where
    -- `entry.file.write(data)` and `set_len`
    write : (c : C) → Writing m resting (record m { local = c; version = m.version + 1 }) written
    -- `copy.dirty.store(true)` behind it
    mark : Writing m written (record m { dirty = true }) resting

  -- A step of one thread: of a writer, or of `push_if_dirty`.
  pub data Move (m : Shared C) : Place → Shared C → Place → Type 0 where
    writing : {x y : Place} {m' : Shared C} → Writing m x m' y → Move m x m' y
    -- `copy.dirty.swap(false)` of a copy that is not dirty
    skip : m.dirty ≡ false → Move m resting m resting
    -- `copy.dirty.swap(false)` of a dirty copy
    clear : m.dirty ≡ true → Move m resting (record m { dirty = false }) cleared
    -- the inode has no path
    lost : Move m cleared m failed
    -- `ops.push` begins
    begin : Move m cleared m (sending m.version)
    -- `ops.push` ends: the device has what the local file held, if it held one thing all the time
    deliver :
        (v : ℕ) (c : C)
        → (m.version ≡ v → c ≡ m.local)
        → Move m (sending v) (record m { device = c }) pushed
    -- `ops.push` fails, with anything written on the device
    break : (v : ℕ) (c : C) → Move m (sending v) (record m { device = c }) failed
    -- `ops.sync_device`
    sync : Move m pushed m resting
    unsynced : Move m pushed m failed
    -- `copy.dirty.store(true)` in the error paths
    mark_again : Move m failed (record m { dirty = true }) resting

  -- A step of thread `i`. In a serial run no thread begins to push while another one pushes.
  pub data Turn (serial : Bool) (m : Shared C) (x : Threads) (m' : Shared C) (x' : Threads)
      : Type 0 where
    turn :
        (i : ℕ) (place : Place)
        → Move m (x i) m' place
        → x' ≡ update x i place
        → (serial ≡ true
            → is_pushing (x i) ≡ false
            → is_pushing place ≡ true
            → (j : ℕ) → is_pushing (x j) ≡ false)
        → Turn serial m x m' x'

  -- The copy at its start is not dirty and holds what the device holds.
  pub record IsStart (m : Shared C) (x : Threads) : Type 0 where
    pub synced : m.device ≡ m.local
    pub at_rest : (i : ℕ) → x i ≡ resting

  pub data Reach (serial : Bool) : Shared C → Threads → Type 0 where
    start : {m : Shared C} {x : Threads} → IsStart m x → Reach serial m x
    step :
        {m m' : Shared C} {x x' : Threads}
        → Reach serial m x
        → Turn serial m x m' x'
        → Reach serial m' x'
