-- ===== src/Fs/Copies.antt =====
-- src/fs.rs: the local copies of device files, one for each inode that is open. `copies` is the heap
-- that an `Arc<LocalCopy>` points into, and `open_copies` the map of the copies in use.
pub mod Dirty
pub mod Failures
use adbfs_rust.Base.{
  ℕ, zero, suc, ◌+◌, ◌-◌, ◌%◌, ◌^◌, Str, codes, ◌++◌, ◌==◌, if◌then◌else◌, Bool, true, false,
  Option, none, some, Result, ok, err, panicked, show, nat_eq,
}
use adbfs_rust.Base.Exec.{Exec, pure, raise, lift, continue, gets, modify, ◌>>=◌, ◌>>◌}
use adbfs_rust.Base.Map
use adbfs_rust.Errno.{enoent}
use adbfs_rust.Cache
use adbfs_rust.Ops.Messages.{DeviceError, to_errno}
use adbfs_rust.Ops.Device.{Op, pull, push, sync_device}
use adbfs_rust.Fs.State.{AdbFs, FsState, Fs, LocalCopy, new_copy, Ptr, device, system, attempt}
use adbfs_rust.Fs.Inodes.{get_path}
use adbfs_rust.Fs.Metadata.{cache_invalidate}

-- How `acquire_copy` fills a copy that it creates.
pub data CopyInit : Type 0 where
  pull_contents empty : CopyInit

module _ {W F : Type 0} where
  -- The copy that an `Arc` points to. An address that was never allocated is no `Arc`.
  unfoldable pub load : Ptr → FsState W F → LocalCopy
  load ptr s = elim (Map.get ptr s.copies) [ none ↦ new_copy (codes "") | some c ↦ c ]

  unfoldable pub store : Ptr → LocalCopy → Fs W F (Unit {0})
  store ptr c s = (ok tt, record s { copies = Map.insert ptr c s.copies })

  unfoldable pub set_dirty : Ptr → Bool → Fs W F (Unit {0})
  unfolding load store
  set_dirty ptr b s = store ptr (record (load ptr s) { dirty = b }) s

  -- `remove_if(&ino, |_, v| Arc::ptr_eq(v, copy))`
  unfoldable pub remove_if_same : ℕ → Ptr → Fs W F (Unit {0})
  remove_if_same ino ptr s = elim (Map.get ino s.open_copies) [
    | none ↦ (ok tt, s)
    | some p ↦
        if p == ptr
        then (ok tt, record s { open_copies = Map.remove ino s.open_copies })
        else (ok tt, s)
  ]

module _ {W F : Type 0} (fs : AdbFs W F) where
  -- Named after the inode.
  unfoldable pub local_path_for : ℕ → Str
  local_path_for ino = fs.tmp_dir ++ codes "/" ++ show ino

  -- `entry(ino).or_insert_with(…)`
  unfoldable pub entry_or_insert : ℕ → Fs W F Ptr
  unfolding local_path_for
  entry_or_insert ino s = elim (Map.get ino s.open_copies) [
    | some ptr ↦ (ok ptr, s)
    | none ↦ (
      ok s.next_ptr,
      record s {
        open_copies = Map.insert ino s.next_ptr s.open_copies;
        copies = Map.insert s.next_ptr (new_copy (local_path_for ino)) s.copies;
        next_ptr = s.next_ptr + 1;
      },
    )
  ]

  -- The `match init` of `acquire_copy`.
  unfoldable pub populate : Str → Ptr → LocalCopy → CopyInit → Fs W F (Unit {0})
  unfolding set_dirty system device
  populate path ptr c empty = do system (fs.local.create c.path); set_dirty ptr true
  populate path ptr c pull_contents = if c.pulled then pure tt else device (pull fs.ops path c.path)

  -- The error path of `acquire_copy`: a copy that no handle refers to is dropped.
  unfoldable pub abandon : ℕ → Ptr → ℕ → Fs W F Ptr
  unfolding load store remove_if_same
  abandon ino ptr e = do
    c ← gets (load ptr)
    if c.refs == 0
        then (do store ptr (record c { evicted = true }); remove_if_same ino ptr; raise e)
        else raise e

  -- A reference is taken on a populated copy.
  unfoldable pub take_reference : ℕ → Ptr → Result ℕ (Unit {0}) → Fs W F Ptr
  unfolding abandon
  take_reference ino ptr (err e) = abandon ino ptr e
  take_reference ino ptr panicked = lift panicked
  take_reference ino ptr (ok _) = do
    c ← gets (load ptr)
    store ptr (record c { pulled = true; refs = (c.refs + 1) % 2 ^ 64 })
    pure ptr

  -- The loop runs on fuel, and a call without fuel stands for one that still waits.
  unfoldable pub acquire_rounds : ℕ → ℕ → Str → CopyInit → Fs W F Ptr
  unfolding entry_or_insert populate attempt take_reference
  acquire_rounds zero ino path init = lift panicked
  acquire_rounds (suc fuel) ino path init = do
    ptr ← entry_or_insert ino
    c ← gets (load ptr)
    let again = acquire_rounds fuel ino path init
    if c.evicted
        then again
        else (do populated ← attempt (populate path ptr c init); take_reference ino ptr populated)

  -- Requests are served one after the other here: one round.
  unfoldable pub acquire_copy : ℕ → Str → CopyInit → Fs W F Ptr
  unfolding acquire_rounds
  acquire_copy = acquire_rounds 1

  unfoldable pub release_copy : ℕ → Ptr → Fs W F (Unit {0})
  unfolding load store remove_if_same attempt system
  release_copy ino ptr = do
    c ← gets (load ptr)
    let left = (c.refs + (2 ^ 64 - 1)) % 2 ^ 64
    if left == 0
        then (do
          store ptr (record c { refs = 0; evicted = true })
          removed ← attempt (system (fs.local.remove_file c.path))
          remove_if_same ino ptr)
        else store ptr (record c { refs = left })

  unfoldable pub push_and_sync : Str → Str → Fs W F (Unit {0})
  unfolding device
  push_and_sync local path = do device (push fs.ops local path); device (sync_device fs.ops)

  -- The end of `push_if_dirty`, for the result of the push.
  unfoldable pub after_push : Str → Ptr → Result ℕ (Unit {0}) → Fs W F (Unit {0})
  unfolding set_dirty cache_invalidate
  after_push path ptr (err e) = do set_dirty ptr true; raise e
  after_push path ptr panicked = lift panicked
  after_push path ptr (ok _) = cache_invalidate fs path

  -- `dirty` was cleared; the device path is that of the inode now.
  unfoldable pub push_cleared : Ptr → LocalCopy → Option Str → Fs W F (Unit {0})
  unfolding set_dirty attempt push_and_sync after_push
  push_cleared ptr c none = do set_dirty ptr true; raise enoent
  push_cleared ptr c (some path) = do
    pushed ← attempt (push_and_sync c.path path)
    after_push path ptr pushed

  unfoldable pub push_if_dirty : ℕ → Ptr → Fs W F (Unit {0})
  unfolding load set_dirty push_cleared
  push_if_dirty ino ptr = do
    c ← gets (load ptr)
    set_dirty ptr false
    path ← gets (get_path ino)
    if c.dirty then push_cleared ptr c path else pure tt
