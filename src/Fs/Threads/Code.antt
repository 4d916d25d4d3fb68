-- ===== src/Fs/Threads/Code.antt =====
-- src/fs.rs: `acquire_copy` and `release_copy` cut where another thread can come between: at the entry
-- of the map, at the lock of a copy, and around the calls that are made under the lock.
use adbfs_rust.Base.{
  ℕ, ◌+◌, ◌-◌, ◌%◌, ◌^◌, Str, true, false, none, some, ok, err, ◌≡◌, ◌≢◌, ◌<◌, [], nat_eq,
}
use adbfs_rust.Base.Family.{update}
use adbfs_rust.Fs.State.{AdbFs, FsState, Ptr, system}
use adbfs_rust.Fs.Copies.{
  CopyInit, load, store, remove_if_same, entry_or_insert, populate, take_reference,
}
use adbfs_rust.Fs.Threads.Program.{
  Pc, idle, starting, waiting, filling, filled, held, closing, deleting, unmapping,
}
use adbfs_rust.Fs.Threads.View.{view}
use adbfs_rust.Fs.Threads.Protocol.{Owners}

-- The state of the file system, the uses that own the locks, and where each use of a copy is: the
-- handles that are open and the calls that run, whichever workers run them.
pub record Uses (W F : Type 0) : Type 0 where
  pub fs_state : FsState W F
  pub owner : Owners
  pub place : ℕ → Pc

module _ {W F : Type 0} (fs : AdbFs W F) where
  -- The count of a copy with one reference less.
  abbrev pub refs_left : FsState W F → Ptr → ℕ
  refs_left s p = ((load p s).refs + (2 ^ 64 - 1)) % 2 ^ 64

  abbrev pub marked : FsState W F → Ptr → FsState W F
  marked s p = (store p (record (load p s) { evicted = true }) s).1

  abbrev pub with_refs : FsState W F → Ptr → ℕ → FsState W F
  with_refs s p k = (store p (record (load p s) { refs = k }) s).1

  abbrev pub dropped : FsState W F → Ptr → FsState W F
  dropped s p = (store p (record (load p s) { refs = 0; evicted = true }) s).1

  -- A part of `acquire_copy` or `release_copy` that use `i` runs without a break.
  pub data Run (i : ℕ) (s : FsState W F) (o : Owners)
      : Pc → FsState W F → Owners → Pc → Type 0 where
    call : (ino : ℕ) (path : Str) (init : CopyInit) → Run i s o idle s o (starting ino path init)
    enter :
        (ino : ℕ) (path : Str) (init : CopyInit) (p : Ptr) (s' : FsState W F)
        → entry_or_insert fs ino s ≡ (ok p, s')
        → Run i s o (starting ino path init) s' o (waiting ino path init p)
    start_over :
        (ino : ℕ) (path : Str) (init : CopyInit) (p : Ptr)
        → o p ≡ none
        → (load p s).evicted ≡ true
        → Run i s o (waiting ino path init p) s o (starting ino path init)
    acquire_lock :
        (ino : ℕ) (path : Str) (init : CopyInit) (p : Ptr)
        → o p ≡ none
        → (load p s).evicted ≡ false
        → Run i s o (waiting ino path init p) s (update o p (some i)) (filling ino path init p)
    populate_done :
        (ino : ℕ) (path : Str) (init : CopyInit) (p : Ptr) (s' : FsState W F)
        → populate fs path p (load p s) init s ≡ (ok tt, s')
        → Run i s o (filling ino path init p) s' o (filled ino p none)
    populate_error :
        (ino : ℕ) (path : Str) (init : CopyInit) (p : Ptr) (e : ℕ) (s' : FsState W F)
        → populate fs path p (load p s) init s ≡ (err e, s')
        → Run i s o (filling ino path init p) s' o (filled ino p (some e))
    take_ref :
        (ino : ℕ) (p : Ptr) (s' : FsState W F)
        → take_reference fs ino p (ok tt) s ≡ (ok p, s')
        → Run i s o (filled ino p none) s' (update o p none) (held ino p)
    give_up :
        (ino : ℕ) (p : Ptr) (e : ℕ)
        → (load p s).refs ≢ 0
        → Run i s o (filled ino p (some e)) s (update o p none) idle
    mark_unused :
        (ino : ℕ) (p : Ptr) (e : ℕ)
        → (load p s).refs ≡ 0
        → Run i s o (filled ino p (some e)) (marked s p) o (unmapping ino p)
    start_release : (ino : ℕ) (p : Ptr) → Run i s o (held ino p) s o (closing ino p)
    drop_ref :
        (ino : ℕ) (p : Ptr)
        → o p ≡ none
        → refs_left s p ≢ 0
        → Run i s o (closing ino p) (with_refs s p (refs_left s p)) o idle
    drop_last :
        (ino : ℕ) (p : Ptr)
        → o p ≡ none
        → refs_left s p ≡ 0
        → Run i s o (closing ino p) (dropped s p) (update o p (some i)) (deleting ino p)
    remove_local :
        (ino : ℕ) (p : Ptr)
        → Run i s o
            (deleting ino p)
            (system (fs.local.remove_file (load p s).path) s).1
            o
            (unmapping ino p)
    remove_entry :
        (ino : ℕ) (p : Ptr)
        → Run i s o (unmapping ino p) (remove_if_same ino p s).1 (update o p none) idle

  -- A use goes on, or another handler changes what is not a count, a mark or an entry of the map.
  pub data Turn (n : ℕ) (s : Uses W F) : Uses W F → Type 0 where
    go_on :
        (i : ℕ) {t : FsState W F} {o : Owners} {x : Pc}
        → i < n
        → Run i s.fs_state s.owner (s.place i) t o x
        → Turn n s (record { fs_state = t; owner = o; place = update s.place i x })
    handler : (t : FsState W F) → view t ≡ view s.fs_state → Turn n s (record s { fs_state = t })

  pub data Turns (n : ℕ) : Uses W F → Type 0 where
    begin :
        (t : FsState W F)
        → t.copies ≡ []
        → t.open_copies ≡ []
        → t.next_ptr ≡ 0
        → Turns n (record { fs_state = t; owner = λ _. none; place = λ _. idle })
    further : {s t : Uses W F} → Turns n s → Turn n s t → Turns n t
