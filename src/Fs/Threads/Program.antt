-- ===== src/Fs/Threads/Program.antt =====
-- src/fs.rs: where one use of a local copy stands in `acquire_copy` and `release_copy`. It takes a
-- reference, keeps it for as long as its handle is open, and gives it back; then the same place in
-- the family of uses may serve another one.
use adbfs_rust.Base.{ℕ, Str, ◌==◌, if◌then◌else◌, Option, none, some}
use adbfs_rust.Fs.State.{Ptr}
use adbfs_rust.Fs.Copies.{CopyInit}

pub data Pc : Type 0 where
  -- it has no reference
  idle : Pc
  -- at the head of the loop of `acquire_copy`
  starting : ℕ → Str → CopyInit → Pc
  -- it has the `Arc` and asks for the lock of the copy
  waiting : ℕ → Str → CopyInit → Ptr → Pc
  -- it has the lock, and the copy is not evicted
  filling : ℕ → Str → CopyInit → Ptr → Pc
  -- it has the lock, and has filled the copy, or has failed with an errno
  filled : ℕ → Ptr → Option ℕ → Pc
  -- `acquire_copy` has returned the copy
  held : ℕ → Ptr → Pc
  -- it asks for the lock in `release_copy`
  closing : ℕ → Ptr → Pc
  -- it has the lock, and has evicted the copy by giving back the last reference
  deleting : ℕ → Ptr → Pc
  -- it has the lock, and takes an evicted copy out of the map
  unmapping : ℕ → Ptr → Pc

-- The copy whose lock a thread has.
abbrev pub locked : Pc → Option Ptr
locked (filling _ _ _ p) = some p
locked (filled _ p _) = some p
locked (deleting _ p) = some p
locked (unmapping _ p) = some p
locked _ = none

-- The references of a thread on a copy.
abbrev pub holds : Ptr → Pc → ℕ
holds q (held _ p) = if p == q then 1 else 0
holds q (closing _ p) = if p == q then 1 else 0
holds q _ = 0

-- The copies that a thread is on the way to, or has a reference on.
abbrev pub wants : Ptr → Pc → ℕ
wants q (waiting _ _ _ p) = if p == q then 1 else 0
wants q (filling _ _ _ p) = if p == q then 1 else 0
wants q (filled _ p _) = if p == q then 1 else 0
wants q x = holds q x
