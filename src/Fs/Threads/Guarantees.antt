-- ===== src/Fs/Threads/Guarantees.antt =====
-- src/fs.rs: what the local copies promise to handlers that run on several threads.
use adbfs_rust.Base.{arith, ◌≤◌, ℕ, ◌^◌, ◌<◌, Str, true, false, none, some, ◌≡◌, ◌≢◌, nat_eq}
use adbfs_rust.Base.Map
use adbfs_rust.Base.Family.{weigh, weigh-le}
use adbfs_rust.Fs.State.{AdbFs, Ptr}
use adbfs_rust.Fs.Copies.{CopyInit, load}
use adbfs_rust.Fs.Threads.Program.{idle, waiting, held, deleting, holds}
use adbfs_rust.Fs.Threads.Code.{Uses, Turns}
use adbfs_rust.Fs.Threads.Safety.{
  one_copy, copy_kept, refs_counted, again_elsewhere, all_given_back,
}
use adbfs_rust.Fs.Threads.Moves.{holds-le}
use adbfs_rust.Fs.Threads.Refines.{Turns-Reach}

module _ {W F : Type 0} (fs : AdbFs W F) {n : ℕ} {s : Uses W F} (few : n < 2 ^ 64)
    (r : Turns fs n s) where
  -- Where there are fewer than 2^64 threads, two that have the file of one inode open share one local copy.
  pub open_files_share :
      (i j ino p q : ℕ) → i < n → j < n → s.place i ≡ held ino p → s.place j ≡ held ino q → p ≡ q
  open_files_share = one_copy few (Turns-Reach fs r)

  -- While one of fewer than 2^64 threads has a copy open, the copy has a reference, is not evicted and stands in the map of
  -- the copies, and no thread is about to delete the local file of that inode.
  pub open_file_kept :
      (i ino p : ℕ)
      → i < n
      → s.place i ≡ held ino p
      → ((load p s.fs_state).refs ≢ 0)
        × ((load p s.fs_state).evicted ≡ false)
        × (Map.get ino s.fs_state.open_copies ≡ some p)
        × ((j q : ℕ) → s.place j ≢ deleting ino q)
  open_file_kept = copy_kept few (Turns-Reach fs r)

  -- The reference count of a copy is the number of uses that have a reference on it: handles that are
  -- open on it and calls between their `acquire_copy` and the end of their `release_copy`. So it is
  -- at most the number of uses, of all copies together, and below 2^64 as long as they are fewer.
  pub refs-weigh :
      (p : Ptr)
      → p < s.fs_state.next_ptr
      → ((load p s.fs_state).refs ≡ weigh (holds p) s.place n)
        × ((load p s.fs_state).refs ≤ n)
        × ((load p s.fs_state).refs < 2 ^ 64)
  refs-weigh p old =
      let counted = refs_counted few (Turns-Reach fs r) p old in
      let most = weigh-le (holds p) s.place (holds-le p) n in
      (counted, omega (arith, counted, most), omega (arith, counted, most, few))

  -- A thread, of fewer than 2^64, that waited for a copy and finds it evicted starts over with another one: the evicted copy
  -- is no longer in the map.
  pub start_over_elsewhere :
      (i ino p : ℕ) (path : Str) (init : CopyInit)
      → s.place i ≡ waiting ino path init p
      → s.owner p ≡ none
      → (load p s.fs_state).evicted ≡ true
      → Map.get ino s.fs_state.open_copies ≢ some p
  start_over_elsewhere = again_elsewhere few (Turns-Reach fs r)

  -- When every thread, of fewer than 2^64, has given back what it took, no copy is left in the map.
  pub nothing_left :
      ((i : ℕ) → s.place i ≡ idle) → (ino : ℕ) → Map.get ino s.fs_state.open_copies ≡ none
  nothing_left = all_given_back few (Turns-Reach fs r)
