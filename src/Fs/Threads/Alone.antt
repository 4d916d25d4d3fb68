-- ===== src/Fs/Threads/Alone.antt =====
-- src/fs.rs: `acquire_copy` and `release_copy` when no other thread comes between.
pub mod Acquire
pub mod Release
use adbfs_rust.Base.{
  ℕ, Str, Bool, true, false, none, some, Result, ok, err, panicked, ◌≡◌, ◌≢◌, refl, sym, ap, subst,
  ◌∙◌, fun_ext, arith, ◌==◌, if◌then◌else◌, nat_eq,
}
use adbfs_rust.Base.Exec.{Exec, raise, gets, lift, continue, ◌>>=◌, ◌>>◌}
use adbfs_rust.Base.Map
use adbfs_rust.Base.Map.{get-insert}
use adbfs_rust.Base.Family.{update}
use adbfs_rust.Fs.State.{AdbFs, FsState, Ptr, attempt, system, new_copy}
use adbfs_rust.Fs.Copies.{
  CopyInit, load, store, remove_if_same, entry_or_insert, populate, abandon, take_reference,
  acquire_rounds, acquire_copy, release_copy, local_path_for,
}
use adbfs_rust.Fs.Threads.Program.{
  Pc, idle, starting, waiting, filling, filled, held, closing, deleting, unmapping,
}
use adbfs_rust.Fs.Threads.Protocol.{Owners}
use adbfs_rust.Fs.Threads.Code.{
  Run, enter, acquire_lock, populate_done, populate_error, take_ref, give_up, mark_unused, drop_ref,
  drop_last, remove_local, remove_entry, refs_left, marked, dropped,
}
use adbfs_rust.Fs.Threads.View.{added, joined, load-store}

module _ {W F : Type 0} (fs : AdbFs W F) (i : ℕ) where
  -- Steps of one thread with none of another between them.
  pub data Runs (s' : FsState W F) (o' : Owners) (x : Pc) : FsState W F → Owners → Pc → Type 0 where
    done : Runs s' o' x s' o' x
    step :
        {s t : FsState W F} {o u : Owners} {y z : Pc}
        → Run fs i s o y t u z
        → Runs s' o' x t u z
        → Runs s' o' x s o y

  -- Where a call of `acquire_copy` leaves a thread.
  abbrev pub after : ℕ → Result ℕ Ptr → Pc
  after ino (ok p) = held ino p
  after ino (err e) = idle
  after ino panicked = idle

  unlock : (o : Owners) (p : Ptr) → o p ≡ none → update (update o p (some i)) p none ≡ o
  unlock o p free = fun_ext (λ q. ground (arith, free))

  -- The end of a run gives the lock back.
  pub unlocking :
      (o : Owners) (p : Ptr) {s s' : FsState W F} {x y : Pc} {u : Owners}
      → o p ≡ none
      → Runs s' (update (update o p (some i)) p none) x s u y
      → Runs s' o x s u y
  unlocking o p {s} {s'} {x} {y} {u} free r = subst (λ w. Runs s' w x s u y) (unlock o p free) r

  -- The steps from a place to the result of a call.
  abbrev pub To : ℕ → Owners → Result ℕ Ptr × FsState W F → FsState W F → Owners → Pc → Type 0
  To ino o' end s o y = Runs end.1 o' (after ino end.0) s o y
