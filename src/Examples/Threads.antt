-- ===== src/Examples/Threads.antt =====
-- Threads that open and close one file.
use adbfs_rust.Base.Exec.{pure}
use adbfs_rust.Base.{
  ◌≤◌, ◌^◌, panicked, if◌then◌else◌, ℕ, zero, suc, ◌<◌, ◌≡◌, ◌≢◌, ◌⊎◌, refl, arith, none, some,
  true, false, codes, nat_eq,
}
use adbfs_rust.Base.Map
use adbfs_rust.Base.Family.{weigh}
use adbfs_rust.Fs.State.{new, device, system}
use adbfs_rust.Ops.Device.{pull, transport}
use adbfs_rust.Fs.Copies.{
  pull_contents, load, store, entry_or_insert, populate, take_reference, remove_if_same,
  acquire_copy, empty,
}
use adbfs_rust.Fs.Threads.Program.{idle, starting, locked, deleting, holds}
use adbfs_rust.Fs.Threads.Code.{
  Uses, Turns, begin, further, go_on, call, enter, acquire_lock, populate_done, take_ref,
  start_release, drop_last, remove_local, remove_entry,
}
use adbfs_rust.Fs.Threads.System.{Reach}
use adbfs_rust.Fs.Threads.Refines.{Turns-Reach, system_of}
use adbfs_rust.Fs.Threads.Progress.{no_deadlock, Calm, CanRun, asks}
use adbfs_rust.Fs.Threads.Alone.{Runs, after}
use adbfs_rust.Fs.Threads.Alone.Acquire.{acquire_copy-Runs}
use adbfs_rust.Fs.Threads.Guarantees.{
  open_files_share, open_file_kept, refs-weigh, start_over_elsewhere, nothing_left,
}
use adbfs_rust.Examples.World.{World, quiet_fs, quiet_ops, start}

-- A state that two threads have reached.
abbrev Reached : Type 0
Reached = (s : Uses World (Unit {0})) × Turns quiet_fs 2 s

-- Thread 0 opens the file of inode 7.
abbrev opened : Reached
unfolding entry_or_insert populate take_reference device pull transport system load store Map.get
    Map.insert Map.remove new
opened = (
  _,
  further
      (further
        (further
          (further
            (further (begin start refl refl refl)
              (go_on 0 (omega arith) (call 7 (codes "/a") pull_contents)))
            (go_on 0 (omega arith) (enter 7 (codes "/a") pull_contents 0 _ refl)))
          (go_on 0 (omega arith) (acquire_lock 7 (codes "/a") pull_contents 0 refl refl)))
        (go_on 0 (omega arith) (populate_done 7 (codes "/a") pull_contents 0 _ refl)))
      (go_on 0 (omega arith) (take_ref 7 0 _ refl)),
)

-- Thread 1 opens it as well.
abbrev shared : Reached
unfolding entry_or_insert populate take_reference device pull transport system load store Map.get
    Map.insert Map.remove new
shared = (
  _,
  further
      (further
        (further
          (further (further opened.1 (go_on 1 (omega arith) (call 7 (codes "/a") pull_contents)))
            (go_on 1 (omega arith) (enter 7 (codes "/a") pull_contents 0 _ refl)))
          (go_on 1 (omega arith) (acquire_lock 7 (codes "/a") pull_contents 0 refl refl)))
        (go_on 1 (omega arith) (populate_done 7 (codes "/a") pull_contents 0 _ refl)))
      (go_on 1 (omega arith) (take_ref 7 0 _ refl)),
)

-- Thread 0 closes the file while thread 1 asks for the lock of its copy.
abbrev overtaken : Reached
unfolding entry_or_insert populate take_reference device pull transport system load store
    remove_if_same Map.get Map.insert Map.remove new
overtaken = (
  _,
  further
      (further
        (further
          (further
            (further (further opened.1 (go_on 1 (omega arith) (call 7 (codes "/a") pull_contents)))
              (go_on 1 (omega arith) (enter 7 (codes "/a") pull_contents 0 _ refl)))
            (go_on 0 (omega arith) (start_release 7 0)))
          (go_on 0 (omega arith) (drop_last 7 0 refl refl)))
        (go_on 0 (omega arith) (remove_local 7 0)))
      (go_on 0 (omega arith) (remove_entry 7 0)),
)

-- Thread 0 opens the file and closes it.
abbrev closed : Reached
unfolding entry_or_insert populate take_reference device pull transport system load store
    remove_if_same Map.get Map.insert Map.remove new
closed = (
  _,
  further
      (further
        (further (further opened.1 (go_on 0 (omega arith) (start_release 7 0)))
          (go_on 0 (omega arith) (drop_last 7 0 refl refl)))
        (go_on 0 (omega arith) (remove_local 7 0)))
      (go_on 0 (omega arith) (remove_entry 7 0)),
)

open_files_share_example : ◌≡◌ {A = ℕ} 0 0
unfolding shared
open_files_share_example =
    open_files_share quiet_fs (omega arith) shared.1 0 1 7 0 0 (omega arith) (omega arith) refl refl

open_file_kept_example :
    ((load 0 shared.0.fs_state).refs ≢ 0)
    × ((load 0 shared.0.fs_state).evicted ≡ false)
    × (Map.get 7 shared.0.fs_state.open_copies ≡ some 0)
    × ((j q : ℕ) → shared.0.place j ≢ deleting 7 q)
unfolding shared
open_file_kept_example = open_file_kept quiet_fs (omega arith) shared.1 1 7 0 (omega arith) refl

refs-weigh_example :
    ((load 0 shared.0.fs_state).refs ≡ weigh (holds 0) shared.0.place 2)
    × ((load 0 shared.0.fs_state).refs ≤ 2)
    × ((load 0 shared.0.fs_state).refs < 2 ^ 64)
unfolding entry_or_insert populate take_reference device pull transport system load store Map.get
    Map.insert Map.remove new
refs-weigh_example = refs-weigh quiet_fs (omega arith) shared.1 0 (omega arith)

start_over_elsewhere_example : Map.get 7 overtaken.0.fs_state.open_copies ≢ some 0
unfolding entry_or_insert populate take_reference device pull transport system load store
    remove_if_same Map.get Map.insert Map.remove new
start_over_elsewhere_example =
    start_over_elsewhere quiet_fs (omega arith) overtaken.1 1 7 0 (codes "/a") pull_contents refl
      refl refl

closed_idle : (i : ℕ) → closed.0.place i ≡ idle
unfolding closed
closed_idle zero = refl
closed_idle (suc i) = ground arith

nothing_left_example : Map.get 7 closed.0.fs_state.open_copies ≡ none
nothing_left_example = nothing_left quiet_fs (omega arith) closed.1 closed_idle 7

Turns-Reach_example : Reach 2 (system_of quiet_fs shared.0)
Turns-Reach_example = Turns-Reach quiet_fs shared.1

-- No call that fills a copy panics here.
calm : Calm quiet_fs
unfolding populate device pull transport system load store
calm path p pull_contents s =
    elim (load p s).pulled
      as (λ b.
        ((if b then pure tt else device (pull quiet_ops path (load p s).path)) s).0 ≢ panicked) [
          | true ↦ λ e. cc
          | false ↦ λ e. cc
        ]
calm path p empty s = ground arith

no_deadlock_example :
    CanRun quiet_fs 1 shared.0.fs_state shared.0.owner (shared.0.place 1)
    ⊎ (p : ℕ) × (j : ℕ) × (asks (shared.0.place 1) ≡ some p)
      × (locked (shared.0.place j) ≡ some p)
      × (j < 2)
      × CanRun quiet_fs j shared.0.fs_state shared.0.owner (shared.0.place j)
no_deadlock_example = no_deadlock quiet_fs calm (omega arith) shared.1 1

acquire_copy-Runs_example :
    Runs quiet_fs 0
      (acquire_copy quiet_fs 7 (codes "/a") pull_contents start).1
      (λ _. none)
      (after quiet_fs 0 7 (acquire_copy quiet_fs 7 (codes "/a") pull_contents start).0)
      start
      (λ _. none)
      (starting 7 (codes "/a") pull_contents)
unfolding Map.get new
acquire_copy-Runs_example =
    acquire_copy-Runs quiet_fs 0 7 (codes "/a") pull_contents (λ _. none) start (λ p. refl)
      (λ p e. ground arith) (λ p t. calm (codes "/a") p pull_contents t)
