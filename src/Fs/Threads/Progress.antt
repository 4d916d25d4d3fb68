-- ===== src/Fs/Threads/Progress.antt =====
-- src/fs.rs: threads in `acquire_copy` and `release_copy` do not wait for each other in a circle.
use adbfs_rust.Base.{
  ℕ, ltb, ◌^◌, ◌<◌, Str, Option, none, some, Result, ok, err, panicked, ◌≡◌, ◌≢◌, ◌⊎◌, refl, ap,
  nat_eq, arith, ◌==◌, Bool-cases, inl, inr, [],
}
use adbfs_rust.Base.Map
use adbfs_rust.Fs.Threads.View.{added, joined}
use adbfs_rust.Fs.State.{AdbFs, FsState, Ptr}
use adbfs_rust.Fs.Copies.{CopyInit, empty, load, populate, take_reference}
use adbfs_rust.Fs.Threads.Program.{
  Pc, idle, starting, waiting, filling, filled, held, closing, deleting, unmapping, locked,
}
use adbfs_rust.Fs.Threads.Protocol.{Owners}
use adbfs_rust.Fs.Threads.Code.{
  Run, call, enter, start_over, acquire_lock, populate_done, populate_error, take_ref, give_up,
  mark_unused, start_release, drop_ref, drop_last, remove_local, remove_entry, refs_left, Uses,
  Turns,
}
use adbfs_rust.Fs.Threads.Refines.{Turns-Reach, system_of}
use adbfs_rust.Fs.Threads.Invariant.{Inv}
use adbfs_rust.Fs.Threads.Settled.{Settled}
use adbfs_rust.Fs.Threads.System.{Reach-Inv, Reach-Settled}

-- The copy whose lock a thread asks for.
abbrev pub asks : Pc → Option Ptr
asks (waiting _ _ _ p) = some p
asks (closing _ p) = some p
asks _ = none

module _ {W F : Type 0} (fs : AdbFs W F) where
  -- A thread that stands at a place goes on.
  abbrev pub CanRun : ℕ → FsState W F → Owners → Pc → Type 0
  CanRun i s o y = (s' : FsState W F) × (o' : Owners) × (x : Pc) × Run fs i s o y s' o' x

  -- No call that fills a copy panics.
  abbrev pub Calm : Type 0
  Calm =
      (path : Str) (p : Ptr) (init : CopyInit) (s : FsState W F)
      → (populate fs path p (load p s) init s).0 ≢ panicked

  module _ (calm : Calm) (i : ℕ) (s : FsState W F) (o : Owners) where
    populating :
        (ino : ℕ) (path : Str) (init : CopyInit) (p : Ptr) (r : Result ℕ (Unit {0}))
        (s' : FsState W F)
        → populate fs path p (load p s) init s ≡ (r, s')
        → CanRun i s o (filling ino path init p)
    populating ino path init p (ok _) s' e = (_, _, _, populate_done ino path init p s' e)
    populating ino path init p (err b) s' e = (_, _, _, populate_error ino path init p b s' e)
    populating ino path init p panicked s' e = absurd (calm path p init s (ap (λ t. t.0) e))

    -- The owner of a lock goes on.
    owner_runs : (y : Pc) (p : Ptr) → locked y ≡ some p → CanRun i s o y
    unfolding take_reference
    owner_runs (filling ino path init p) q e =
        populating ino path init p (populate fs path p (load p s) init s).0
          (populate fs path p (load p s) init s).1 refl
    owner_runs (filled ino p none) q e = (_, _, _, take_ref ino p _ refl)
    owner_runs (filled ino p (some b)) q e = elim (Bool-cases ((load p s).refs == 0)) [
      | inl unused ↦ (_, _, _, mark_unused ino p b (ground arith))
      | inr used ↦ (_, _, _, give_up ino p b (ground arith))
    ]
    owner_runs (deleting ino p) q e = (_, _, _, remove_local ino p)
    owner_runs (unmapping ino p) q e = (_, _, _, remove_entry ino p)
    owner_runs idle q e = absurd (ground arith)
    owner_runs (starting _ _ _) q e = absurd (ground arith)
    owner_runs (waiting _ _ _ _) q e = absurd (ground arith)
    owner_runs (held _ _) q e = absurd (ground arith)
    owner_runs (closing _ _) q e = absurd (ground arith)

    entering_runs : (ino : ℕ) (path : Str) (init : CopyInit) → CanRun i s o (starting ino path init)
    entering_runs ino path init =
        elim (Map.get ino s.open_copies)
            as (λ x. Map.get ino s.open_copies ≡ x → CanRun i s o (starting ino path init)) [
              | none ↦ λ e. (_, _, _, enter ino path init s.next_ptr _ (added fs ino s e))
              | some p ↦ λ e. (_, _, _, enter ino path init p s (joined fs ino p s e))
            ]
          refl

    waiting_runs :
        (ino : ℕ) (path : Str) (init : CopyInit) (p : Ptr)
        → o p ≡ none
        → CanRun i s o (waiting ino path init p)
    waiting_runs ino path init p free = elim (Bool-cases (load p s).evicted) [
      | inl gone ↦ (_, _, _, start_over ino path init p free gone)
      | inr fresh ↦ (_, _, _, acquire_lock ino path init p free fresh)
    ]

    closing_runs : (ino : ℕ) (p : Ptr) → o p ≡ none → CanRun i s o (closing ino p)
    closing_runs ino p free = elim (Bool-cases (refs_left fs s p == 0)) [
      | inl last ↦ (_, _, _, drop_last ino p free (ground arith))
      | inr more ↦ (_, _, _, drop_ref ino p free (ground arith))
    ]

    -- A thread goes on where the lock that it asks for is free.
    free_runs : (y : Pc) → ((p : Ptr) → asks y ≡ some p → o p ≡ none) → CanRun i s o y
    free_runs idle free = (_, _, _, call 1 [] empty)
    free_runs (starting ino path init) free = entering_runs ino path init
    free_runs (waiting ino path init p) free = waiting_runs ino path init p (free p refl)
    free_runs (filling ino path init p) free = owner_runs _ p refl
    free_runs (filled ino p r) free = owner_runs _ p refl
    free_runs (held ino p) free = (_, _, _, start_release ino p)
    free_runs (closing ino p) free = closing_runs ino p (free p refl)
    free_runs (deleting ino p) free = owner_runs _ p refl
    free_runs (unmapping ino p) free = owner_runs _ p refl

    runs_or_waits :
        (y : Pc) → CanRun i s o y ⊎ (p : Ptr) × (j : ℕ) × (asks y ≡ some p) × (o p ≡ some j)
    runs_or_waits y =
        elim (asks y)
            as (λ x.
              asks y ≡ x
              → CanRun i s o y ⊎ (p : Ptr) × (j : ℕ) × (asks y ≡ some p) × (o p ≡ some j)) [
                | none ↦ λ e. inl (free_runs y (λ p e'. absurd (ground (arith, e, e'))))
                | some p ↦ λ e.
                    elim (o p)
                        as (λ x.
                          o p ≡ x
                          → CanRun i s o y
                            ⊎ (p : Ptr) × (j : ℕ) × (asks y ≡ some p) × (o p ≡ some j)) [
                              | none ↦ λ e'. inl (free_runs y (λ q e''. ground (arith, e, e', e'')))
                              | some j ↦ λ e'. inr (p, j, e, e')
                            ]
                      refl
              ]
          refl

  -- In every state that threads reach, where no call that fills a copy panics, each thread can go on,
  -- or it waits for a lock whose owner is one of the threads, and the owner can go on.
  pub no_deadlock :
      {n : ℕ} {s : Uses W F}
      → Calm
      → n < 2 ^ 64
      → Turns fs n s
      → (i : ℕ)
      → CanRun i s.fs_state s.owner (s.place i)
        ⊎ (p : Ptr) × (j : ℕ) × (asks (s.place i) ≡ some p)
          × (locked (s.place j) ≡ some p)
          × (j < n)
          × CanRun j s.fs_state s.owner (s.place j)
  no_deadlock {n} {s} calm few r i = elim (runs_or_waits calm i s.fs_state s.owner (s.place i)) [
    | inl on ↦ inl on
    | inr (p, j, asked, owned) ↦
        let has = inv.owners j p owned in
        inr
          (p, j, asked, has, within j p has, owner_runs calm j s.fs_state s.owner (s.place j) p has)
  ]
    where
      inv : Inv n (system_of fs s).shared s.owner s.place
      inv = Reach-Inv few (Turns-Reach fs r)

      settled : Settled n (system_of fs s).shared s.place
      settled = Reach-Settled few (Turns-Reach fs r)

      within : (j p : ℕ) → locked (s.place j) ≡ some p → j < n
      within j p has = elim (Bool-cases (ltb j n)) [
        | inl below ↦ ground arith
        | inr above ↦ absurd (ground (arith, settled.beyond j))
      ]
