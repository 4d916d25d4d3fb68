-- ===== src/Fs/Threads/Alone/Acquire.antt =====
-- src/fs.rs: a call of `acquire_copy` when no other thread comes between.
use adbfs_rust.Base.{
  ℕ, Str, Bool, true, false, none, some, Result, ok, err, panicked, ◌≡◌, ◌≢◌, refl, sym, subst,
  arith, ◌==◌, if◌then◌else◌, nat_eq,
}
use adbfs_rust.Base.Exec.{Exec, raise, gets, lift, continue, ◌>>=◌, ◌>>◌}
use adbfs_rust.Base.Map
use adbfs_rust.Base.Map.{get-insert}
use adbfs_rust.Base.Family.{update}
use adbfs_rust.Fs.State.{AdbFs, FsState, Ptr, attempt, new_copy}
use adbfs_rust.Fs.Copies.{
  CopyInit, load, store, remove_if_same, entry_or_insert, populate, abandon, take_reference,
  acquire_rounds, acquire_copy, local_path_for,
}
use adbfs_rust.Fs.Threads.Program.{starting, waiting, filling, filled}
use adbfs_rust.Fs.Threads.Protocol.{Owners}
use adbfs_rust.Fs.Threads.Code.{
  enter, acquire_lock, populate_done, populate_error, take_ref, give_up, mark_unused, remove_entry,
  marked,
}
use adbfs_rust.Fs.Threads.View.{added, joined}
use adbfs_rust.Fs.Threads.Alone.{Runs, done, step, after, To, unlocking}

module _ {W F : Type 0} (fs : AdbFs W F) (i : ℕ) where
  taking :
      (ino : ℕ) (p : Ptr) (o : Owners) (t : FsState W F)
      → To fs i ino (update o p none) (take_reference fs ino p (ok tt) t) t o (filled ino p none)
  unfolding take_reference
  taking ino p o t = step (take_ref ino p _ refl) done

  remove_if_same_ok : (ino : ℕ) (p : Ptr) (t : FsState W F) → (remove_if_same ino p t).0 ≡ ok tt
  unfolding remove_if_same
  remove_if_same_ok ino p t = ground arith

  abandoning :
      (ino : ℕ) (p : Ptr) (e : ℕ) (o : Owners) (t : FsState W F)
      → To fs i ino (update o p none) (abandon fs ino p e t) t o (filled ino p (some e))
  unfolding abandon store
  abandoning ino p e o t = by_count ((load p t).refs == 0) refl
    where
      by_count :
          (b : Bool)
          → ((load p t).refs == 0) ≡ b
          → To fs i ino
              (update o p none)
              ((if b
                  then (do
                    store p (record (load p t) { evicted = true })
                    remove_if_same ino p
                    raise e)
                  else raise e)
                t)
              t
              o
              (filled ino p (some e))
      by_count true unused =
          subst
            (λ r.
              To fs i ino (update o p none)
                (continue r (λ _. raise e) (remove_if_same ino p (marked fs t p)).1) t o
                (filled ino p (some e)))
            (sym (remove_if_same_ok ino p (marked fs t p)))
            (step (mark_unused ino p e (ground arith)) (step (remove_entry ino p) done))
      by_count false used = step (give_up ino p e (ground arith)) done

  filling_runs :
      (ino : ℕ) (path : Str) (init : CopyInit) (p : Ptr) (o : Owners) (t u : FsState W F)
      (q : Result ℕ (Unit {0}))
      → populate fs path p (load p t) init t ≡ (q, u)
      → q ≢ panicked
      → To fs i ino
          (update o p none)
          ((attempt (λ _. (q, u)) >>= take_reference fs ino p) t)
          t
          o
          (filling ino path init p)
  unfolding attempt take_reference
  filling_runs ino path init p o t u (ok _) e calm =
      step (populate_done ino path init p u e) (taking ino p o u)
  filling_runs ino path init p o t u (err b) e calm =
      step (populate_error ino path init p b u e) (abandoning ino p b o u)
  filling_runs ino path init p o t u panicked e calm = absurd (calm refl)

  -- A round on a copy that is not evicted.
  round :
      (ino : ℕ) (path : Str) (init : CopyInit) (p : Ptr) (o : Owners) (t : FsState W F)
      (again : Exec (FsState W F) ℕ Ptr)
      → o p ≡ none
      → (load p t).evicted ≡ false
      → (populate fs path p (load p t) init t).0 ≢ panicked
      → To fs i ino o
          ((if (load p t).evicted then again else (do
            populated ← attempt (populate fs path p (load p t) init)
            take_reference fs ino p populated))
            t)
          t
          o
          (waiting ino path init p)
  unfolding attempt
  round ino path init p o t again free fresh calm =
      subst
        (λ b.
          To fs i ino o
            ((if b then again else (do
              populated ← attempt (populate fs path p (load p t) init)
              take_reference fs ino p populated))
              t)
            t o (waiting ino path init p))
        (sym fresh)
        (step (acquire_lock ino path init p free fresh) (
          unlocking fs i o p free (
            filling_runs ino path init p (update o p (some i)) t
              (populate fs path p (load p t) init t).1 (populate fs path p (load p t) init t).0 refl
              calm)))

  -- A call of `acquire_copy` with no other thread in between, where the locks are free, the copy in the
  -- map is not evicted and filling a copy does not panic, is a run of the steps of one thread, from the
  -- head of the loop to the result of the call.
  pub acquire_copy-Runs :
      (ino : ℕ) (path : Str) (init : CopyInit) (o : Owners) (s : FsState W F)
      → ((p : Ptr) → o p ≡ none)
      → ((p : Ptr) → Map.get ino s.open_copies ≡ some p → (load p s).evicted ≡ false)
      → ((p : Ptr) (t : FsState W F) → (populate fs path p (load p t) init t).0 ≢ panicked)
      → Runs fs i
          (acquire_copy fs ino path init s).1
          o
          (after fs i ino (acquire_copy fs ino path init s).0)
          s
          o
          (starting ino path init)
  unfolding acquire_copy acquire_rounds load
  acquire_copy-Runs ino path init o s free fresh calm =
      elim (Map.get ino s.open_copies)
          as (λ x.
            Map.get ino s.open_copies ≡ x
            → To fs i ino o (acquire_copy fs ino path init s) s o (starting ino path init)) [
              | none ↦ λ e. from s.next_ptr _ (added fs ino s e) (
                  ground (
                    arith,
                    get-insert s.next_ptr s.next_ptr (new_copy (local_path_for fs ino)) s.copies,
                  ))
              | some p ↦ λ e. from p s (joined fs ino p s e) (fresh p e)
            ]
        refl
    where
      from :
          (p : Ptr) (t : FsState W F)
          → entry_or_insert fs ino s ≡ (ok p, t)
          → (load p t).evicted ≡ false
          → To fs i ino o (acquire_copy fs ino path init s) s o (starting ino path init)
      from p t e unmarked =
          subst
            (λ x.
              To fs i ino o
                (continue x.0
                  (λ q. (do
                    c ← gets (load q)
                    if c.evicted then (lift panicked) else (do
                      populated ← attempt (populate fs path q c init)
                      take_reference fs ino q populated)))
                  x.1)
                s o (starting ino path init))
            (sym e)
            (step (enter ino path init p t e)
              (round ino path init p o t (lift panicked) (free p) unmarked (calm p t)))
