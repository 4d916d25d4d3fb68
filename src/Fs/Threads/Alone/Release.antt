-- ===== src/Fs/Threads/Alone/Release.antt =====
-- src/fs.rs: a call of `release_copy` when no other thread comes between.
use adbfs_rust.Base.{
  ℕ, Str, Bool, true, false, none, some, Result, ok, err, panicked, ◌≡◌, ◌≢◌, refl, ap, subst, ◌∙◌,
  arith, ◌==◌, if◌then◌else◌, nat_eq,
}
use adbfs_rust.Base.Exec.{◌>>=◌, ◌>>◌}
use adbfs_rust.Base.Map.{}
use adbfs_rust.Base.Family.{update}
use adbfs_rust.Fs.State.{AdbFs, FsState, Ptr, attempt, system}
use adbfs_rust.Fs.Copies.{load, store, remove_if_same, release_copy}
use adbfs_rust.Fs.Threads.Program.{idle, closing, deleting, unmapping}
use adbfs_rust.Fs.Threads.Protocol.{Owners}
use adbfs_rust.Fs.Threads.Code.{
  Run, drop_ref, drop_last, remove_local, remove_entry, refs_left, dropped,
}
use adbfs_rust.Fs.Threads.View.{load-store}
use adbfs_rust.Fs.Threads.Alone.{Runs, done, step, unlocking}

module _ {W F : Type 0} (fs : AdbFs W F) (i : ℕ) where
  unmapping_runs :
      (ino : ℕ) (p : Ptr) (o : Owners) (s t : FsState W F) (r : Result ℕ (Unit {0}))
      → r ≢ panicked
      → Runs fs i
          ((attempt (λ _. (r, t)) >>= λ _. remove_if_same ino p) s).1
          (update o p none)
          idle
          t
          o
          (unmapping ino p)
  unfolding attempt
  unmapping_runs ino p o s t (ok _) calm = step (remove_entry ino p) done
  unmapping_runs ino p o s t (err e) calm = step (remove_entry ino p) done
  unmapping_runs ino p o s t panicked calm = absurd (calm refl)

  -- The local file is deleted, whether that fails or not, and the copy leaves the map.
  deleting_runs :
      (ino : ℕ) (p : Ptr) (o : Owners) (path : Str) (t : FsState W F)
      → (load p t).path ≡ path
      → ((w : W) → (fs.local.remove_file path w).0 ≢ panicked)
      → Runs fs i
          ((attempt (system (fs.local.remove_file path)) >>= λ _. remove_if_same ino p) t).1
          (update o p none)
          idle
          t
          o
          (deleting ino p)
  unfolding attempt system
  deleting_runs ino p o path t same calm =
      let q = system (fs.local.remove_file path) t in
      step
        (subst
          (λ x.
            Run fs i t o (deleting ino p) (system (fs.local.remove_file x) t).1 o (unmapping ino p))
          same (remove_local ino p))
        (unmapping_runs ino p o t q.1 q.0 (calm t.device.world))

  -- A call of `release_copy` with no other thread in between, where the locks are free and deleting the
  -- local file does not panic, is a run of the steps of one thread that ends without a reference.
  pub release_copy-Runs :
      (ino : ℕ) (p : Ptr) (o : Owners) (s : FsState W F)
      → ((q : Ptr) → o q ≡ none)
      → ((w : W) → (fs.local.remove_file (load p s).path w).0 ≢ panicked)
      → Runs fs i (release_copy fs ino p s).1 o idle s o (closing ino p)
  unfolding release_copy store
  release_copy-Runs ino p o s free calm = by_count (refs_left fs s p == 0) refl
    where
      by_count :
          (b : Bool)
          → (refs_left fs s p == 0) ≡ b
          → Runs fs i
              ((if b
                  then (do
                    store p (record (load p s) { refs = 0; evicted = true })
                    removed ← attempt (system (fs.local.remove_file (load p s).path))
                    remove_if_same ino p)
                  else store p (record (load p s) { refs = refs_left fs s p }))
                s).1
              o
              idle
              s
              o
              (closing ino p)
      by_count true last = step (drop_last ino p (free p) (ground arith)) (
          unlocking fs i o p (free p) (
            deleting_runs ino p (update o p (some i)) (load p s).path (dropped fs s p)
              (ap (λ c. c.path) (load-store p p _ s) ∙ ground arith) calm))
      by_count false more = step (drop_ref ino p (free p) (ground arith)) done
