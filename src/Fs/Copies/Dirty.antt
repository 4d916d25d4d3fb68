-- ===== src/Fs/Copies/Dirty.antt =====
-- src/fs.rs: the mark on a local copy that has changes the device does not know.
use adbfs_rust.Base.{
  ℕ, Str, Bool, if◌then◌else◌, true, false, Option, none, some, Result, ok, err, panicked, ◌≡◌,
  refl, sym, ap, ◌∙◌, arith, nat_eq, text_eq,
}
use adbfs_rust.Base.Exec.{pure, ◌>>=◌}
use adbfs_rust.Base.Map.{get-insert}
use adbfs_rust.Fs.State.{AdbFs, FsState, LocalCopy, Ptr, attempt}
use adbfs_rust.Fs.Metadata.{cache_invalidate}
use adbfs_rust.Fs.Inodes.{get_path}
use adbfs_rust.Fs.Copies.{
  load, store, set_dirty, push_and_sync, after_push, push_cleared, push_if_dirty,
}

module _ {W F : Type 0} (fs : AdbFs W F) where
  load-set_dirty :
      (ptr : Ptr) (b : Bool) (s : FsState W F) → (load ptr (set_dirty ptr b s).1).dirty ≡ b
  unfolding set_dirty store load
  load-set_dirty ptr b s =
      ground (arith, get-insert ptr ptr (record (load ptr s) { dirty = b }) s.copies)

  after_failed :
      (path : Str) (ptr : Ptr) (r : Result ℕ (Unit {0})) (s t : FsState W F) (e : ℕ)
      → after_push fs path ptr r s ≡ (err e, t)
      → (load ptr t).dirty ≡ true
  unfolding after_push cache_invalidate
  after_failed path ptr (err e') s t e h =
      sym (ap (λ p. (load ptr p.1).dirty) h) ∙ load-set_dirty ptr true s
  after_failed path ptr panicked s t e h = cc
  after_failed path ptr (ok _) s t e h = cc

  attempted_failed :
      (path : Str) (ptr : Ptr) (r : Result ℕ (Unit {0})) (s t u : FsState W F) (e : ℕ)
      → (attempt (λ _. (r, u)) >>= after_push fs path ptr) s ≡ (err e, t)
      → (load ptr t).dirty ≡ true
  unfolding attempt
  attempted_failed path ptr (ok a) s t u e h = after_failed path ptr (ok a) u t e h
  attempted_failed path ptr (err e') s t u e h = after_failed path ptr (err e') u t e h
  attempted_failed path ptr panicked s t u e h = cc

  cleared_failed :
      (ptr : Ptr) (c : LocalCopy) (path : Option Str) (s t : FsState W F) (e : ℕ)
      → push_cleared fs ptr c path s ≡ (err e, t)
      → (load ptr t).dirty ≡ true
  unfolding push_cleared attempt
  cleared_failed ptr c none s t e h =
      sym (ap (λ p. (load ptr p.1).dirty) h) ∙ load-set_dirty ptr true s
  cleared_failed ptr c (some path) s t e h =
      attempted_failed path ptr (push_and_sync fs c.path path s).0 s t
        (push_and_sync fs c.path path s).1 e h

  flushed_failed :
      (b : Bool) (ptr : Ptr) (c : LocalCopy) (path : Option Str) (s t : FsState W F) (e : ℕ)
      → (if b then push_cleared fs ptr c path else pure tt) s ≡ (err e, t)
      → (b ≡ true) × ((load ptr t).dirty ≡ true)
  flushed_failed true ptr c path s t e h = (refl, cleared_failed ptr c path s t e h)
  flushed_failed false ptr c path s t e h = cc

  -- A `flush` of a copy that fails leaves it marked as changed, so that the next one pushes it again;
  -- and only a copy that was marked can fail.
  pub push_if_dirty_failed :
      (ino : ℕ) (ptr : Ptr) (s t : FsState W F) (e : ℕ)
      → push_if_dirty fs ino ptr s ≡ (err e, t)
      → ((load ptr s).dirty ≡ true) × ((load ptr t).dirty ≡ true)
  unfolding push_if_dirty set_dirty store
  push_if_dirty_failed ino ptr s t e h =
      flushed_failed (load ptr s).dirty ptr (load ptr s) (get_path ino (set_dirty ptr false s).1)
        (set_dirty ptr false s).1 t e h

  -- A copy that is not marked is not pushed: the flush succeeds without asking the device.
  pub push_if_dirty_clean :
      (ino : ℕ) (ptr : Ptr) (s : FsState W F)
      → (load ptr s).dirty ≡ false
      → ((push_if_dirty fs ino ptr s).0 ≡ ok tt)
        × ((push_if_dirty fs ino ptr s).1.device ≡ s.device)
  unfolding push_if_dirty set_dirty store load
  push_if_dirty_clean ino ptr s h = ground arith
