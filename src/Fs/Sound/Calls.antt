-- ===== src/Fs/Sound/Calls.antt =====
-- src/fs.rs: the calls that leave the tables of handles and local copies alone.
use adbfs_rust.Base.{ℕ, Str, Option, none, some, Result, ok, err, panicked}
use adbfs_rust.Base.Exec.{Exec, pure, raise, lift, gets}
use adbfs_rust.Base.Triples.{
  Outcome, returns, panics, Triple, Keeps, keeps, bind_lem, pure_lem, raise_lem, returned, raised,
}
use adbfs_rust.Ops.Device.{OpsState, push, sync_device}
use adbfs_rust.Ops.Messages.{DeviceError, not_found}
use adbfs_rust.Ops.Listing.{get_metadata}
use adbfs_rust.Parse.Meta.{FileMeta}
use adbfs_rust.Fs.State.{AdbFs, FsState, Fs, on_device, device, system, attempt}
use adbfs_rust.Fs.Inodes.{get_path, get_or_assign_ino, rekey_paths}
use adbfs_rust.Fs.Metadata.{
  fetch_meta, fetch_from, remember, cache_get, cache_insert, cache_invalidate,
  cache_invalidate_prefix,
}
use adbfs_rust.Fs.Handlers.Entries.{path_of_ino, or_enoent, reply_fresh_entry}
use adbfs_rust.Fs.Copies.{push_and_sync}
use adbfs_rust.Fs.Sound.Tables.{Tables, tables}

module _ {W F A : Type 0} where
  attempted :
      {Q : A → FsState W F → Type 0} {R T : FsState W F → Type 0} (r : Result ℕ A) (s : FsState W F)
      → Outcome Q R r s
      → Outcome {E = ℕ}
          (λ r. Outcome Q R r)
          T
          (attempt (λ _. (r, s)) s).0
          (attempt (λ _. (r, s)) s).1
  unfolding attempt
  attempted (ok a) s o = returns o
  attempted (err e) s o = returns o
  attempted panicked s o = panics

  pub attempt_lem :
      {P R T : FsState W F → Type 0} {Q : A → FsState W F → Type 0} {m : Fs W F A}
      → Triple P m Q R
      → Triple P (attempt m) (λ r. Outcome Q R r) T
  unfolding attempt
  attempt_lem {m} h = record { run = λ s p. attempted (m s).0 (m s).1 (h.run s p) }

  attempted_any :
      {P T : FsState W F → Type 0} (r : Result ℕ A) (s : FsState W F)
      → Outcome (λ _. P) P r s
      → Outcome {E = ℕ} (λ _. P) T (attempt (λ _. (r, s)) s).0 (attempt (λ _. (r, s)) s).1
  unfolding attempt
  attempted_any (ok a) s o = returns (returned o)
  attempted_any (err e) s o = returns (raised o)
  attempted_any panicked s o = panics

  pub attempt_any :
      {P T : FsState W F → Type 0} {m : Fs W F A} → Keeps P m → Triple P (attempt m) (λ _. P) T
  unfolding attempt
  attempt_any {m} h = record { run = λ s p. attempted_any (m s).0 (m s).1 (h.run s p) }

  pub lift_lem :
      {P R : FsState W F → Type 0} {Q : A → FsState W F → Type 0} (r : Result ℕ A)
      → ((s : FsState W F) → P s → Outcome Q R r s)
      → Triple P (lift r) Q R
  lift_lem r h = record { run = h }

module _ {W F : Type 0} (I : Tables F → Type 0) where
  abbrev pub On : FsState W F → Type 0
  On s = I (tables s)

  pub done : {A : Type 0} (a : A) → Keeps {E = ℕ} On (pure a)
  done a = pure_lem a (λ s h. h)

  pub failed : {A : Type 0} (e : ℕ) → Keeps {A = A} On (raise e)
  failed e = raise_lem e (λ s h. h)

  pub asked : {A : Type 0} (f : FsState W F → A) → Keeps {E = ℕ} On (gets f)
  asked f = keeps (gets f) (λ s h. h)

  pub device-Keeps : {A : Type 0} (m : Exec (OpsState W) DeviceError A) → Keeps On (device m)
  unfolding device
  device-Keeps m = keeps (device m) (λ s h. h)

  pub system-Keeps : {A : Type 0} (m : Exec W ℕ A) → Keeps On (system m)
  unfolding system
  system-Keeps m = keeps (system m) (λ s h. h)

  pub on_device-Keeps : {A : Type 0} (m : Exec (OpsState W) DeviceError A) → Keeps On (on_device m)
  unfolding on_device
  on_device-Keeps m = record {
    run = λ s h. answered (m s.device).0 (record s { device = (m s.device).1 }) h;
  }
    where
      answered :
          {A : Type 0} (r : Result DeviceError A) (t : FsState W F)
          → On t
          → Outcome {E = ℕ}
              (λ _. On)
              On
              (elim r as (λ _. Result ℕ (Result DeviceError A) × FsState W F) [
                | ok a ↦ (ok (ok a), t)
                | err e ↦ (ok (err e), t)
                | panicked ↦ (panicked, t)
              ]).0
              (elim r as (λ _. Result ℕ (Result DeviceError A) × FsState W F) [
                | ok a ↦ (ok (ok a), t)
                | err e ↦ (ok (err e), t)
                | panicked ↦ (panicked, t)
              ]).1
      answered (ok a) t h = returns h
      answered (err e) t h = returns h
      answered panicked t h = panics

  pub get_or_assign_ino-Keeps : (path : Str) → Keeps On (get_or_assign_ino path)
  unfolding get_or_assign_ino
  get_or_assign_ino-Keeps path = keeps (get_or_assign_ino path) (λ s h. h)

  pub rekey_paths-Keeps : (from to : Str) → Keeps On (rekey_paths from to)
  unfolding rekey_paths
  rekey_paths-Keeps from to = keeps (rekey_paths from to) (λ s h. h)

  or_enoent-Keeps : (path : Option Str) → Keeps On (or_enoent path)
  unfolding or_enoent
  or_enoent-Keeps none = raise_lem _ (λ s h. h)
  or_enoent-Keeps (some path) = pure_lem path (λ s h. h)

  pub path_of_ino-Keeps : (ino : ℕ) → Keeps On (path_of_ino ino)
  unfolding path_of_ino
  path_of_ino-Keeps ino =
      bind_lem {m = gets (get_path ino)} (keeps (gets (get_path ino)) (λ s h. h)) or_enoent-Keeps

  module _ (fs : AdbFs W F) where
    pub cache_insert-Keeps :
        (path : Str) (meta : Option FileMeta) → Keeps On (cache_insert fs path meta)
    unfolding cache_insert
    cache_insert-Keeps path meta = keeps (cache_insert fs path meta) (λ s h. h)

    pub cache_invalidate-Keeps : (path : Str) → Keeps On (cache_invalidate fs path)
    unfolding cache_invalidate
    cache_invalidate-Keeps path = keeps (cache_invalidate fs path) (λ s h. h)

    pub cache_invalidate_prefix-Keeps : (path : Str) → Keeps On (cache_invalidate_prefix fs path)
    unfolding cache_invalidate_prefix
    cache_invalidate_prefix-Keeps path = keeps (cache_invalidate_prefix fs path) (λ s h. h)

    cache_get-Keeps : (path : Str) → Keeps On (cache_get fs path)
    unfolding cache_get
    cache_get-Keeps path = keeps (cache_get fs path) (λ s h. h)

    remember-Keeps : (path : Str) (r : Result DeviceError FileMeta) → Keeps On (remember fs path r)
    unfolding remember
    remember-Keeps path (ok meta) =
        bind_lem (cache_insert-Keeps path (some meta)) (λ _. pure_lem (ok meta) (λ s h. h))
    remember-Keeps path (err (not_found p)) =
        bind_lem (cache_insert-Keeps path none) (λ _. pure_lem (err (not_found p)) (λ s h. h))
    remember-Keeps path (err _) = pure_lem _ (λ s h. h)
    remember-Keeps path panicked = pure_lem _ (λ s h. h)

    fetch_from-Keeps :
        (path : Str) (found : Option (Option FileMeta)) → Keeps On (fetch_from fs path found)
    unfolding fetch_from
    fetch_from-Keeps path (some (some meta)) = pure_lem _ (λ s h. h)
    fetch_from-Keeps path (some none) = pure_lem _ (λ s h. h)
    fetch_from-Keeps path none =
        bind_lem (on_device-Keeps (get_metadata fs.ops path)) (remember-Keeps path)

    pub fetch_meta-Keeps : (path : Str) → Keeps On (fetch_meta fs path)
    unfolding fetch_meta
    fetch_meta-Keeps path = bind_lem (cache_get-Keeps path) (fetch_from-Keeps path)

    pub push_and_sync-Keeps : (local path : Str) → Keeps On (push_and_sync fs local path)
    unfolding push_and_sync
    push_and_sync-Keeps local path =
        bind_lem (device-Keeps (push fs.ops local path)) (λ _. device-Keeps (sync_device fs.ops))

    pub reply_fresh_entry-Keeps : (path : Str) → Keeps On (reply_fresh_entry fs path)
    unfolding reply_fresh_entry
    reply_fresh_entry-Keeps path = bind_lem (device-Keeps _) (λ meta.
        bind_lem (get_or_assign_ino-Keeps path)
          (λ ino. bind_lem (cache_insert-Keeps path (some meta)) (λ _. pure_lem _ (λ s h. h))))
