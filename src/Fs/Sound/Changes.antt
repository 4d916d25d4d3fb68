-- ===== src/Fs/Sound/Changes.antt =====
-- src/fs.rs: the changes of names that leave the tables of handles and local copies alone.
use adbfs_rust.Base.{
  ℕ, Str, Bool, true, false, codes, if◌then◌else◌, [], ◌∷◌, Option, none, some, Result, contains,
  ◌++◌,
}
use adbfs_rust.Base.Exec.{raise}
use adbfs_rust.Base.Triples.{Outcome, returns, raises, panics, Keeps, bind_lem}
use adbfs_rust.Errno.{enoent, einval}
use adbfs_rust.Ops.Device.{mkdir as device_mkdir, rm, rmdir as device_rmdir, mv}
use adbfs_rust.Ops.Touch.{touch}
use adbfs_rust.Parse.Meta.{SystemTime}
use adbfs_rust.Fs.State.{AdbFs, FsState, Fs, system}
use adbfs_rust.Fs.Inodes.{get_path, child_path}
use adbfs_rust.Fs.Handlers.Changes.{
  mkdir, unlink, rmdir, rename, rename_paths, both_paths, child_of, resolve_time, set_times,
  TimeOrNow, specific_time, now, make_node, with_scratch, mknod,
}
use adbfs_rust.Fs.Sound.Tables.{Tables}
use adbfs_rust.Fs.Sound.Calls.{
  On, done, failed, asked, device-Keeps, system-Keeps, rekey_paths-Keeps, path_of_ino-Keeps,
  cache_invalidate-Keeps, cache_invalidate_prefix-Keeps, push_and_sync-Keeps,
  reply_fresh_entry-Keeps,
}

module _ {W F : Type 0} (fs : AdbFs W F) (I : Tables F → Type 0) where
  pub mkdir-Keeps : (parent : ℕ) (name : Str) → Keeps (On I) (mkdir fs parent name)
  unfolding mkdir
  mkdir-Keeps parent name = bind_lem (path_of_ino-Keeps I parent) (λ parent_path.
      let path = child_path parent_path name in
      bind_lem (device-Keeps I (device_mkdir fs.ops path))
        (λ _. bind_lem (cache_invalidate-Keeps I fs path) (λ _. reply_fresh_entry-Keeps I fs path)))

  pub unlink-Keeps : (parent : ℕ) (name : Str) → Keeps (On I) (unlink fs parent name)
  unfolding unlink
  unlink-Keeps parent name = bind_lem (path_of_ino-Keeps I parent) (λ parent_path.
      let path = child_path parent_path name in
      bind_lem (device-Keeps I (rm fs.ops path)) (λ _. cache_invalidate-Keeps I fs path))

  pub rmdir-Keeps : (parent : ℕ) (name : Str) → Keeps (On I) (rmdir fs parent name)
  unfolding rmdir
  rmdir-Keeps parent name = bind_lem (path_of_ino-Keeps I parent) (λ parent_path.
      let path = child_path parent_path name in
      bind_lem (device-Keeps I (device_rmdir fs.ops path))
        (λ _. cache_invalidate_prefix-Keeps I fs path))

  both_paths-Keeps : (from to : Option Str) → Keeps {E = ℕ} (On {W = W} I) (both_paths from to)
  unfolding both_paths
  both_paths-Keeps none to = failed I enoent
  both_paths-Keeps (some f) none = failed I enoent
  both_paths-Keeps (some f) (some t) = done I (f, t)

  rename_paths-Keeps : (from to : Str) → Keeps (On I) (rename_paths fs from to)
  unfolding rename_paths
  rename_paths-Keeps from to = bind_lem (device-Keeps I (mv fs.ops from to)) (λ _.
      bind_lem (rekey_paths-Keeps I from to) (λ _.
        bind_lem (cache_invalidate_prefix-Keeps I fs from)
          (λ _. cache_invalidate_prefix-Keeps I fs to)))

  pub rename-Keeps :
      (parent : ℕ) (name : Str) (newparent : ℕ) (newname : Str)
      → Keeps (On I) (rename fs parent name newparent newname)
  unfolding rename
  rename-Keeps parent name newparent newname = bind_lem (asked I (get_path parent)) (λ parent_path.
      bind_lem (asked I (get_path newparent)) (λ newparent_path.
        bind_lem (both_paths-Keeps (child_of parent_path name) (child_of newparent_path newname))
          (λ paths. rename_paths-Keeps paths.0 paths.1)))

  pub resolve_time-Keeps : (t : Option TimeOrNow) → Keeps (On I) (resolve_time fs t)
  unfolding resolve_time
  resolve_time-Keeps none = done I none
  resolve_time-Keeps (some (specific_time t)) = done I (some t)
  resolve_time-Keeps (some now) = asked I _

  pub set_times-Keeps :
      (path : Str) (at mt : Option SystemTime) → Keeps (On I) (set_times fs path at mt)
  unfolding set_times
  set_times-Keeps path none none = done I tt
  set_times-Keeps path none (some m) =
      bind_lem (device-Keeps I (touch fs.ops path none (some m)))
        (λ _. cache_invalidate-Keeps I fs path)
  set_times-Keeps path (some a) none =
      bind_lem (device-Keeps I (touch fs.ops path (some a) none))
        (λ _. cache_invalidate-Keeps I fs path)
  set_times-Keeps path (some a) (some m) =
      bind_lem (device-Keeps I (touch fs.ops path (some a) (some m)))
        (λ _. cache_invalidate-Keeps I fs path)

  make_node-Keeps : (local : Str) (mode rdev : ℕ) → Keeps (On I) (make_node fs local mode rdev)
  unfolding make_node
  make_node-Keeps local mode rdev = checked (contains local (0 ∷ []))
    where
      checked :
          (b : Bool)
          → Keeps (On I) (if b then raise einval else system (fs.local.mknod local mode rdev))
      checked true = failed I einval
      checked false = system-Keeps I (fs.local.mknod local mode rdev)

  with_scratch-Keeps :
      {A : Type 0} (scratch : Str) (m : Fs W F A)
      → Keeps (On I) m
      → Keeps (On I) (with_scratch fs scratch m)
  unfolding with_scratch
  with_scratch-Keeps {A} scratch m h = record { run = λ s p. cleaned (m s).0 (m s).1 (h.run s p) }
    where
      cleaned :
          (r : Result ℕ A) (t : FsState W F)
          → Outcome (λ _. (On I)) (On I) r t
          → Outcome
              (λ _. (On I))
              (On I)
              r
              (record t {
                device = record t.device { world = fs.local.drop_temp_dir scratch t.device.world };
              })
      cleaned _ t (returns q) = returns q
      cleaned _ t (raises q) = raises q
      cleaned _ t panics = panics

  pub mknod-Keeps :
      (parent : ℕ) (name : Str) (mode rdev : ℕ) → Keeps (On I) (mknod fs parent name mode rdev)
  unfolding mknod
  mknod-Keeps parent name mode rdev = bind_lem (path_of_ino-Keeps I parent) (λ parent_path.
      let path = child_path parent_path name in
      bind_lem (system-Keeps I (fs.local.new_temp_dir fs.tmp_dir)) (λ scratch.
        bind_lem
          (with_scratch-Keeps scratch _ (
            bind_lem (make_node-Keeps (scratch ++ codes "/node") mode rdev) (λ _.
              bind_lem (push_and_sync-Keeps I fs (scratch ++ codes "/node") path)
                (λ _. cache_invalidate-Keeps I fs path))))
          (λ _. reply_fresh_entry-Keeps I fs path)))
