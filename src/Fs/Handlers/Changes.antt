-- ===== src/Fs/Handlers/Changes.antt =====
-- src/fs.rs: `mkdir`, `unlink`, `rmdir`, `rename`, `setattr` and `mknod`.
pub mod Forgets
pub mod Renames
use adbfs_rust.Ops.Device.{mkdir as device_mkdir, rm, rmdir as device_rmdir, mv}
use adbfs_rust.Ops.Touch.{touch}
use adbfs_rust.Ops.Listing.{get_metadata}
use adbfs_rust.Fs.Handlers.Entries.{path_of_ino, EntryReply, reply_fresh_entry, or_enoent}
use adbfs_rust.Base.{contains}
use adbfs_rust.Base.{
  ℕ, zero, suc, ◌+◌, ◌-◌, ◌%◌, ◌^◌, Str, codes, str_eq, ◌==◌, ltb, if◌then◌else◌, Bool, true, false,
  not, ◌&&◌, ◌||◌, List, [], ◌∷◌, ◌++◌, Option, none, some, Result, ok, err, panicked, text_eq,
  nat_eq, length, drop,
}
use adbfs_rust.Base.Exec.{Exec, pure, raise, lift, continue, gets, modify, ◌>>=◌, ◌>>◌}
use adbfs_rust.Base.Map
use adbfs_rust.Errno.{enoent, ebadf, einval}
use adbfs_rust.Ops.Messages.{DeviceError, to_errno, not_found}
use adbfs_rust.Parse.Meta.{FileMeta, SystemTime}
use adbfs_rust.Fs.State.{
  AdbFs, FsState, Fs, OpenFile, DirEntry, FileType, directory, regular_file, Ptr, LocalCopy,
  on_device, device, system, attempt,
}
use adbfs_rust.Fs.Attr.{FileAttr, meta_to_attr, mode_to_filetype, negative_entry}
use adbfs_rust.Fs.Inodes.{get_path, get_or_assign_ino, child_path, rekey_paths}
use adbfs_rust.Fs.Metadata.{fetch_meta, cache_insert, cache_invalidate, cache_invalidate_prefix}
use adbfs_rust.Fs.Copies.{
  CopyInit, pull_contents, empty, load, set_dirty, acquire_copy, release_copy, push_if_dirty,
  push_and_sync,
}

-- A time that `setattr` is given.
pub data TimeOrNow : Type 0 where
  specific_time : SystemTime → TimeOrNow
  now : TimeOrNow

-- Both paths of a rename, or `ENOENT`.
unfoldable pub both_paths : {W F : Type 0} → Option Str → Option Str → Fs W F (Str × Str)
both_paths (some f) (some t) = pure (f, t)
both_paths _ _ = raise enoent

-- The path of a child of a directory that has one.
unfoldable pub child_of : Option Str → Str → Option Str
child_of none name = none
child_of (some parent) name = some (child_path parent name)

module _ {W F : Type 0} (fs : AdbFs W F) where
  unfoldable pub mkdir : ℕ → Str → Fs W F EntryReply
  unfolding path_of_ino reply_fresh_entry
  mkdir parent name = do
    parent_path ← path_of_ino parent
    let full_path = child_path parent_path name
    device (device_mkdir fs.ops full_path)
    cache_invalidate fs full_path
    reply_fresh_entry fs full_path

  unfoldable pub unlink : ℕ → Str → Fs W F (Unit {0})
  unfolding path_of_ino
  unlink parent name = do
    parent_path ← path_of_ino parent
    let full_path = child_path parent_path name
    device (rm fs.ops full_path)
    cache_invalidate fs full_path

  unfoldable pub rmdir : ℕ → Str → Fs W F (Unit {0})
  unfolding path_of_ino
  rmdir parent name = do
    parent_path ← path_of_ino parent
    let full_path = child_path parent_path name
    device (device_rmdir fs.ops full_path)
    cache_invalidate_prefix fs full_path

  -- The part of `rename` behind the lookup of its paths.
  unfoldable pub rename_paths : Str → Str → Fs W F (Unit {0})
  rename_paths from to = do
    device (mv fs.ops from to)
    rekey_paths from to
    cache_invalidate_prefix fs from
    cache_invalidate_prefix fs to

  unfoldable pub rename : ℕ → Str → ℕ → Str → Fs W F (Unit {0})
  unfolding both_paths child_of rename_paths
  rename parent name newparent newname = do
    parent_path ← gets (get_path parent)
    newparent_path ← gets (get_path newparent)
    (from, to) ← both_paths (child_of parent_path name) (child_of newparent_path newname)
    rename_paths from to

  -- The truncation of `setattr`, on a copy that was acquired.
  unfoldable pub set_length : ℕ → Ptr → ℕ → Fs W F (Unit {0})
  set_length ino copy new_size = do
    c ← gets (load copy)
    file ← system (fs.local.open_write c.path)
    system (fs.local.set_len file new_size)
    set_dirty copy true
    push_if_dirty fs ino copy

  unfoldable pub truncate : ℕ → Str → Option ℕ → Fs W F (Unit {0})
  unfolding set_length
  truncate ino path none = pure tt
  truncate ino path (some new_size) = do
    copy ← acquire_copy fs ino path (if new_size == 0 then empty else pull_contents)
    truncated ← attempt (set_length ino copy new_size)
    release_copy fs ino copy
    lift truncated

  unfoldable pub resolve_time : Option TimeOrNow → Fs W F (Option SystemTime)
  resolve_time none = pure none
  resolve_time (some (specific_time t)) = pure (some t)
  resolve_time (some now) = gets (λ s. some (fs.local.system_time_now s.device.world))

  unfoldable pub set_times : Str → Option SystemTime → Option SystemTime → Fs W F (Unit {0})
  set_times path none none = pure tt
  set_times path at mt = do device (touch fs.ops path at mt); cache_invalidate fs path

  unfoldable pub setattr :
      ℕ → Option ℕ → Option TimeOrNow → Option TimeOrNow → Fs W F (ℕ × FileAttr)
  unfolding path_of_ino truncate resolve_time set_times
  setattr ino size atime mtime = do
    path ← path_of_ino ino
    truncate ino path size
    at ← resolve_time atime
    mt ← resolve_time mtime
    set_times path at mt
    meta ← device (get_metadata fs.ops path)
    cache_insert fs path (some meta)
    pure (fs.opts.attr_timeout, meta_to_attr fs.opts ino meta)

  -- `CString::new`, and `libc::mknod` on the result.
  unfoldable pub make_node : Str → ℕ → ℕ → Fs W F (Unit {0})
  make_node local mode rdev =
      if contains local (0 ∷ []) then raise einval else system (fs.local.mknod local mode rdev)

  -- The scratch directory goes away at its `drop`, and on an early return.
  unfoldable pub with_scratch : {A : Type 0} → Str → Fs W F A → Fs W F A
  with_scratch scratch m s =
      let (r, s') = m s in
      (
        r,
        record s' {
          device = record s'.device { world = fs.local.drop_temp_dir scratch s'.device.world };
        },
      )

  unfoldable pub mknod : ℕ → Str → ℕ → ℕ → Fs W F EntryReply
  unfolding path_of_ino make_node with_scratch reply_fresh_entry
  mknod parent name mode rdev = do
    parent_path ← path_of_ino parent
    let full_path = child_path parent_path name
    scratch ← system (fs.local.new_temp_dir fs.tmp_dir)
    with_scratch scratch (do
      make_node (scratch ++ codes "/node") mode rdev
      push_and_sync fs (scratch ++ codes "/node") full_path
      cache_invalidate fs full_path)
    reply_fresh_entry fs full_path
