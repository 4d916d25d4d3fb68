-- ===== src/Fs/Handlers/Directories.antt =====
-- src/fs.rs: `opendir`, `readdir` and `releasedir`.
pub mod Paging
use adbfs_rust.Ops.Listing.{list_dir, Entry}
use adbfs_rust.Fs.Handlers.Entries.{path_of_ino, fresh_fh}
use adbfs_rust.Base.{
  ℕ, zero, suc, ◌+◌, ◌-◌, ◌%◌, ◌^◌, Str, codes, str_eq, ◌==◌, ltb, if◌then◌else◌, Bool, true, false,
  not, ◌&&◌, ◌||◌, List, [], ◌∷◌, ◌++◌, Option, none, some, Result, ok, err, panicked, text_eq,
  nat_eq, length, drop,
}
use adbfs_rust.Base.Exec.{Exec, pure, raise, lift, continue, gets, modify, ◌>>=◌, ◌>>◌}
use adbfs_rust.Base.Map
use adbfs_rust.Errno.{enoent, ebadf, einval}
use adbfs_rust.Ops.Messages.{DeviceError, to_errno, not_found}
use adbfs_rust.Parse.Meta.{FileMeta, SystemTime}
use adbfs_rust.Fs.State.{
  AdbFs, FsState, Fs, OpenFile, DirEntry, FileType, directory, regular_file, Ptr, LocalCopy,
  on_device, device, system, attempt,
}
use adbfs_rust.Fs.Attr.{FileAttr, meta_to_attr, mode_to_filetype, negative_entry}
use adbfs_rust.Fs.Inodes.{get_path, get_or_assign_ino, child_path, rekey_paths}
use adbfs_rust.Fs.Metadata.{fetch_meta, cache_insert, cache_invalidate, cache_invalidate_prefix}
use adbfs_rust.Fs.Copies.{
  CopyInit, pull_contents, empty, load, set_dirty, acquire_copy, release_copy, push_if_dirty,
  push_and_sync,
}

-- The type that a listing reports; an entry without metadata counts as a regular file.
unfoldable pub listed_type : Option FileMeta → FileType
listed_type none = regular_file
listed_type (some meta) = mode_to_filetype meta.mode

-- Directory entries from an offset on, with the offset of the entry behind each.
unfoldable pub numbered : ℕ → List DirEntry → List (ℕ × DirEntry)
numbered i [] = []
numbered i (e ∷ es) = (i + 1, e) ∷ numbered (i + 1) es

-- The loop of `readdir`; `full` is the reply's buffer: whether it refuses an entry behind those that
-- it has taken.
unfoldable pub fill :
    (List (ℕ × DirEntry) → ℕ × DirEntry → Bool)
    → List (ℕ × DirEntry)
    → List (ℕ × DirEntry)
    → List (ℕ × DirEntry)
fill full taken [] = taken
fill full taken (e ∷ es) =
    let more = fill full (taken ++ e ∷ []) es in if full taken e then taken else more

module _ {W F : Type 0} (fs : AdbFs W F) where
  unfoldable pub remember_listed : Str → Option FileMeta → Fs W F (Unit {0})
  remember_listed path none = pure tt
  remember_listed path (some meta) = cache_insert fs path (some meta)

  -- The loop of `opendir`.
  unfoldable pub list_entries : Str → List Entry → Fs W F (List DirEntry)
  unfolding listed_type remember_listed
  list_entries path [] = pure []
  list_entries path ((name, meta) ∷ entries) =
      let rest = list_entries path entries in
      if str_eq name (codes ".") || str_eq name (codes "..") then rest else (do
        let full_path = child_path path name
        ino ← get_or_assign_ino full_path
        remember_listed full_path meta
        listed ← rest
        pure ((ino, listed_type meta, name) ∷ listed))

  unfoldable pub opendir : ℕ → Fs W F ℕ
  unfolding path_of_ino list_entries fresh_fh
  opendir ino = do
    path ← path_of_ino ino
    entries ← device (list_dir fs.ops path)
    listed ← list_entries path entries
    fh ← fresh_fh
    modify (λ s. record s {
      open_dirs =
          Map.insert fh ((ino, directory, codes ".") ∷ (ino, directory, codes "..") ∷ listed)
            s.open_dirs;
    })
    pure fh

  unfoldable pub read_entries :
      (List (ℕ × DirEntry) → ℕ × DirEntry → Bool)
      → ℕ
      → Option (List DirEntry)
      → Fs W F (List (ℕ × DirEntry))
  unfolding numbered fill
  read_entries full offset none = raise ebadf
  read_entries full offset (some entries) =
      pure (fill full [] (numbered offset (drop offset entries)))

  unfoldable pub readdir :
      (List (ℕ × DirEntry) → ℕ × DirEntry → Bool) → ℕ → ℕ → Fs W F (List (ℕ × DirEntry))
  unfolding read_entries
  readdir full fh offset = do dir ← gets (λ s. Map.get fh s.open_dirs); read_entries full offset dir

  unfoldable pub releasedir : ℕ → Fs W F (Unit {0})
  releasedir fh = modify (λ s. record s { open_dirs = Map.remove fh s.open_dirs })
