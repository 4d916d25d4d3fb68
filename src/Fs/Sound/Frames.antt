-- ===== src/Fs/Sound/Frames.antt =====
-- src/fs.rs: the handlers that leave the tables of handles and local copies alone.
use adbfs_rust.Base.{
  ℕ, Str, Bool, true, false, ◌||◌, str_eq, codes, if◌then◌else◌, List, [], ◌∷◌, Option, none, some,
  Result, ok, err, panicked,
}
use adbfs_rust.Base.Exec.{pure, raise}
use adbfs_rust.Base.Triples.{panics, Keeps, keeps, bind_lem, pure_lem}
use adbfs_rust.Errno.{ebadf}
use adbfs_rust.Ops.Messages.{DeviceError, not_found, to_errno}
use adbfs_rust.Ops.Listing.{Entry, resolve_symlink}
use adbfs_rust.Parse.Meta.{FileMeta}
use adbfs_rust.Fs.State.{AdbFs, Fs, DirEntry, OpenFile}
use adbfs_rust.Fs.Inodes.{child_path}
use adbfs_rust.Fs.Handlers.Entries.{
  getattr, getattr_reply, lookup, lookup_reply, readlink, readlink_reply,
}
use adbfs_rust.Fs.Handlers.Directories.{
  remember_listed, list_entries, readdir, read_entries, releasedir,
}
use adbfs_rust.Fs.Handlers.Files.{file_of_fh, or_ebadf, read}
use adbfs_rust.Fs.Sound.Tables.{Tables}
use adbfs_rust.Fs.Sound.Calls.{
  On, done, failed, asked, lift_lem, device-Keeps, system-Keeps, get_or_assign_ino-Keeps,
  path_of_ino-Keeps, cache_insert-Keeps, fetch_meta-Keeps,
}

module _ {W F : Type 0} (fs : AdbFs W F) (I : Tables F → Type 0) where
  getattr_reply-Keeps :
      (ino : ℕ) (r : Result DeviceError FileMeta) → Keeps (On I) (getattr_reply fs ino r)
  unfolding getattr_reply
  getattr_reply-Keeps ino (ok meta) = done I _
  getattr_reply-Keeps ino (err e) = failed I (to_errno e)
  getattr_reply-Keeps ino panicked = lift_lem panicked (λ s h. panics)

  pub getattr-Keeps : (ino : ℕ) → Keeps (On I) (getattr fs ino)
  unfolding getattr
  getattr-Keeps ino =
      bind_lem (path_of_ino-Keeps I ino)
        (λ path. bind_lem (fetch_meta-Keeps I fs path) (getattr_reply-Keeps ino))

  negative-Keeps :
      {A : Type 0} (b : Bool) (a : A) (e : ℕ) → Keeps (On {W = W} I) (if b then pure a else raise e)
  negative-Keeps true a e = done I a
  negative-Keeps false a e = failed I e

  lookup_reply-Keeps :
      (path : Str) (r : Result DeviceError FileMeta) → Keeps (On I) (lookup_reply fs path r)
  unfolding lookup_reply
  lookup_reply-Keeps path (ok meta) =
      bind_lem (get_or_assign_ino-Keeps I path) (λ ino. pure_lem _ (λ s h. h))
  lookup_reply-Keeps path (err (not_found p)) = negative-Keeps _ _ _
  lookup_reply-Keeps path (err e) = failed I (to_errno e)
  lookup_reply-Keeps path panicked = lift_lem panicked (λ s h. panics)

  pub lookup-Keeps : (parent : ℕ) (name : Str) → Keeps (On I) (lookup fs parent name)
  unfolding lookup
  lookup-Keeps parent name = bind_lem (path_of_ino-Keeps I parent) (λ parent_path.
      bind_lem (fetch_meta-Keeps I fs (child_path parent_path name))
        (lookup_reply-Keeps (child_path parent_path name)))

  readlink_reply-Keeps :
      (path : Str) (r : Result DeviceError FileMeta) → Keeps (On I) (readlink_reply fs path r)
  unfolding readlink_reply
  readlink_reply-Keeps path (ok meta) =
      device-Keeps I (λ d. (resolve_symlink path meta.raw_line, d))
  readlink_reply-Keeps path (err e) = failed I (to_errno e)
  readlink_reply-Keeps path panicked = lift_lem panicked (λ s h. panics)

  pub readlink-Keeps : (ino : ℕ) → Keeps (On I) (readlink fs ino)
  unfolding readlink
  readlink-Keeps ino =
      bind_lem (path_of_ino-Keeps I ino)
        (λ path. bind_lem (fetch_meta-Keeps I fs path) (readlink_reply-Keeps path))

  remember_listed-Keeps :
      (path : Str) (meta : Option FileMeta) → Keeps (On I) (remember_listed fs path meta)
  unfolding remember_listed
  remember_listed-Keeps path none = done I tt
  remember_listed-Keeps path (some meta) = cache_insert-Keeps I fs path (some meta)

  listed-Keeps :
      (b : Bool) (m n : Fs W F (List DirEntry))
      → Keeps (On I) m
      → Keeps (On I) n
      → Keeps (On I) (if b then m else n)
  listed-Keeps true m n hm hn = hm
  listed-Keeps false m n hm hn = hn

  pub list_entries-Keeps :
      (path : Str) (entries : List Entry) → Keeps (On I) (list_entries fs path entries)
  unfolding list_entries
  list_entries-Keeps path [] = done I []
  list_entries-Keeps path ((name, meta) ∷ entries) =
      listed-Keeps (str_eq name (codes ".") || str_eq name (codes "..")) _ _
        (list_entries-Keeps path entries)
        (bind_lem (get_or_assign_ino-Keeps I (child_path path name)) (λ ino.
          bind_lem (remember_listed-Keeps (child_path path name) meta)
            (λ _. bind_lem (list_entries-Keeps path entries) (λ listed. pure_lem _ (λ s h. h)))))

  read_entries-Keeps :
      (full : List (ℕ × DirEntry) → ℕ × DirEntry → Bool) (offset : ℕ) (dir : Option (List DirEntry))
      → Keeps (On I) (read_entries fs full offset dir)
  unfolding read_entries
  read_entries-Keeps full offset none = failed I ebadf
  read_entries-Keeps full offset (some entries) = done I _

  pub readdir-Keeps :
      (full : List (ℕ × DirEntry) → ℕ × DirEntry → Bool) (fh offset : ℕ)
      → Keeps (On I) (readdir fs full fh offset)
  unfolding readdir
  readdir-Keeps full fh offset = bind_lem (asked I _) (read_entries-Keeps full offset)

  pub releasedir-Keeps : (fh : ℕ) → Keeps (On I) (releasedir fs fh)
  unfolding releasedir
  releasedir-Keeps fh = keeps (releasedir fs fh) (λ s h. h)

  or_ebadf-Keeps : (found : Option (OpenFile F)) → Keeps {E = ℕ} (On {W = W} I) (or_ebadf found)
  unfolding or_ebadf
  or_ebadf-Keeps none = failed I ebadf
  or_ebadf-Keeps (some f) = done I f

  pub file_of_fh-Keeps : (fh : ℕ) → Keeps (On {W = W} I) (file_of_fh fh)
  unfolding file_of_fh
  file_of_fh-Keeps fh = bind_lem (asked I _) or_ebadf-Keeps

  pub read-Keeps : (fh offset size : ℕ) → Keeps (On I) (read fs fh offset size)
  unfolding read
  read-Keeps fh offset size = bind_lem (file_of_fh-Keeps fh) (λ f.
      bind_lem (system-Keeps I (fs.local.seek f.file offset))
        (λ _. system-Keeps I (fs.local.read f.file size)))
