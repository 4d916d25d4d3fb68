-- ===== src/Fs/Handlers/Files.antt =====
-- src/fs.rs: `open`, `read`, `write`, `flush`, `release` and `create`.
pub mod Last
use adbfs_rust.Ops.Listing.{get_metadata}
use adbfs_rust.Fs.Handlers.Entries.{path_of_ino, fresh_fh}
use adbfs_rust.Base.{
  ℕ, ◌%◌, ◌^◌, Str, Bool, true, List, Option, none, some, Result, ok, err, panicked, text_eq,
  nat_eq,
}
use adbfs_rust.Base.Exec.{pure, raise, lift, gets, modify, ◌>>=◌, ◌>>◌}
use adbfs_rust.Base.Map
use adbfs_rust.Errno.{ebadf}
use adbfs_rust.Parse.Meta.{FileMeta}
use adbfs_rust.Fs.State.{AdbFs, Fs, OpenFile, Ptr, device, system, attempt}
use adbfs_rust.Fs.Attr.{FileAttr, meta_to_attr}
use adbfs_rust.Fs.Inodes.{get_or_assign_ino, child_path}
use adbfs_rust.Fs.Metadata.{cache_insert}
use adbfs_rust.Fs.Copies.{
  pull_contents, empty, load, set_dirty, acquire_copy, release_copy, push_if_dirty,
}

-- What `open_files` holds for a handle, or `EBADF`.
unfoldable pub or_ebadf : {W F : Type 0} → Option (OpenFile F) → Fs W F (OpenFile F)
or_ebadf none = raise ebadf
or_ebadf (some f) = pure f

module _ {W F : Type 0} where
  unfoldable pub file_of_fh : ℕ → Fs W F (OpenFile F)
  unfolding or_ebadf
  file_of_fh fh = do found ← gets (λ s. Map.get fh s.open_files); or_ebadf found

  -- A new handle on the copy.
  unfoldable pub add_handle : ℕ → Ptr → F → Fs W F ℕ
  unfolding fresh_fh
  add_handle ino copy file = do
    fh ← fresh_fh
    modify (λ s. record s {
      open_files = Map.insert fh (record { ino = ino; copy = copy; file = file }) s.open_files;
    })
    pure fh

-- The flags of `FopenFlags` that the code may set.
pub record FopenFlags : Type 0 where
  pub direct_io : Bool
  pub keep_cache : Bool

module _ {W F : Type 0} (fs : AdbFs W F) where
  unfoldable pub file_open_flags : FopenFlags
  file_open_flags = record { direct_io = fs.opts.direct_io; keep_cache = fs.opts.kernel_cache }

  -- The reference is given back where the handler fails after it took it.
  unfoldable pub or_release : {A : Type 0} → ℕ → Ptr → Result ℕ A → Fs W F A
  or_release ino copy (ok a) = pure a
  or_release ino copy (err e) = do release_copy fs ino copy; raise e
  or_release ino copy panicked = lift panicked

  unfoldable pub open_file : ℕ → Fs W F (ℕ × FopenFlags)
  unfolding path_of_ino or_release add_handle file_open_flags
  open_file ino = do
    path ← path_of_ino ino
    copy ← acquire_copy fs ino path pull_contents
    c ← gets (load copy)
    opened ← attempt (system (fs.local.open_read_write c.path))
    file ← or_release ino copy opened
    fh ← add_handle ino copy file
    pure (fh, file_open_flags)

  -- At most `size` bytes from the offset on.
  unfoldable pub read : ℕ → ℕ → ℕ → Fs W F (List ℕ)
  unfolding file_of_fh
  read fh offset size = do
    f ← file_of_fh fh
    system (fs.local.seek f.file offset)
    system (fs.local.read f.file size)

  -- The number of bytes written, as a `u32`.
  unfoldable pub write : ℕ → ℕ → List ℕ → Fs W F ℕ
  unfolding file_of_fh
  write fh offset bytes = do
    f ← file_of_fh fh
    system (fs.local.seek f.file offset)
    n ← system (fs.local.write f.file bytes)
    set_dirty f.copy true
    pure (n % 2 ^ 32)

  unfoldable pub flush : ℕ → Fs W F (Unit {0})
  unfolding file_of_fh
  flush fh = do f ← file_of_fh fh; push_if_dirty fs f.ino f.copy

  unfoldable pub release_found : ℕ → Option (OpenFile F) → Fs W F (Unit {0})
  release_found fh none = pure tt
  release_found fh (some f) = do
    modify (λ s. record s { open_files = Map.remove fh s.open_files })
    release_copy fs f.ino f.copy

  unfoldable pub release : ℕ → Fs W F (Unit {0})
  unfolding release_found
  release fh = do found ← gets (λ s. Map.get fh s.open_files); release_found fh found

  -- The chain of `create` between the acquisition and the reply.
  unfoldable pub create_on_device : ℕ → Str → Ptr → Fs W F (F × FileMeta)
  create_on_device ino path copy = do
    c ← gets (load copy)
    file ← system (fs.local.open_read_write c.path)
    push_if_dirty fs ino copy
    meta ← device (get_metadata fs.ops path)
    pure (file, meta)

  unfoldable pub create : ℕ → Str → Fs W F (ℕ × FileAttr × ℕ × FopenFlags)
  unfolding path_of_ino create_on_device or_release add_handle file_open_flags
  create parent name = do
    parent_path ← path_of_ino parent
    let full_path = child_path parent_path name
    ino ← get_or_assign_ino full_path
    copy ← acquire_copy fs ino full_path empty
    opened ← attempt (create_on_device ino full_path copy)
    (file, meta) ← or_release ino copy opened
    cache_insert fs full_path (some meta)
    fh ← add_handle ino copy file
    pure (fs.opts.entry_timeout, meta_to_attr fs.opts ino meta, fh, file_open_flags)
