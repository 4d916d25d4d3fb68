-- ===== src/Fs/Handlers/Entries.antt =====
-- src/fs.rs: `getattr`, `lookup` and `readlink`, and what the handlers share.
use adbfs_rust.Ops.Listing.{get_metadata, resolve_symlink}
use adbfs_rust.Base.{
  ℕ, ◌+◌, ◌%◌, ◌^◌, Str, ◌==◌, if◌then◌else◌, not, Option, none, some, Result, ok, err, panicked,
  text_eq, nat_eq,
}
use adbfs_rust.Base.Exec.{pure, raise, lift, gets, ◌>>=◌, ◌>>◌}
use adbfs_rust.Errno.{enoent}
use adbfs_rust.Ops.Messages.{DeviceError, to_errno, not_found}
use adbfs_rust.Parse.Meta.{FileMeta}
use adbfs_rust.Fs.State.{AdbFs, Fs, device}
use adbfs_rust.Fs.Attr.{FileAttr, meta_to_attr, negative_entry}
use adbfs_rust.Fs.Inodes.{get_path, get_or_assign_ino, child_path}
use adbfs_rust.Fs.Metadata.{fetch_meta, cache_insert}

-- An entry's timeout, its attributes and generation zero.
abbrev pub EntryReply : Type 0
EntryReply = ℕ × FileAttr

module _ {W F : Type 0} where
  -- A path, or `ENOENT`.
  unfoldable pub or_enoent : Option Str → Fs W F Str
  or_enoent none = raise enoent
  or_enoent (some path) = pure path

  unfoldable pub path_of_ino : ℕ → Fs W F Str
  unfolding or_enoent get_path
  path_of_ino ino = do path ← gets (get_path ino); or_enoent path

  -- `next_fh.fetch_add(1)`
  unfoldable pub fresh_fh : Fs W F ℕ
  fresh_fh s = (ok s.next_fh, record s { next_fh = (s.next_fh + 1) % 2 ^ 64 })

module _ {W F : Type 0} (fs : AdbFs W F) where
  -- The `match` of `getattr`.
  unfoldable pub getattr_reply : ℕ → Result DeviceError FileMeta → Fs W F (ℕ × FileAttr)
  getattr_reply ino (ok meta) = pure (fs.opts.attr_timeout, meta_to_attr fs.opts ino meta)
  getattr_reply ino (err e) = raise (to_errno e)
  getattr_reply ino panicked = lift panicked

  unfoldable pub getattr : ℕ → Fs W F (ℕ × FileAttr)
  unfolding path_of_ino getattr_reply
  getattr ino = do path ← path_of_ino ino; found ← fetch_meta fs path; getattr_reply ino found

  -- The `match` of `lookup`.
  unfoldable pub lookup_reply : Str → Result DeviceError FileMeta → Fs W F EntryReply
  lookup_reply path (ok meta) = do
    ino ← get_or_assign_ino path
    pure (fs.opts.entry_timeout, meta_to_attr fs.opts ino meta)
  lookup_reply path (err (not_found p)) =
      if not (fs.opts.negative_timeout == 0)
      then pure (fs.opts.negative_timeout, negative_entry)
      else raise (to_errno (not_found p))
  lookup_reply path (err e) = raise (to_errno e)
  lookup_reply path panicked = lift panicked

  unfoldable pub lookup : ℕ → Str → Fs W F EntryReply
  unfolding path_of_ino lookup_reply
  lookup parent name = do
    parent_path ← path_of_ino parent
    let full_path = child_path parent_path name
    found ← fetch_meta fs full_path
    lookup_reply full_path found

  -- The end of `readlink`, for the result of `fetch_meta`.
  unfoldable pub readlink_reply : Str → Result DeviceError FileMeta → Fs W F Str
  readlink_reply path (err e) = raise (to_errno e)
  readlink_reply path panicked = lift panicked
  readlink_reply path (ok meta) = device (λ d. (resolve_symlink path meta.raw_line, d))

  unfoldable pub readlink : ℕ → Fs W F Str
  unfolding path_of_ino readlink_reply
  readlink ino = do path ← path_of_ino ino; found ← fetch_meta fs path; readlink_reply path found

  -- What `mkdir`, `mknod` and `setattr` do at their end: fresh metadata, cached and replied.
  unfoldable pub reply_fresh_entry : Str → Fs W F EntryReply
  reply_fresh_entry path = do
    meta ← device (get_metadata fs.ops path)
    ino ← get_or_assign_ino path
    cache_insert fs path (some meta)
    pure (fs.opts.entry_timeout, meta_to_attr fs.opts ino meta)

  -- `access` always allows.
  unfoldable pub access : ℕ → ℕ → Fs W F (Unit {0})
  access ino mask = pure tt
