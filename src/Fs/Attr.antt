-- ===== src/Fs/Attr.antt =====
-- src/fs.rs: the attributes that replies carry.
pub mod Bounds
use adbfs_rust.Base.{ℕ, ◌+◌, ◌/◌, ◌%◌, ◌^◌, ◌==◌, if◌then◌else◌, bit_and, pos}
use adbfs_rust.MountOpts.{FsOptions, apply_ownership}
use adbfs_rust.Parse.Meta.{FileMeta, SystemTime}
use adbfs_rust.Parse.Mode.{s_ifmt, s_ifdir, s_iflnk, s_ifblk, s_ifchr, s_ififo, s_ifsock}
use adbfs_rust.Fs.State.{
  FileType, directory, symlink, block_device, char_device, named_pipe, socket, regular_file,
}

pub record FileAttr : Type 0 where
  pub ino : ℕ
  pub size : ℕ
  pub blocks : ℕ
  pub atime : SystemTime
  pub mtime : SystemTime
  pub ctime : SystemTime
  pub crtime : SystemTime
  pub kind : FileType
  pub perm : ℕ
  pub nlink : ℕ
  pub uid : ℕ
  pub gid : ℕ
  pub rdev : ℕ
  pub blksize : ℕ
  pub flags : ℕ

abbrev pub unix_epoch : SystemTime
unix_epoch = record { secs = pos 0; nanos = 0 }

unfoldable pub mode_to_filetype : ℕ → FileType
mode_to_filetype mode =
    let ft = bit_and mode s_ifmt in
    if ft == s_ifdir
    then directory
    else if ft == s_iflnk
    then symlink
    else if ft == s_ifblk
    then block_device
    else if ft == s_ifchr
    then char_device
    else if ft == s_ififo
    then named_pipe
    else if ft == s_ifsock
    then socket
    else regular_file

unfoldable pub meta_to_attr : FsOptions → ℕ → FileMeta → FileAttr
unfolding mode_to_filetype
meta_to_attr opts ino meta =
    let (mode, uid, gid) = apply_ownership opts meta.mode meta.uid meta.gid in
    record {
      ino = ino;
      size = meta.size;
      blocks = (meta.size + 511) / 512;
      atime = meta.mtime;
      mtime = meta.mtime;
      ctime = meta.mtime;
      crtime = unix_epoch;
      kind = mode_to_filetype mode;
      perm = bit_and mode 0o7777 % 2 ^ 16;
      nlink = meta.nlink;
      uid = uid;
      gid = gid;
      rdev = meta.rdev % 2 ^ 32;
      blksize = 512;
      flags = 0;
    }

-- The reply that the kernel may keep as "no such file": inode zero, and nothing else.
abbrev pub negative_entry : FileAttr
negative_entry = record {
  ino = 0;
  size = 0;
  blocks = 0;
  atime = unix_epoch;
  mtime = unix_epoch;
  ctime = unix_epoch;
  crtime = unix_epoch;
  kind = regular_file;
  perm = 0;
  nlink = 0;
  uid = 0;
  gid = 0;
  rdev = 0;
  blksize = 0;
  flags = 0;
}
