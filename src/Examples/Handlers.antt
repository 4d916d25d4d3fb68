-- ===== src/Examples/Handlers.antt =====
-- Handlers at concrete inputs.
use adbfs_rust.Base.{
  codes, [], ◌∷◌, List, none, ok, err, ◌≡◌, refl, arith, Bool, true, false, nat_eq, text_eq,
}
use adbfs_rust.Base.Map
use adbfs_rust.Errno.{eio}
use adbfs_rust.Cache.{new, insert}
use adbfs_rust.Cache.Laws.{answer}
use adbfs_rust.Adb.{io}
use adbfs_rust.MountOpts.{default, split}
use adbfs_rust.Fs.State.{new as new_state, device, AdbFs, FsState, DirEntry, regular_file}
use adbfs_rust.Ops.Device.{rmdir as device_rmdir, run_mutation, push}
use adbfs_rust.Ops.Messages.{first_message, to_errno}
use adbfs_rust.Fs.Metadata.{cache_invalidate_prefix}
use adbfs_rust.Fs.Inodes.{get_path}
use adbfs_rust.Fs.Copies.{load, push_if_dirty}
use adbfs_rust.Fs.Copies.Dirty.{push_if_dirty_failed}
use adbfs_rust.Fs.Copies.{acquire_copy, pull_contents}
use adbfs_rust.Fs.Copies.Failures.{acquire_copy_failed}
use adbfs_rust.Ops.Device.{pull}
use adbfs_rust.Fs.Handlers.Directories.{numbered}
use adbfs_rust.Fs.Handlers.Directories.Paging.{reads, reads_lem}
use adbfs_rust.Fs.Handlers.Changes.{rmdir}
use adbfs_rust.Fs.Handlers.Changes.Forgets.{rmdir_forgets}
use adbfs_rust.Startup.{Cli, Startup, startup, mount_config}
use adbfs_rust.Startup.Switches.{Follows, startup_switches}
use adbfs_rust.Parse.Meta.{FileMeta}
use adbfs_rust.Fs.Attr.{meta_to_attr}
use adbfs_rust.Fs.Attr.Bounds.{meta_to_attr_fits}
use adbfs_rust.MountOpts.{apply_ownership}
use adbfs_rust.Base.{pos, bit_and, ◌+◌, ◌*◌, ◌≤◌, ◌<◌}
use adbfs_rust.Examples.World.{World, quiet_device, quiet_ops, quiet_fs, start}

abbrev listing : List DirEntry
listing = (5, regular_file, codes "a") ∷ (6, regular_file, codes "b") ∷ []

abbrev listed : FsState World (Unit {0})
listed = record start { open_dirs = (7, listing) ∷ [] }

reads_lem_example :
    reads quiet_fs (λ taken e. elim taken [ [] ↦ false | t ∷ ts ↦ true ]) 7 3 0 listed
    ≡ (ok ((1, (5, regular_file, codes "a")) ∷ (2, (6, regular_file, codes "b")) ∷ []), listed)
unfolding numbered Map.get
reads_lem_example =
    reads_lem quiet_fs (λ taken e. elim taken [ [] ↦ false | t ∷ ts ↦ true ]) 7 3 0 listing listed
      (λ e. refl) refl (ground arith)

-- The cache knows `/a` and `/a/b`, and the root is inode 1.
abbrev warm : FsState World (Unit {0})
warm = record start { cache = insert 0 (codes "/a/b") none (insert 0 (codes "/a") none (new 30)) }

rmdir_forgets_example : answer 1 (codes "/a/b") (rmdir quiet_fs 1 (codes "a") warm).1.cache ≡ none
unfolding rmdir get_path Map.get new_state device device_rmdir run_mutation first_message
    cache_invalidate_prefix
rmdir_forgets_example =
    rmdir_forgets quiet_fs 1 [] (codes "a") (codes "a" ∷ codes "b" ∷ []) warm
      (rmdir quiet_fs 1 (codes "a") warm).1 1 ((ground arith, ground arith), tt) tt
      ((ground arith, ground arith), ((ground arith, ground arith), tt)) refl refl

-- A copy of inode 1 at address 0, marked or not.
abbrev holding : Bool → FsState World (Unit {0})
holding marked = record start {
  copies =
      (
        0,
        record { path = codes "/tmp/1"; dirty = marked; refs = 1; pulled = true; evicted = false },
      )
      ∷ [];
  open_copies = (1, 0) ∷ [];
  next_ptr = 1;
}

abbrev broken_fs : AdbFs World (Unit {0})
broken_fs = record quiet_fs {
  ops = record quiet_ops {
    device = record quiet_device { push = λ local remote w. (err (io eio), w) };
  };
}

push_if_dirty_failed_example :
    ((load 0 (holding true)).dirty ≡ true)
    × ((load 0 (push_if_dirty broken_fs 1 0 (holding true)).1).dirty ≡ true)
unfolding push_if_dirty Map.get get_path new_state push to_errno
push_if_dirty_failed_example =
    push_if_dirty_failed broken_fs 1 0 (holding true) (push_if_dirty broken_fs 1 0 (holding true)).1
      eio refl

abbrev unplugged_fs : AdbFs World (Unit {0})
unplugged_fs = record quiet_fs {
  ops = record quiet_ops {
    device = record quiet_device { pull = λ remote local w. (err (io eio), w) };
  };
}

acquire_copy_failed_example :
    Map.get 5 (acquire_copy unplugged_fs 5 (codes "/a") pull_contents start).1.open_copies ≡ none
unfolding acquire_copy Map.get new_state Map.insert pull to_errno
acquire_copy_failed_example =
    acquire_copy_failed unplugged_fs 5 (codes "/a") pull_contents start
      (acquire_copy unplugged_fs 5 (codes "/a") pull_contents start).1 eio refl refl

-- `adbfs -o debug,ro /mnt`, with the other arguments at their defaults.
abbrev debugging : Cli
debugging = record {
  mountpoint = codes "/mnt";
  foreground = false;
  debug = false;
  single_threaded = false;
  rescan = false;
  cache_ttl = 30;
  options = codes "debug" ∷ codes "ro" ∷ [];
}

abbrev debug_session : Startup
debug_session = record {
  foreground = true;
  default_filter = codes "adbfs=debug";
  rescan = false;
  cache_ttl = 30_000_000_000;
  fs_opts = record default { debug = true };
  mountpoint = codes "/mnt";
  config = mount_config none (codes "ro" ∷ []) false;
}

startup_switches_example : Follows debugging debug_session
unfolding startup split mount_config
startup_switches_example = startup_switches (λ v. none) none debugging debug_session refl

abbrev big_file : FileMeta
big_file = record {
  mode = 0o107777;
  nlink = 1;
  uid = 0;
  gid = 0;
  size = 1025;
  rdev = 0;
  mtime = record { secs = pos 0; nanos = 0 };
  raw_line = [];
}

meta_to_attr_fits_example :
    (1025 ≤ 512 * (meta_to_attr default 7 big_file).blocks)
    × (512 * (meta_to_attr default 7 big_file).blocks < 1025 + 512)
    × ((meta_to_attr default 7 big_file).perm
        ≡ bit_and (apply_ownership default 0o107777 0 0).0 0o7777)
meta_to_attr_fits_example = meta_to_attr_fits default 7 big_file
