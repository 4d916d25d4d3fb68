-- ===== src/Examples/World.antt =====
-- A device that answers every command silently and keeps the commands, and local files that are empty.
use adbfs_rust.Base.{Str, codes, List, [], ◌∷◌, ◌++◌, none, pos, ok, false}
use adbfs_rust.Base.Exec.{pure}
use adbfs_rust.Adb.{ShellOutput, AdbDevice}
use adbfs_rust.Parse.Line.{Libc}
use adbfs_rust.Ops.Device.{DeviceOps}
use adbfs_rust.MountOpts.{default}
use adbfs_rust.Fs.State.{Local, AdbFs, FsState, new}

-- The commands that the device has run.
abbrev pub World : Type 0
World = List Str

abbrev pub silent : ShellOutput
silent = record { stdout = []; stderr = codes " " ∷ []; exit_code = pos 0 }

abbrev pub quiet_device : AdbDevice World
quiet_device = record {
  shell = λ cmd w. (ok [], w ++ cmd ∷ []);
  shell_with_stderr = λ cmd w. (ok silent, w ++ cmd ∷ []);
  pull = λ remote local w. (ok tt, w ++ (codes "pull " ++ remote) ∷ []);
  push = λ local remote w. (ok tt, w ++ (codes "push " ++ remote) ∷ []);
  sync_device = λ w. (ok tt, w ++ codes "sync" ∷ []);
}

abbrev pub utc_noon : Libc
utc_noon = record { getpwnam = λ name. none; getgrnam = λ name. none; mktime = λ tm. pos 43_200 }

abbrev pub quiet_ops : DeviceOps World
quiet_ops = record { device = quiet_device; libc = utc_noon; rescan = false }

abbrev pub empty_files : Local World (Unit {0})
empty_files = record {
  create = λ path. pure tt;
  open_read_write = λ path. pure tt;
  open_write = λ path. pure tt;
  set_len = λ f n. pure tt;
  seek = λ f n. pure tt;
  read = λ f n. pure [];
  write = λ f bytes. pure 0;
  remove_file = λ path. pure tt;
  new_temp_dir = λ dir. pure (dir ++ codes "/x");
  drop_temp_dir = λ dir w. w;
  mknod = λ path mode rdev. pure tt;
  instant_now = λ w. 0;
  system_time_now = λ w. record { secs = pos 0; nanos = 0 };
}

abbrev pub quiet_fs : AdbFs World (Unit {0})
quiet_fs = record { ops = quiet_ops; local = empty_files; tmp_dir = codes "/tmp"; opts = default }

abbrev pub start : FsState World (Unit {0})
start = new (record { world = []; touch_gnu_mode = false }) 30
