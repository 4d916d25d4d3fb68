-- ===== src/Ops/Device.antt =====
-- src/ops.rs: `DeviceOps` and the commands that print nothing when they succeed.
use adbfs_rust.Base.{
  Str, codes, ◌==◌, if◌then◌else◌, Bool, true, false, ◌++◌, none, some, ℤ, pos, negsuc, Result, ok,
  err, map_err, show_int,
}
use adbfs_rust.Base.Exec.{Exec, pure, ◌>>=◌, ◌>>◌}
use adbfs_rust.Errno.{eio}
use adbfs_rust.Adb.{AdbDevice, AdbError, ShellOutput}
use adbfs_rust.Escape.{shell_escape_path}
use adbfs_rust.Parse.Line.{Libc}
use adbfs_rust.Ops.Messages.{DeviceError, failed, adb, first_message, errno_for_message}

-- What a `DeviceOps` is made of and never changes. `ResolvedCompat` is empty.
pub record DeviceOps (W : Type 0) : Type 0 where
  pub device : AdbDevice W
  pub libc : Libc
  pub rescan : Bool

-- What its operations change: the world, and the mode of `touch`.
pub record OpsState (W : Type 0) : Type 0 where
  pub world : W
  pub touch_gnu_mode : Bool

-- `DeviceOps::new` and `with_rescan`.
unfoldable pub new : {W : Type 0} → AdbDevice W → Libc → W → DeviceOps W × OpsState W
new device libc world = (
  record { device = device; libc = libc; rescan = false },
  record { world = world; touch_gnu_mode = true },
)

unfoldable pub with_rescan : {W : Type 0} → Bool → DeviceOps W → DeviceOps W
with_rescan rescan ops = record ops { rescan = rescan }

-- A call of the transport, its errors made `DeviceError::Adb`.
unfoldable pub transport : {W A : Type 0} → Exec W AdbError A → Exec (OpsState W) DeviceError A
transport m s = let (r, w) = m s.world in (map_err adb r, record s { world = w })

unfoldable pub is_zero : ℤ → Bool
is_zero (pos n) = n == 0
is_zero (negsuc n) = false

-- The `match` of `run_mutation`.
unfoldable pub mutation_result : Str → ShellOutput → Result DeviceError (Unit {0})
unfolding is_zero
mutation_result cmd output = elim (first_message output) [
  | some message ↦ err (failed (errno_for_message message) message)
  | none ↦
      if is_zero output.exit_code
      then ok tt
      else err
          (failed eio (codes "`" ++ cmd ++ codes "` exited with " ++ show_int output.exit_code))
]

module _ {W : Type 0} (ops : DeviceOps W) where
  abbrev pub Op : Type 0 → Type 0
  Op = Exec (OpsState W) DeviceError

  unfoldable pub run_mutation : Str → Op (Unit {0})
  unfolding transport mutation_result
  run_mutation cmd = do
    output ← transport (ops.device.shell_with_stderr cmd)
    λ s. (mutation_result cmd output, s)

  unfoldable pub rescan_file : Str → Op (Unit {0})
  unfolding transport
  rescan_file path = do
    lines ← transport (
        ops.device.shell (
          codes "am broadcast -a android.intent.action.MEDIA_SCANNER_SCAN_FILE -d 'file://"
          ++ shell_escape_path path
          ++ codes "'"))
    pure tt

  unfoldable pub rescan_dir_removed : Str → Op (Unit {0})
  unfolding transport
  rescan_dir_removed path = do
    lines ← transport (
        ops.device.shell (
          codes "am broadcast -a android.intent.action.MEDIA_UNMOUNTED -d 'file://"
          ++ shell_escape_path path
          ++ codes "'"))
    pure tt

  -- `if self.rescan { … }`
  unfoldable pub if_rescan : Op (Unit {0}) → Op (Unit {0})
  if_rescan m = if ops.rescan then m else pure tt

  unfoldable pub mkdir : Str → Op (Unit {0})
  mkdir path = run_mutation (codes "mkdir '" ++ shell_escape_path path ++ codes "'")

  unfoldable pub rm : Str → Op (Unit {0})
  unfolding if_rescan
  rm path = do
    run_mutation (codes "rm '" ++ shell_escape_path path ++ codes "'")
    if_rescan (rescan_file path)

  unfoldable pub rmdir : Str → Op (Unit {0})
  unfolding if_rescan
  rmdir path = do
    run_mutation (codes "rmdir '" ++ shell_escape_path path ++ codes "'")
    if_rescan (rescan_dir_removed path)

  unfoldable pub mv : Str → Str → Op (Unit {0})
  unfolding if_rescan
  mv from to = do
    run_mutation
        (codes "mv '" ++ shell_escape_path from ++ codes "' '" ++ shell_escape_path to ++ codes "'")
    if_rescan (do rescan_file from; rescan_file to)

  unfoldable pub pull : Str → Str → Op (Unit {0})
  unfolding transport
  pull remote local = transport (ops.device.pull remote local)

  unfoldable pub push : Str → Str → Op (Unit {0})
  unfolding transport
  push local remote = transport (ops.device.push local remote)

  unfoldable pub sync_device : Op (Unit {0})
  unfolding transport
  sync_device = transport ops.device.sync_device
