-- ===== src/UnitTests/Double.antt =====
-- src/ops.rs: what its tests share: operations on the test double of a device.
use adbfs_rust.Base.{ℕ, Str, Bool, false, List, Result, ok, err, panicked}
use adbfs_rust.Base.Exec.{Exec, pure}
use adbfs_rust.Adb.{AdbError, ShellOutput}
use adbfs_rust.Adb.Mock
use adbfs_rust.Adb.Mock.{MockAdb, out, failed, mock_adb}
use adbfs_rust.Parse.Line.{Libc}
use adbfs_rust.Ops.Messages.{DeviceError}
use adbfs_rust.Ops.Device
use adbfs_rust.Ops.Device.{
  DeviceOps, OpsState, with_rescan, run_mutation, rescan_file, mkdir, rm, rmdir, mv,
}

-- There are no local files in these tests.
abbrev pub World : Type 0
World = MockAdb (Unit {0})

abbrev pub no_files : Str → List ℕ → Exec (Unit {0}) ℕ (Unit {0})
no_files path bytes = pure tt

abbrev pub Answers : Type 0
Answers = List (Result AdbError ShellOutput)

-- `DeviceOps::new(mock, ResolvedCompat::legacy())`, and the state that it starts in.
abbrev pub on_mock : Libc → Answers → DeviceOps World × OpsState World
on_mock libc answers = Device.new (mock_adb no_files) libc (Mock.new answers tt)

abbrev pub run :
    {A : Type 0}
    → Libc
    → Answers
    → (DeviceOps World → Exec (OpsState World) DeviceError A)
    → Result DeviceError A × OpsState World
run libc answers op = let (ops, s) = on_mock libc answers in op ops s

abbrev pub unwrapped : {A : Type 0} → Result DeviceError A → (A → Bool) → Bool
unwrapped (ok a) p = p a
unwrapped (err e) p = false
unwrapped panicked p = false

abbrev pub fails_with : {A : Type 0} → Result DeviceError A → (DeviceError → Bool) → Bool
fails_with (ok a) p = false
fails_with (err e) p = p e
fails_with panicked p = false
