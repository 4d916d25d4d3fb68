-- ===== src/UnitTests/Mutations.antt =====
-- src/ops.rs: the tests of the commands that print nothing when they succeed.
use mathlib.Core.List.{flat_map}
use adbfs_rust.Base.{
  ℕ, Str, codes, ◌==◌, Bool, true, false, not, ◌&&◌, List, [], ◌∷◌, Option, none, some, pos, Result,
  ◌≡◌, refl, contains, show,
}
use adbfs_rust.Base.Exec.{◌>>◌}
use adbfs_rust.Errno.{enotempty, eexist, eacces, exdev, enoent, erofs, eisdir, eio}
use adbfs_rust.Escape.{shell_escape_path}
use adbfs_rust.Adb.Mock
use adbfs_rust.Adb.Mock.{MockAdb, out, failed, mock_adb}
use adbfs_rust.Parse.Meta.{SystemTime}
use adbfs_rust.Parse.Line.{Libc}
use adbfs_rust.Ops.Messages.{DeviceError, to_errno, errno_for_message, first_message}
use adbfs_rust.Ops.Device
use adbfs_rust.Ops.Device.{
  DeviceOps, OpsState, with_rescan, run_mutation, rescan_file, mkdir, rm, rmdir, mv,
}
use adbfs_rust.Ops.Touch.{touch, format_touch_time, is_date_err, touch_parts}
use adbfs_rust.UnitTests.Support.{all_pass, utc_noon}
use adbfs_rust.UnitTests.Double.{run, unwrapped, fails_with}

-- `errno_of`, compared
abbrev errno_is : ℕ → Result DeviceError (Unit {0}) → Bool
errno_is errno r = fails_with r (λ e. to_errno e == errno)

-- `UNIX_EPOCH + Duration::from_secs(1700000000)`
abbrev a_time : SystemTime
a_time = record { secs = pos 1_700_000_000; nanos = 0 }

-- Both attempts: the format of toybox is refused, and the old one is taken.
touch_gnu_fallback : Libc → Bool
touch_gnu_fallback libc =
    let (r, s) =
      run libc (out (codes "touch: bad '@1700000000.000000000'" ∷ []) ∷ out [] ∷ [])
        (λ ops. touch ops (codes "/sdcard/test") none (some a_time)) in
    unwrapped r (λ _. not s.touch_gnu_mode)

silent_mutation_succeeds : Libc → Bool
silent_mutation_succeeds libc =
    unwrapped
      (run libc [] (λ ops. (do
        mkdir ops (codes "/sdcard/new")
        rm ops (codes "/sdcard/old")
        mv ops (codes "/sdcard/a") (codes "/sdcard/b")))).0
      (λ _. true)

-- One case of the table.
abbrev maps_to : Libc → Str → ℕ → Bool
maps_to libc message errno =
    errno_is errno
      (run libc (failed (pos 1) (message ∷ []) ∷ []) (λ ops. rmdir ops (codes "/sdcard/d"))).0

mutation_maps_device_message_to_errno : Libc → Bool
mutation_maps_device_message_to_errno libc =
    maps_to libc (codes "rmdir: '/sdcard/d' failed: Directory not empty") enotempty
    && maps_to libc (codes "mkdir: '/sdcard/d': File exists") eexist
    && maps_to libc (codes "rm: /system/x: Permission denied") eacces
    && maps_to libc (codes "mv: '/a' -> '/b': Cross-device link") exdev
    && maps_to libc (codes "rm: /sdcard/gone: No such file or directory") enoent
    && maps_to libc (codes "mkdir: '/system/x': Read-only file system") erofs
    && maps_to libc (codes "rm: /sdcard/d: Is a directory") eisdir
    && maps_to libc (codes "something the table does not know") eio

mutation_fails_on_legacy_device_that_exits_zero : Libc → Bool
mutation_fails_on_legacy_device_that_exits_zero libc =
    errno_is eexist
      (run libc (out (codes "mkdir failed for /sdcard/d, File exists" ∷ []) ∷ [])
        (λ ops. mkdir ops (codes "/sdcard/d"))).0

mutation_fails_on_exit_code_without_message : Libc → Bool
mutation_fails_on_exit_code_without_message libc =
    errno_is eio (run libc (failed (pos 1) [] ∷ []) (λ ops. rm ops (codes "/sdcard/x"))).0

touch_reports_failure : Libc → Bool
touch_reports_failure libc =
    errno_is erofs
      (run libc (failed (pos 1) (codes "touch: '/system/x': Read-only file system" ∷ []) ∷ [])
        (λ ops. touch ops (codes "/system/x") none (some a_time))).0

abbrev last : List Str → Option Str
last [] = none
last (s ∷ []) = some s
last (s ∷ t ∷ ss) = last (t ∷ ss)

abbrev last_contains : List Str → Str → Bool
last_contains commands part = elim (last commands) [ none ↦ false | some c ↦ contains c part ]

rescan_escapes_the_path : Libc → Bool
rescan_escapes_the_path libc =
    let (r, s) =
      run libc [] (λ ops. rm (with_rescan true ops) (codes "/sdcard/'; reboot; '.mp3")) in
    unwrapped r (λ _. last_contains s.world.commands (codes "'\\''; reboot; '\\''"))

-- Each test passes.
mutation_tests_lem :
    all_pass (
      touch_gnu_fallback utc_noon
      ∷ silent_mutation_succeeds utc_noon
      ∷ mutation_maps_device_message_to_errno utc_noon
      ∷ mutation_fails_on_legacy_device_that_exits_zero utc_noon
      ∷ mutation_fails_on_exit_code_without_message utc_noon
      ∷ touch_reports_failure utc_noon
      ∷ rescan_escapes_the_path utc_noon
      ∷ [])
    ≡ true
unfolding touch_gnu_fallback silent_mutation_succeeds mutation_maps_device_message_to_errno
    mutation_fails_on_legacy_device_that_exits_zero mutation_fails_on_exit_code_without_message
    touch_reports_failure rescan_escapes_the_path Device.new mock_adb Mock.new out failed touch
    mkdir rm mv rmdir with_rescan to_errno errno_for_message format_touch_time is_date_err
    touch_parts show flat_map first_message run_mutation rescan_file shell_escape_path
mutation_tests_lem = refl
