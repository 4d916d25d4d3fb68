-- ===== src/Ops/Touch.antt =====
-- src/ops.rs: `touch`, which falls back to another format of dates once a device refuses the first.
pub mod Laws
use adbfs_rust.Base.{
  ℕ, zero, suc, Str, codes, if◌then◌else◌, Bool, true, false, ◌||◌, List, [], ◌∷◌, ◌++◌, Option,
  none, some, ℤ, pos, negsuc, Result, ok, err, panicked, show, show_padded, starts_with,
}
use adbfs_rust.Base.Exec.{Exec, pure, raise, lift, gets, modify, continue, ◌>>=◌, ◌>>◌}
use adbfs_rust.Adb.{AdbDevice, AdbError, ShellOutput}
use adbfs_rust.Escape.{shell_escape_path}
use adbfs_rust.Parse.Meta.{SystemTime}
use adbfs_rust.Ops.Messages.{
  DeviceError, not_supported, failed, first_message, errno_for_message, touch_toybox_err_prefix,
  touch_busybox_err_prefix,
}
use adbfs_rust.Ops.Device.{DeviceOps, OpsState, Op, transport, rescan_file, if_rescan}

-- `duration_since(UNIX_EPOCH).unwrap_or_default()`: seconds and nanoseconds, both 0 before the epoch.
since_epoch : SystemTime → ℕ × ℕ
since_epoch t = elim t.secs [ pos n ↦ (n, t.nanos) | negsuc n ↦ (0, 0) ]

unfoldable pub format_touch_time : SystemTime → Bool → Str
unfolding since_epoch
format_touch_time time gnu_format =
    let dur = since_epoch time in
    let stamp = codes "@" ++ show dur.0 ++ codes "." ++ show_padded 9 dur.1 in
    if gnu_format then stamp else codes "`date -ud " ++ stamp ++ codes " +%Y-%m-%dT%H:%M:%S`"

-- One `touch` command; the option is `-a` or `-m`.
touch_part : Str → Bool → Str → Option SystemTime → List Str
touch_part option gnu path none = []
touch_part option gnu path (some t) =
    (codes "touch "
      ++ option
      ++ codes " -d "
      ++ format_touch_time t gnu
      ++ codes " '"
      ++ shell_escape_path path
      ++ codes "'")
    ∷ []

unfoldable pub touch_parts : Bool → Str → Option SystemTime → Option SystemTime → List Str
unfolding touch_part
touch_parts gnu path atime mtime =
    touch_part (codes "-a") gnu path atime ++ touch_part (codes "-m") gnu path mtime

-- `parts.join(" && ")`
pub join_parts : List Str → Str
join_parts [] = []
join_parts (p ∷ []) = p
join_parts (p ∷ q ∷ ps) = p ++ codes " && " ++ join_parts (q ∷ ps)

unfoldable pub is_date_err : Str → Bool
is_date_err message =
    starts_with message touch_toybox_err_prefix || starts_with message touch_busybox_err_prefix

module _ {W : Type 0} (ops : DeviceOps W) where
  -- What follows the command's message; `again` is the recursive call.
  touch_reply : Bool → Str → Op ops (Unit {0}) → Option Str → Op ops (Unit {0})
  unfolding if_rescan
  touch_reply gnu path again none = if_rescan ops (rescan_file ops path)
  touch_reply gnu path again (some message) =
      if is_date_err message
      then (if gnu
          then (do modify (λ s. record s { touch_gnu_mode = false }); again)
          else raise not_supported)
      else raise (failed (errno_for_message message) message)

  -- The part of `touch` behind the test for no times.
  touch_send : Bool → Str → Op ops (Unit {0}) → List Str → Op ops (Unit {0})
  unfolding touch_reply transport join_parts
  touch_send gnu path again [] = pure tt
  touch_send gnu path again (p ∷ ps) = do
    output ← transport (ops.device.shell_with_stderr (join_parts (p ∷ ps)))
    touch_reply gnu path again (first_message output)

  -- The recursion runs on fuel; a call that ran out of it would have exhausted the stack.
  unfoldable pub touch_rounds : ℕ → Str → Option SystemTime → Option SystemTime → Op ops (Unit {0})
  unfolding touch_send
  touch_rounds zero path atime mtime = lift panicked
  touch_rounds (suc fuel) path atime mtime = do
    gnu ← gets (λ s. s.touch_gnu_mode)
    touch_send gnu path (touch_rounds fuel path atime mtime) (touch_parts gnu path atime mtime)

  -- The second round runs in the legacy mode, which has no third.
  unfoldable pub touch : Str → Option SystemTime → Option SystemTime → Op ops (Unit {0})
  unfolding touch_rounds
  touch = touch_rounds 2
