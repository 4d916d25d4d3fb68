-- ===== src/Ops/Messages.antt =====
-- src/ops.rs: `DeviceError` and the readers of the messages that commands print.
pub mod Table
use adbfs_rust.Base.{
  ℕ, zero, suc, ◌+◌, ◌-◌, Str, codes, ltb, if◌then◌else◌, Bool, true, false, List, [], ◌∷◌, ◌++◌,
  Option, none, some, contains, find, rfind, trim, is_empty, to_ascii_lowercase, byte_len, drop,
  length,
}
use adbfs_rust.Errno.{
  eperm, enoent, eio, eagain, eacces, ebusy, eexist, exdev, enotdir, eisdir, einval, enospc, erofs,
  enametoolong, enosys, enotempty,
}
use adbfs_rust.Adb.{ShellOutput, AdbError}

pub data DeviceError : Type 0 where
  no_device : DeviceError
  permission_denied : Str → DeviceError
  not_found : Str → DeviceError
  not_supported : DeviceError
  failed : ℕ → Str → DeviceError
  adb : AdbError → DeviceError

unfoldable pub to_errno : DeviceError → ℕ
to_errno no_device = eagain
to_errno (permission_denied path) = eacces
to_errno (not_found path) = enoent
to_errno not_supported = enosys
to_errno (failed errno message) = errno
to_errno (adb e) = eio

abbrev pub permission_err_suffix : Str
permission_err_suffix = codes ": Permission denied"

abbrev pub touch_toybox_err_prefix : Str
touch_toybox_err_prefix = codes "touch: bad '@"

abbrev pub touch_busybox_err_prefix : Str
touch_busybox_err_prefix = codes "touch: invalid date '@"

-- The first line that is not blank, trimmed.
unfoldable pub first_nonblank : List Str → Option Str
first_nonblank [] = none
first_nonblank (l ∷ ls) =
    let rest = first_nonblank ls in if is_empty (trim l) then rest else some (trim l)

unfoldable pub first_message : ShellOutput → Option Str
unfolding first_nonblank
first_message output = first_nonblank (output.stderr ++ output.stdout)

-- `TABLE`
abbrev pub errno_table : List (Str × ℕ)
errno_table =
    (codes "permission denied", eacces)
    ∷ (codes "operation not permitted", eperm)
    ∷ (codes "no such file or directory", enoent)
    ∷ (codes "directory not empty", enotempty)
    ∷ (codes "file exists", eexist)
    ∷ (codes "read-only file system", erofs)
    ∷ (codes "is a directory", eisdir)
    ∷ (codes "not a directory", enotdir)
    ∷ (codes "cross-device link", exdev)
    ∷ (codes "no space left on device", enospc)
    ∷ (codes "device or resource busy", ebusy)
    ∷ (codes "file name too long", enametoolong)
    ∷ (codes "invalid argument", einval)
    ∷ []

-- The entry that is found first, or `EIO`.
unfoldable pub find_errno : List (Str × ℕ) → Str → ℕ
find_errno [] lower = eio
find_errno ((needle, errno) ∷ table) lower =
    let rest = find_errno table lower in if contains lower needle then errno else rest

unfoldable pub errno_for_message : Str → ℕ
unfolding find_errno
errno_for_message message = find_errno errno_table (to_ascii_lowercase message)

-- Both positions are counted from the start of the line, the last slash before the closing quote.
name_between : Str → Str → Option Str
name_between before_slash before_quote =
    if ltb (byte_len before_slash) (byte_len before_quote)
    then some (drop (length before_slash + 1) before_quote)
    else none

unfoldable pub extract_name_from_perm_error : Str → Option Str
unfolding name_between
extract_name_from_perm_error line = elim (rfind line b'/') [
  | none ↦ none
  | some (before_slash, _) ↦ elim (find line (codes "' ")) [
    | none ↦ none
    | some (before_quote, _) ↦ name_between before_slash before_quote
  ]
]
