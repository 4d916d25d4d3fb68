-- ===== src/Ops/Listing.antt =====
-- src/ops.rs: `get_metadata`, `list_dir` and `resolve_symlink`, which read what `ls` prints.
pub mod Listed
use adbfs_rust.Base.{
  ℕ, Str, codes, ◌==◌, ltb, if◌then◌else◌, List, [], ◌∷◌, ◌++◌, Option, none, some, Result, ok, err,
  panicked, map_err, ends_with, byte_len, suc,
}
use adbfs_rust.Base.Exec.{lift, ◌>>=◌}
use adbfs_rust.Adb.{ShellOutput}
use adbfs_rust.Escape.{shell_escape_path}
use adbfs_rust.Parse.Meta.{FileMeta, Partial}
use adbfs_rust.Parse.Mode.{is_valid_ls_output}
use adbfs_rust.Parse.Line.{Libc, parse_ls_line}
use adbfs_rust.Parse.Name.{extract_filename, parse_symlink_target}
use adbfs_rust.Ops.Messages.{
  DeviceError, no_device, permission_denied, not_found, not_supported, permission_err_suffix,
  extract_name_from_perm_error,
}
use adbfs_rust.Ops.Device.{DeviceOps, Op, transport}

-- `stdout`, unless it is empty and `stderr` is not.
unfoldable pub lines_of : ShellOutput → List Str
lines_of output = elim output.stdout [ [] ↦ output.stderr | line ∷ lines ↦ line ∷ lines ]

-- What the lines say of the file at the path.
unfoldable pub metadata_of_lines : Libc → Str → List Str → Result DeviceError FileMeta
metadata_of_lines libc path [] = err no_device
metadata_of_lines libc path (first ∷ lines) =
    if ends_with first permission_err_suffix
    then err (permission_denied path)
    else map_err (λ _. not_found path) (parse_ls_line libc first)

abbrev pub Entry : Type 0
Entry = Str × Option FileMeta

-- An entry in front of those of the later lines.
push_entry : Entry → Result DeviceError (List Entry) → Result DeviceError (List Entry)
push_entry e (ok es) = ok (e ∷ es)
push_entry e (err x) = err x
push_entry e panicked = panicked

-- One round of the loop of `list_dir`: the entry of a line, if it has one.
unfoldable pub entry_of_line : Libc → Str → Partial (Option Entry)
entry_of_line libc line =
    if ltb (byte_len line) 3
    then ok none
    else if is_valid_ls_output line
    then elim (extract_filename line) [
      | err _ ↦ ok none
      | panicked ↦ panicked
      | ok name ↦ elim (parse_ls_line libc line) [
        | ok meta ↦ ok (some (name, some meta))
        | err _ ↦ ok (some (name, none))
        | panicked ↦ panicked
      ]
    ]
    else if ends_with line permission_err_suffix
    then elim (extract_name_from_perm_error line) [
      | none ↦ ok none
      | some name ↦ ok (some (name, none))
    ]
    else ok none

unfoldable pub entries_of_lines : Libc → List Str → Result DeviceError (List Entry)
unfolding push_entry
entries_of_lines libc [] = ok []
entries_of_lines libc (line ∷ lines) =
    let rest = entries_of_lines libc lines in
    elim (entry_of_line libc line) [
      | ok none ↦ rest
      | ok (some e) ↦ push_entry e rest
      | err _ ↦ rest
      | panicked ↦ panicked
    ]

-- `path.chars().filter(|&c| c == '/').count()`
unfoldable pub count_slashes : Str → ℕ
count_slashes [] = 0
count_slashes (c ∷ s) = if c == b'/' then suc (count_slashes s) else count_slashes s

unfoldable pub resolve_symlink : Str → Str → Result DeviceError Str
unfolding count_slashes
resolve_symlink path raw_line = elim (parse_symlink_target raw_line (count_slashes path)) [
  | none ↦ err not_supported
  | some target ↦ ok target
]

module _ {W : Type 0} (ops : DeviceOps W) where
  unfoldable pub get_metadata : Str → Op ops FileMeta
  unfolding transport lines_of metadata_of_lines
  get_metadata path = do
    output ← transport (
        ops.device.shell_with_stderr (codes "ls -l -a -d '" ++ shell_escape_path path ++ codes "'"))
    lift (metadata_of_lines ops.libc path (lines_of output))

  unfoldable pub list_dir : Str → Op ops (List Entry)
  unfolding transport
  list_dir path = do
    lines ← transport (ops.device.shell (codes "ls -l -a '" ++ shell_escape_path path ++ codes "'"))
    lift (entries_of_lines ops.libc lines)
