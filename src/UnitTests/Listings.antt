-- ===== src/UnitTests/Listings.antt =====
-- src/ops.rs: the tests of `get_metadata`, `list_dir` and `resolve_symlink`. The C library is a parameter
-- of those that read dates.
use mathlib.Core.List.{flat_map}
use adbfs_rust.Base.{
  Str, codes, str_eq, ◌==◌, Bool, true, false, not, ◌&&◌, [], ◌∷◌, Option, none, some, ◌≡◌, refl,
  bit_and, length, get_elem?, parse_unsigned, parse_i32,
}
use adbfs_rust.Adb.Mock
use adbfs_rust.Adb.Mock.{MockAdb, out, failed, mock_adb}
use adbfs_rust.Parse.Mode.{s_ifreg, parse_mode_string, is_valid_ls_output}
use adbfs_rust.Parse.Line.{Libc, parse_ls_line, parse_datetime}
use adbfs_rust.Ops.Messages.{
  DeviceError, no_device, permission_denied, not_found, extract_name_from_perm_error,
}
use adbfs_rust.Ops.Device
use adbfs_rust.Ops.Device.{
  DeviceOps, OpsState, with_rescan, run_mutation, rescan_file, mkdir, rm, rmdir, mv,
}
use adbfs_rust.Parse.Fields.{split_fields}
use adbfs_rust.Parse.Name.{extract_filename, parse_symlink_target}
use adbfs_rust.Ops.Listing.{
  Entry, entries_of_lines, entry_of_line, get_metadata, list_dir, resolve_symlink,
}
use adbfs_rust.UnitTests.Support.{all_pass, utc_noon}
use adbfs_rust.UnitTests.Double.{run, unwrapped, fails_with}

abbrev is_permission_denied : DeviceError → Bool
is_permission_denied (permission_denied path) = true
is_permission_denied _ = false

abbrev is_no_device : DeviceError → Bool
is_no_device no_device = true
is_no_device _ = false

abbrev is_not_found : DeviceError → Bool
is_not_found (not_found path) = true
is_not_found _ = false

get_metadata_parses_ls_output : Libc → Bool
get_metadata_parses_ls_output libc =
    unwrapped
      (run libc (out (codes "-rw-r--r-- root root 1234 2024-01-15 10:30 test.txt" ∷ []) ∷ [])
        (λ ops. get_metadata ops (codes "/sdcard/test.txt"))).0
      (λ meta. meta.size == 1234 && bit_and meta.mode s_ifreg == s_ifreg)

get_metadata_permission_denied : Libc → Bool
get_metadata_permission_denied libc =
    fails_with
      (run libc (out (codes "/sbin/healthd: Permission denied" ∷ []) ∷ [])
        (λ ops. get_metadata ops (codes "/sbin/healthd"))).0
      is_permission_denied

get_metadata_no_device : Libc → Bool
get_metadata_no_device libc =
    fails_with (run libc (out [] ∷ []) (λ ops. get_metadata ops (codes "/any"))).0 is_no_device

get_metadata_not_found : Libc → Bool
get_metadata_not_found libc =
    fails_with
      (run libc (out (codes "/sdcard/nofile: No such file or directory" ∷ []) ∷ [])
        (λ ops. get_metadata ops (codes "/sdcard/nofile"))).0
      is_not_found

-- The name of an entry, and whether it has metadata.
abbrev entry_is : Option Entry → Str → Bool → Bool
entry_is none name with_meta = false
entry_is (some (n, none)) name with_meta = str_eq n name && not with_meta
entry_is (some (n, some meta)) name with_meta = str_eq n name && with_meta

list_dir_parses_entries : Libc → Bool
list_dir_parses_entries libc =
    unwrapped
      (run libc
        (out (
            codes "-rw-r--r-- root root 100 2024-01-15 10:30 a.txt"
            ∷ codes "drwxr-xr-x root root      2024-01-15 10:30 subdir"
            ∷ [])
          ∷ [])
        (λ ops. list_dir ops (codes "/sdcard"))).0
      (λ entries.
        length entries == 2
        && entry_is (get_elem? entries 0) (codes "a.txt") true
        && entry_is (get_elem? entries 1) (codes "subdir") true)

list_dir_handles_permission_errors : Libc → Bool
list_dir_handles_permission_errors libc =
    unwrapped
      (run libc
        (out (
            codes "-rw-r--r-- root root 100 2024-01-15 10:30 ok.txt"
            ∷ codes "lstat '//efs' failed: Permission denied"
            ∷ [])
          ∷ [])
        (λ ops. list_dir ops (codes "/"))).0
      (λ entries.
        length entries == 2
        && entry_is (get_elem? entries 0) (codes "ok.txt") true
        && entry_is (get_elem? entries 1) (codes "efs") false)

resolve_symlink_works : Bool
resolve_symlink_works =
    unwrapped
      (resolve_symlink (codes "/vendor/lib/link")
        (codes "lrwxrwxrwx root root 2024-01-01 12:00 link -> /system/lib/libc.so"))
      (λ target. str_eq target (codes "../../system/lib/libc.so"))

-- Each test passes.
listing_tests_lem :
    all_pass (
      get_metadata_parses_ls_output utc_noon
      ∷ get_metadata_permission_denied utc_noon
      ∷ get_metadata_no_device utc_noon
      ∷ get_metadata_not_found utc_noon
      ∷ list_dir_parses_entries utc_noon
      ∷ list_dir_handles_permission_errors utc_noon
      ∷ resolve_symlink_works
      ∷ [])
    ≡ true
unfolding get_metadata_parses_ls_output get_metadata_permission_denied get_metadata_no_device
    get_metadata_not_found list_dir_parses_entries list_dir_handles_permission_errors
    resolve_symlink_works Device.new mock_adb Mock.new out get_metadata list_dir entries_of_lines
    entry_of_line parse_ls_line split_fields is_valid_ls_output parse_unsigned parse_mode_string
    parse_datetime parse_i32 extract_filename extract_name_from_perm_error resolve_symlink
    parse_symlink_target flat_map
listing_tests_lem = refl
