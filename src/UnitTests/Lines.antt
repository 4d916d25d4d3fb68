-- ===== src/UnitTests/Lines.antt =====
-- src/parse.rs: the tests of `parse_ls_line`, `extract_filename` and `parse_symlink_target`. A line with a
-- date is read with a C library whose clock is at noon.
use adbfs_rust.Base.{
  Str, codes, str_eq, ◌==◌, ◌+◌, ◌*◌, Bool, true, false, ◌&&◌, [], ◌∷◌, ◌≡◌, refl, bit_and,
  parse_unsigned, parse_i32, Option, none, some, ok, err, panicked,
}
use adbfs_rust.Parse.Meta.{Partial}
use adbfs_rust.Parse.Fields.{split_fields}
use adbfs_rust.Parse.Mode.{
  parse_mode_string, is_valid_ls_output, s_ifmt, s_iflnk, s_ifreg, s_ifdir, s_ifchr,
}
use adbfs_rust.Parse.Line.{Libc, parse_ls_line, parse_datetime}
use adbfs_rust.Parse.Name.{extract_filename, parse_symlink_target}
use adbfs_rust.UnitTests.Support.{all_pass, utc_noon}

-- `expect`, and what is asserted of the value; `is_none`.
abbrev parsed : {A : Type 0} → Partial A → (A → Bool) → Bool
parsed (ok a) p = p a
parsed (err e) p = false
parsed panicked p = false

abbrev is_none : {A : Type 0} → Partial A → Bool
is_none (ok a) = false
is_none (err e) = true
is_none panicked = false

abbrev target_is : Option Str → Str → Bool
target_is none expected = false
target_is (some target) expected = str_eq target expected

abbrev target_is_none : Option Str → Bool
target_is_none none = true
target_is_none (some target) = false

parse_regular_file_without_nlink : Libc → Bool
parse_regular_file_without_nlink libc =
    parsed
      (parse_ls_line libc
        (codes "-rw-rw-r-- root     sdcard_rw   763362 2012-06-22 02:16 file.html"))
      (λ meta.
        bit_and meta.mode s_ifmt == s_ifreg
        && meta.nlink == 1
        && meta.size == 763362
        && meta.rdev == 0
        && str_eq meta.raw_line
            (codes "-rw-rw-r-- root     sdcard_rw   763362 2012-06-22 02:16 file.html"))

parse_regular_file_with_nlink : Libc → Bool
parse_regular_file_with_nlink libc =
    parsed
      (parse_ls_line libc
        (codes "-rw-r--r--   1 root   root      5905 1970-01-01 01:00 ueventd.rc"))
      (λ meta. bit_and meta.mode s_ifmt == s_ifreg && meta.nlink == 1 && meta.size == 5905)

parse_directory : Libc → Bool
parse_directory libc =
    parsed
      (parse_ls_line libc (codes "drwxr-xr-x root     root              2012-06-22 02:16 somedir"))
      (λ meta. bit_and meta.mode s_ifmt == s_ifdir && meta.size == 0)

parse_directory_with_nlink : Libc → Bool
parse_directory_with_nlink libc =
    parsed (parse_ls_line libc (codes "drwxr-xr-x   2 root   root      4096 1970-01-01 01:00 dev"))
      (λ meta. bit_and meta.mode s_ifmt == s_ifdir && meta.nlink == 2 && meta.size == 0)

parse_symlink : Libc → Bool
parse_symlink libc =
    parsed
      (parse_ls_line libc
        (codes "lrwxrwxrwx root     root              2012-06-22 02:16 link -> /target"))
      (λ meta. bit_and meta.mode s_ifmt == s_iflnk && meta.size == 0)

parse_char_device : Libc → Bool
parse_char_device libc =
    parsed
      (parse_ls_line libc (codes "crw-rw-rw- root     root     10, 123 1970-01-01 01:00 urandom"))
      (λ meta. bit_and meta.mode s_ifmt == s_ifchr && meta.rdev == 10 * 256 + 123 && meta.size == 0)

parse_invalid_line : Libc → Bool
parse_invalid_line libc = is_none (parse_ls_line libc (codes "/data: Permission denied"))

parse_empty_line : Libc → Bool
parse_empty_line libc = is_none (parse_ls_line libc (codes ""))

extract_filename_regular : Bool
extract_filename_regular =
    parsed
      (extract_filename (codes "-rw-rw-r-- root     sdcard_rw   763362 2012-06-22 02:16 file.html"))
      (λ name. str_eq name (codes "file.html"))

extract_filename_with_spaces : Bool
extract_filename_with_spaces =
    parsed
      (extract_filename
        (codes "-rw-rw-r-- root     sdcard_rw   763362 2012-06-22 02:16 my file name.txt"))
      (λ name. str_eq name (codes "my file name.txt"))

extract_filename_symlink : Bool
extract_filename_symlink =
    parsed
      (extract_filename
        (codes "lrwxrwxrwx root     root              2012-06-22 02:16 link -> /target"))
      (λ name. str_eq name (codes "link"))

extract_filename_no_colon : Bool
extract_filename_no_colon = is_none (extract_filename (codes "no time field here"))

symlink_absolute_to_relative : Bool
symlink_absolute_to_relative =
    target_is
      (parse_symlink_target (codes "lrwxrwxrwx root root 2012-06-22 02:16 link -> /system/bin/sh")
        2)
      (codes "../system/bin/sh")

symlink_absolute_deep_path : Bool
symlink_absolute_deep_path =
    target_is
      (parse_symlink_target (codes "lrwxrwxrwx root root 2012-06-22 02:16 link -> /data/local/tmp")
        4)
      (codes "../../../data/local/tmp")

symlink_relative_target : Bool
symlink_relative_target =
    target_is
      (parse_symlink_target (codes "lrwxrwxrwx root root 2012-06-22 02:16 link -> ../other/file") 2)
      (codes "../other/file")

symlink_no_arrow : Bool
symlink_no_arrow =
    target_is_none
      (parse_symlink_target (codes "-rw-r--r-- root root 5905 1970-01-01 01:00 regular_file") 2)

symlink_absolute_root_path : Bool
symlink_absolute_root_path =
    target_is (parse_symlink_target (codes "lrwxrwxrwx root root 2012-06-22 02:16 link -> /init") 1)
      (codes "init")

-- Each test passes.
line_tests_lem :
    all_pass (
      parse_regular_file_without_nlink utc_noon
      ∷ parse_regular_file_with_nlink utc_noon
      ∷ parse_directory utc_noon
      ∷ parse_directory_with_nlink utc_noon
      ∷ parse_symlink utc_noon
      ∷ parse_char_device utc_noon
      ∷ parse_invalid_line utc_noon
      ∷ parse_empty_line utc_noon
      ∷ extract_filename_regular
      ∷ extract_filename_with_spaces
      ∷ extract_filename_symlink
      ∷ extract_filename_no_colon
      ∷ symlink_absolute_to_relative
      ∷ symlink_absolute_deep_path
      ∷ symlink_relative_target
      ∷ symlink_no_arrow
      ∷ symlink_absolute_root_path
      ∷ [])
    ≡ true
unfolding parse_ls_line extract_filename parse_symlink_target split_fields is_valid_ls_output
    parse_unsigned parse_mode_string parse_datetime parse_i32 parse_regular_file_without_nlink
    parse_regular_file_with_nlink parse_directory parse_directory_with_nlink parse_symlink
    parse_char_device parse_invalid_line parse_empty_line extract_filename_regular
    extract_filename_with_spaces extract_filename_symlink extract_filename_no_colon
    symlink_absolute_to_relative symlink_absolute_deep_path symlink_relative_target symlink_no_arrow
    symlink_absolute_root_path
line_tests_lem = refl
