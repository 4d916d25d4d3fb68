-- ===== src/UnitTests/Modes.antt =====
-- src/parse.rs: the tests of `parse_mode_string` and `is_valid_ls_output`.
use adbfs_rust.Base.{ℕ, codes, ◌==◌, Bool, true, not, ◌&&◌, [], ◌∷◌, ◌≡◌, refl, bit_and}
use adbfs_rust.UnitTests.Support.{all_pass}
use adbfs_rust.Parse.Mode.{
  parse_mode_string, is_valid_ls_output, s_ifmt, s_ifsock, s_iflnk, s_ifreg, s_ifblk, s_ifdir,
  s_ifchr, s_ififo,
}

-- The bits of libc.
abbrev s_isuid : ℕ
s_isuid = 0o4000

abbrev s_isgid : ℕ
s_isgid = 0o2000

abbrev s_isvtx : ℕ
s_isvtx = 0o1000

abbrev s_irwxu : ℕ
s_irwxu = 0o700

abbrev s_irusr : ℕ
s_irusr = 0o400

abbrev s_iwusr : ℕ
s_iwusr = 0o200

abbrev s_ixusr : ℕ
s_ixusr = 0o100

abbrev s_irwxg : ℕ
s_irwxg = 0o070

abbrev s_irgrp : ℕ
s_irgrp = 0o040

abbrev s_iwgrp : ℕ
s_iwgrp = 0o020

abbrev s_ixgrp : ℕ
s_ixgrp = 0o010

abbrev s_irwxo : ℕ
s_irwxo = 0o007

abbrev s_iroth : ℕ
s_iroth = 0o004

abbrev s_iwoth : ℕ
s_iwoth = 0o002

abbrev s_ixoth : ℕ
s_ixoth = 0o001

mode_regular_file_rw : Bool
mode_regular_file_rw =
    let mode = parse_mode_string (codes "-rw-r--r--") in
    bit_and mode s_ifmt == s_ifreg
    && not (bit_and mode s_irusr == 0)
    && not (bit_and mode s_iwusr == 0)
    && bit_and mode s_ixusr == 0
    && not (bit_and mode s_irgrp == 0)
    && bit_and mode s_iwgrp == 0
    && not (bit_and mode s_iroth == 0)
    && bit_and mode s_iwoth == 0

mode_directory : Bool
mode_directory =
    let mode = parse_mode_string (codes "drwxr-xr-x") in
    bit_and mode s_ifmt == s_ifdir
    && not (bit_and mode s_ixusr == 0)
    && not (bit_and mode s_ixgrp == 0)
    && not (bit_and mode s_ixoth == 0)

mode_symlink : Bool
mode_symlink =
    let mode = parse_mode_string (codes "lrwxrwxrwx") in
    bit_and mode s_ifmt == s_iflnk
    && not (bit_and mode s_irwxu == 0)
    && not (bit_and mode s_irwxg == 0)
    && not (bit_and mode s_irwxo == 0)

mode_socket : Bool
mode_socket = let mode = parse_mode_string (codes "srwxrwxrwx") in bit_and mode s_ifmt == s_ifsock

mode_block_device : Bool
mode_block_device =
    let mode = parse_mode_string (codes "brw-rw----") in bit_and mode s_ifmt == s_ifblk

mode_char_device : Bool
mode_char_device =
    let mode = parse_mode_string (codes "crw-rw-rw-") in bit_and mode s_ifmt == s_ifchr

mode_fifo : Bool
mode_fifo = let mode = parse_mode_string (codes "prw-r--r--") in bit_and mode s_ifmt == s_ififo

mode_setuid_with_exec : Bool
mode_setuid_with_exec =
    let mode = parse_mode_string (codes "-rwsr-xr-x") in
    not (bit_and mode s_isuid == 0) && not (bit_and mode s_ixusr == 0)

mode_setuid_without_exec : Bool
mode_setuid_without_exec =
    let mode = parse_mode_string (codes "-rwSr-xr-x") in
    not (bit_and mode s_isuid == 0) && bit_and mode s_ixusr == 0

mode_setgid_with_exec : Bool
mode_setgid_with_exec =
    let mode = parse_mode_string (codes "-rwxr-sr-x") in
    not (bit_and mode s_isgid == 0) && not (bit_and mode s_ixgrp == 0)

mode_setgid_without_exec : Bool
mode_setgid_without_exec =
    let mode = parse_mode_string (codes "-rwxr-Sr-x") in
    not (bit_and mode s_isgid == 0) && bit_and mode s_ixgrp == 0

mode_sticky_with_exec : Bool
mode_sticky_with_exec =
    let mode = parse_mode_string (codes "drwxr-xr-t") in
    not (bit_and mode s_isvtx == 0) && not (bit_and mode s_ixoth == 0)

mode_sticky_without_exec : Bool
mode_sticky_without_exec =
    let mode = parse_mode_string (codes "drwxr-xr-T") in
    not (bit_and mode s_isvtx == 0) && bit_and mode s_ixoth == 0

valid_ls_regular_file : Bool
valid_ls_regular_file =
    is_valid_ls_output (codes "-rw-rw-r-- root     sdcard_rw   763362 2012-06-22 02:16 file.html")

valid_ls_directory : Bool
valid_ls_directory =
    is_valid_ls_output (codes "drwxr-xr-x root     root              2012-06-22 02:16 somedir")

invalid_ls_error_message : Bool
invalid_ls_error_message = not (is_valid_ls_output (codes "/data/misc: Permission denied"))

invalid_ls_opendir_error : Bool
invalid_ls_opendir_error =
    not (is_valid_ls_output (codes "opendir failed, No such file or directory"))

invalid_ls_empty : Bool
invalid_ls_empty = not (is_valid_ls_output (codes ""))

invalid_ls_short : Bool
invalid_ls_short = not (is_valid_ls_output (codes "x"))

-- Each test passes.
mode_tests_lem :
    all_pass (
      mode_regular_file_rw ∷ mode_directory ∷ mode_symlink ∷ mode_socket ∷ mode_block_device
      ∷ mode_char_device ∷ mode_fifo ∷ mode_setuid_with_exec ∷ mode_setuid_without_exec
      ∷ mode_setgid_with_exec ∷ mode_setgid_without_exec ∷ mode_sticky_with_exec
      ∷ mode_sticky_without_exec ∷ valid_ls_regular_file ∷ valid_ls_directory
      ∷ invalid_ls_error_message ∷ invalid_ls_opendir_error ∷ invalid_ls_empty ∷ invalid_ls_short
      ∷ [])
    ≡ true
unfolding parse_mode_string is_valid_ls_output mode_regular_file_rw mode_directory mode_symlink
    mode_socket mode_block_device mode_char_device mode_fifo mode_setuid_with_exec
    mode_setuid_without_exec mode_setgid_with_exec mode_setgid_without_exec mode_sticky_with_exec
    mode_sticky_without_exec valid_ls_regular_file valid_ls_directory invalid_ls_error_message
    invalid_ls_opendir_error invalid_ls_empty invalid_ls_short
mode_tests_lem = refl
