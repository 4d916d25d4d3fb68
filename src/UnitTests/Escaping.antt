-- ===== src/UnitTests/Escaping.antt =====
-- src/escape.rs: its tests, on the definitions of Escape.
use adbfs_rust.Base.{codes, str_eq, Bool, true, ◌&&◌, [], ◌∷◌, ◌≡◌, refl}
use mathlib.Core.List.{flat_map}
use adbfs_rust.UnitTests.Support.{all_pass}
use adbfs_rust.Escape.{shell_escape_path, shell_escape_command, adb_shell_escape_command}

escape_path_empty : Bool
escape_path_empty = str_eq (shell_escape_path (codes "")) (codes "")

escape_path_no_special_chars : Bool
escape_path_no_special_chars =
    str_eq (shell_escape_path (codes "/mnt/sdcard/photo.jpg")) (codes "/mnt/sdcard/photo.jpg")

escape_path_single_quote : Bool
escape_path_single_quote = str_eq (shell_escape_path (codes "it's")) (codes "it'\\''s")

escape_path_double_quote_is_literal : Bool
escape_path_double_quote_is_literal =
    str_eq (shell_escape_path (codes "say \"hello\"")) (codes "say \"hello\"")

escape_path_both_quotes : Bool
escape_path_both_quotes =
    str_eq (shell_escape_path (codes "it's \"fine\"")) (codes "it'\\''s \"fine\"")

escape_path_backslash_is_literal : Bool
escape_path_backslash_is_literal = str_eq (shell_escape_path (codes "a\\b")) (codes "a\\b")

escape_path_multiple_single_quotes : Bool
escape_path_multiple_single_quotes =
    str_eq (shell_escape_path (codes "a'b'c")) (codes "a'\\''b'\\''c")

escape_path_only_quotes : Bool
escape_path_only_quotes =
    str_eq (shell_escape_path (codes "'")) (codes "'\\''")
    && str_eq (shell_escape_path (codes "''")) (codes "'\\'''\\''")

escape_command_empty : Bool
escape_command_empty = str_eq (shell_escape_command (codes "")) (codes "")

escape_command_no_special_chars : Bool
escape_command_no_special_chars = str_eq (shell_escape_command (codes "ls -la")) (codes "ls -la")

escape_command_backslash : Bool
escape_command_backslash = str_eq (shell_escape_command (codes "a\\b")) (codes "a\\\\b")

escape_command_single_quote : Bool
escape_command_single_quote = str_eq (shell_escape_command (codes "it's")) (codes "it\\'s")

escape_command_backtick : Bool
escape_command_backtick =
    str_eq (shell_escape_command (codes "echo `date`")) (codes "echo \\`date\\`")

escape_command_all_three : Bool
escape_command_all_three = str_eq (shell_escape_command (codes "a\\b'c`d")) (codes "a\\\\b\\'c\\`d")

escape_command_double_backslash : Bool
escape_command_double_backslash = str_eq (shell_escape_command (codes "\\\\")) (codes "\\\\\\\\")

adb_escape_empty : Bool
adb_escape_empty = str_eq (adb_shell_escape_command (codes "")) (codes "")

adb_escape_no_special_chars : Bool
adb_escape_no_special_chars =
    str_eq (adb_shell_escape_command (codes "ls -la /sdcard")) (codes "ls -la /sdcard")

adb_escape_backslash : Bool
adb_escape_backslash = str_eq (adb_shell_escape_command (codes "a\\b")) (codes "a\\\\b")

adb_escape_parentheses : Bool
adb_escape_parentheses = str_eq (adb_shell_escape_command (codes "f(x)")) (codes "f\\(x\\)")

adb_escape_single_quote : Bool
adb_escape_single_quote = str_eq (adb_shell_escape_command (codes "it's")) (codes "it\\'s")

adb_escape_backtick : Bool
adb_escape_backtick = str_eq (adb_shell_escape_command (codes "`cmd`")) (codes "\\`cmd\\`")

adb_escape_pipe : Bool
adb_escape_pipe = str_eq (adb_shell_escape_command (codes "a|b")) (codes "a\\|b")

adb_escape_ampersand : Bool
adb_escape_ampersand = str_eq (adb_shell_escape_command (codes "a&b")) (codes "a\\&b")

adb_escape_semicolon : Bool
adb_escape_semicolon = str_eq (adb_shell_escape_command (codes "a;b")) (codes "a\\;b")

adb_escape_angle_brackets : Bool
adb_escape_angle_brackets = str_eq (adb_shell_escape_command (codes "a<b>c")) (codes "a\\<b\\>c")

adb_escape_star : Bool
adb_escape_star = str_eq (adb_shell_escape_command (codes "*.txt")) (codes "\\*.txt")

adb_escape_hash : Bool
adb_escape_hash = str_eq (adb_shell_escape_command (codes "# comment")) (codes "\\# comment")

adb_escape_percent : Bool
adb_escape_percent = str_eq (adb_shell_escape_command (codes "100%")) (codes "100\\%")

adb_escape_equals : Bool
adb_escape_equals = str_eq (adb_shell_escape_command (codes "a=b")) (codes "a\\=b")

adb_escape_tilde : Bool
adb_escape_tilde = str_eq (adb_shell_escape_command (codes "~user")) (codes "\\~user")

adb_escape_all_special_chars : Bool
adb_escape_all_special_chars =
    str_eq (adb_shell_escape_command (codes "\\()'`|&;<>*#%=~"))
      (codes "\\\\\\(\\)\\'\\`\\|\\&\\;\\<\\>\\*\\#\\%\\=\\~")

adb_escape_strips_ansi_codes : Bool
adb_escape_strips_ansi_codes =
    str_eq (adb_shell_escape_command (codes "hello/[0;0m world")) (codes "hello world")
    && str_eq (adb_shell_escape_command (codes "/[1;32mgreen")) (codes "green")
    && str_eq (adb_shell_escape_command (codes "blue/[1;34m")) (codes "blue")
    && str_eq (adb_shell_escape_command (codes "/[1;36mcyan/[0;0m")) (codes "cyan")

adb_escape_strips_ansi_and_escapes : Bool
adb_escape_strips_ansi_and_escapes =
    str_eq (adb_shell_escape_command (codes "file/[0;0m|name")) (codes "file\\|name")

adb_escape_multiple_specials_together : Bool
adb_escape_multiple_specials_together =
    str_eq (adb_shell_escape_command (codes "a|b&c;d")) (codes "a\\|b\\&c\\;d")

-- Each test passes.
escape_tests_lem :
    all_pass (
      escape_path_empty ∷ escape_path_no_special_chars ∷ escape_path_single_quote
      ∷ escape_path_double_quote_is_literal ∷ escape_path_both_quotes
      ∷ escape_path_backslash_is_literal ∷ escape_path_multiple_single_quotes
      ∷ escape_path_only_quotes ∷ escape_command_empty ∷ escape_command_no_special_chars
      ∷ escape_command_backslash ∷ escape_command_single_quote ∷ escape_command_backtick
      ∷ escape_command_all_three ∷ escape_command_double_backslash ∷ adb_escape_empty
      ∷ adb_escape_no_special_chars ∷ adb_escape_backslash ∷ adb_escape_parentheses
      ∷ adb_escape_single_quote ∷ adb_escape_backtick ∷ adb_escape_pipe ∷ adb_escape_ampersand
      ∷ adb_escape_semicolon ∷ adb_escape_angle_brackets ∷ adb_escape_star ∷ adb_escape_hash
      ∷ adb_escape_percent ∷ adb_escape_equals ∷ adb_escape_tilde ∷ adb_escape_all_special_chars
      ∷ adb_escape_strips_ansi_codes ∷ adb_escape_strips_ansi_and_escapes
      ∷ adb_escape_multiple_specials_together ∷ [])
    ≡ true
unfolding shell_escape_path shell_escape_command adb_shell_escape_command flat_map escape_path_empty
    escape_path_no_special_chars escape_path_single_quote escape_path_double_quote_is_literal
    escape_path_both_quotes escape_path_backslash_is_literal escape_path_multiple_single_quotes
    escape_path_only_quotes escape_command_empty escape_command_no_special_chars
    escape_command_backslash escape_command_single_quote escape_command_backtick
    escape_command_all_three escape_command_double_backslash adb_escape_empty
    adb_escape_no_special_chars adb_escape_backslash adb_escape_parentheses adb_escape_single_quote
    adb_escape_backtick adb_escape_pipe adb_escape_ampersand adb_escape_semicolon
    adb_escape_angle_brackets adb_escape_star adb_escape_hash adb_escape_percent adb_escape_equals
    adb_escape_tilde adb_escape_all_special_chars adb_escape_strips_ansi_codes
    adb_escape_strips_ansi_and_escapes adb_escape_multiple_specials_together
escape_tests_lem = refl
