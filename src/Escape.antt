-- ===== src/Escape.antt =====
-- src/escape.rs: the escaping of paths and commands for a shell. The proofs are in the modules below.
pub mod Path
pub mod Command
pub mod Strip
pub mod Words
pub mod Escaped
pub mod Quotes
use mathlib.Core.List.{foldl}
use adbfs_rust.Base.{
  ℕ, Str, codes, ◌==◌, if◌then◌else◌, Bool, true, false, ◌&&◌, not, List, [], ◌∷◌, ◌++◌, Option,
  none, some, replace_char, starts_with, length, zero, suc, ◌-◌,
}

-- Ends the quote, gives an escaped quote, and opens the quote again: `'\''`.
abbrev pub quote_escape : Str
quote_escape = b'\'' ∷ b'\\' ∷ b'\'' ∷ b'\'' ∷ []

unfoldable pub shell_escape_path : Str → Str
unfolding replace_char
shell_escape_path path = replace_char b'\'' quote_escape path

-- A backslash and the character.
abbrev pub backslashed : ℕ → Str
backslashed c = b'\\' ∷ c ∷ []

unfoldable pub shell_escape_command : Str → Str
unfolding replace_char
shell_escape_command cmd =
    let s = replace_char b'\\' (backslashed b'\\') cmd in
    let t = replace_char b'\'' (backslashed b'\'') s in replace_char b'`' (backslashed b'`') t

-- `ADB_ESCAPE_CHARS` without its first, the backslash.
abbrev pub adb_escape_chars : List ℕ
adb_escape_chars = codes "()'`|&;<>*#%=~"

abbrev pub ansi_strip_patterns : List Str
ansi_strip_patterns = codes "/[0;0m" ∷ codes "/[1;32m" ∷ codes "/[1;34m" ∷ codes "/[1;36m" ∷ []

-- `s.replace(pattern, "")` for a pattern that is not empty: the matches from left to right that do
-- not overlap. The number is what is left to skip of a match.
strip_from : Str → ℕ → Str → Str
strip_from p n [] = []
strip_from p (suc n) (c ∷ s) = strip_from p n s
strip_from p zero (c ∷ s) =
    let skipped = strip_from p (length p - 1) s in
    let kept = strip_from p zero s in if starts_with (c ∷ s) p then skipped else c ∷ kept

unfoldable pub strip : Str → Str → Str
unfolding strip_from
strip s p = strip_from p 0 s

-- The first loop of `adb_shell_escape_command`.
unfoldable pub strip_ansi : Str → Str
unfolding strip
strip_ansi cmd = foldl strip cmd ansi_strip_patterns

-- One round of its second loop.
unfoldable pub escape_one : Str → ℕ → Str
unfolding replace_char
escape_one s ch = replace_char ch (backslashed ch) s

unfoldable pub adb_shell_escape_command : Str → Str
unfolding strip_ansi escape_one
adb_shell_escape_command cmd =
    let s = replace_char b'\\' (backslashed b'\\') (strip_ansi cmd) in
    foldl escape_one s adb_escape_chars

-- What a POSIX shell makes of a fully quoted word: a quote toggles, and a backslash escapes the next
-- character outside quotes. This is the program's own test model.
pub data Mode : Type 0 where
  plain quoted escaping : Mode

unfoldable pub shell_unquote_loop : Str → Mode → Str → Option Str
shell_unquote_loop [] plain out = some out
shell_unquote_loop [] quoted out = none
shell_unquote_loop [] escaping out = none
shell_unquote_loop (c ∷ s) escaping out = shell_unquote_loop s plain (out ++ c ∷ [])
shell_unquote_loop (c ∷ s) quoted out =
    let closed = shell_unquote_loop s plain out in
    let pushed = shell_unquote_loop s quoted (out ++ c ∷ []) in
    if c == b'\'' then closed else pushed
shell_unquote_loop (c ∷ s) plain out =
    let opened = shell_unquote_loop s quoted out in
    let escaped = shell_unquote_loop s escaping out in
    let pushed = shell_unquote_loop s plain (out ++ c ∷ []) in
    if c == b'\'' then opened else if c == b'\\' then escaped else pushed

unfoldable pub shell_unquote : Str → Option Str
unfolding shell_unquote_loop
shell_unquote s = shell_unquote_loop s plain []
