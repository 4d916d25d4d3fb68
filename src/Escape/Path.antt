-- ===== src/Escape/Path.antt =====
-- src/escape.rs: `shell_escape_path` and the reader of single quotes.
use mathlib.Core.List.{flat_map}
use adbfs_rust.Base.{
  ℕ, Str, codes, ◌==◌, if◌then◌else◌, [], ◌∷◌, ◌++◌, append-nil, append_assoc, some, ◌≡◌, arith,
}
use adbfs_rust.Escape.{shell_escape_path, quote_escape, quoted, shell_unquote_loop, shell_unquote}

-- What one character becomes.
abbrev escaped_char : ℕ → Str
escaped_char c = if c == b'\'' then quote_escape else c ∷ []

-- Inside quotes an escaped character reads as itself and leaves the reader inside quotes.
unquote_loop-escaped_char :
    (c : ℕ) (rest out : Str)
    → shell_unquote_loop (escaped_char c ++ rest) quoted out
      ≡ shell_unquote_loop rest quoted (out ++ c ∷ [])
unfolding shell_unquote_loop
unquote_loop-escaped_char c rest out = ground arith

pub unquote_loop-shell_escape_path :
    (path rest out : Str)
    → shell_unquote_loop (shell_escape_path path ++ rest) quoted out
      ≡ shell_unquote_loop rest quoted (out ++ path)
unfolding shell_escape_path flat_map
unquote_loop-shell_escape_path [] rest out = rw append-nil
unquote_loop-shell_escape_path (c ∷ path) rest out = rw (
  append_assoc,
  unquote_loop-escaped_char c,
  unquote_loop-shell_escape_path path rest,
  append_assoc,
)

-- A shell that reads the escaped path between single quotes gets the path back, whatever characters
-- it holds.
pub shell_unquote-shell_escape_path :
    (path : Str) → shell_unquote (b'\'' ∷ shell_escape_path path ++ codes "'") ≡ some path
unfolding shell_unquote shell_unquote_loop
shell_unquote-shell_escape_path path = unquote_loop-shell_escape_path path (codes "'") []
