-- ===== src/Escape/Words.antt =====
-- A reading of shell commands that is independent of the code: the words of a simple command, by the
-- quoting rules of POSIX. It refuses a command with a character outside quotes that a shell would
-- act on, so a command that has words runs as one command with just these arguments, if its first
-- word is not a reserved word such as `if`.
use adbfs_rust.Base.{
  ℕ, Str, codes, ◌==◌, if◌then◌else◌, List, [], ◌∷◌, ◌++◌, append-nil, append_assoc, Option, none,
  some, ◌≡◌, arith,
}
use adbfs_rust.Escape.{shell_escape_path, quote_escape}
use adbfs_rust.Escape.Command.{elem}
use mathlib.Core.List.{flat_map}

pub data Place : Type 0 where
  -- between two words, in an open word, in single quotes, behind a backslash
  between bare quoted escaping : Place

-- The characters that a shell acts on outside quotes: operators, expansions, patterns, comments and a
-- double quote; a line break ends a command.
abbrev pub special : List ℕ
special = codes "|&;<>()$`\"*?[]#~{}!\n\t"

-- `word` is the open word and `done` the words before it.
unfoldable pub lex : Str → Place → Str → List Str → Option (List Str)
lex [] between word done = some done
lex [] bare word done = some (done ++ word ∷ [])
lex [] quoted word done = none
lex [] escaping word done = none
lex (c ∷ s) between word done =
    let skip = lex s between [] done in
    let quote = lex s quoted [] done in
    let escape = lex s escaping [] done in
    let start = lex s bare (c ∷ []) done in
    if c == b' '
    then skip
    else if c == b'\''
    then quote
    else if c == b'\\'
    then escape
    else if elem c special
    then none
    else start
lex (c ∷ s) bare word done =
    let finish = lex s between [] (done ++ word ∷ []) in
    let quote = lex s quoted word done in
    let escape = lex s escaping word done in
    let push = lex s bare (word ++ c ∷ []) done in
    if c == b' '
    then finish
    else if c == b'\''
    then quote
    else if c == b'\\'
    then escape
    else if elem c special
    then none
    else push
lex (c ∷ s) quoted word done =
    let close = lex s bare word done in
    let push = lex s quoted (word ++ c ∷ []) done in if c == b'\'' then close else push
lex (c ∷ s) escaping word done = lex s bare (word ++ c ∷ []) done

-- The words that a shell runs the command with.
unfoldable pub shell_words : Str → Option (List Str)
unfolding lex
shell_words s = lex s between [] []

lex-escaped_char :
    (c : ℕ) (rest word : Str) (done : List Str)
    → lex ((if c == b'\'' then quote_escape else c ∷ []) ++ rest) quoted word done
      ≡ lex rest quoted (word ++ c ∷ []) done
unfolding lex
lex-escaped_char c rest word done = ground arith

-- Between quotes an escaped path adds itself to the open word.
pub lex-shell_escape_path :
    (path rest word : Str) (done : List Str)
    → lex (shell_escape_path path ++ rest) quoted word done ≡ lex rest quoted (word ++ path) done
unfolding shell_escape_path flat_map
lex-shell_escape_path [] rest word done = rw append-nil
lex-shell_escape_path (c ∷ path) rest word done = rw (
  append_assoc,
  lex-escaped_char c (shell_escape_path path ++ rest) word done,
  lex-shell_escape_path path rest (word ++ c ∷ []) done,
  append_assoc,
)
