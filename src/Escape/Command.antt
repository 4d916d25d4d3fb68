-- ===== src/Escape/Command.antt =====
-- src/escape.rs: the two command escapes against one pass over the text.
use mathlib.Core.List.{flat_map, foldl}
use adbfs_rust.Base.{
  ℕ, Str, codes, ◌==◌, if◌then◌else◌, Bool, false, ◌||◌, List, [], ◌∷◌, ◌++◌, append-nil,
  append_assoc, ◌≡◌, ◌≢◌, refl, arith, replace_char,
}
use adbfs_rust.Escape.{
  shell_escape_command, adb_shell_escape_command, adb_escape_chars, escape_one, strip_ansi,
  backslashed,
}

abbrev pub elem : ℕ → List ℕ → Bool
elem c [] = false
elem c (d ∷ ds) = c == d || elem c ds

-- One pass that puts a backslash in front of each character of the set.
abbrev pub escape_char : List ℕ → ℕ → Str
escape_char set c = if elem c set then backslashed c else c ∷ []

unfoldable pub escape_once : List ℕ → Str → Str
unfolding flat_map
escape_once set = flat_map (escape_char set)

replace_char-append :
    (d : ℕ) (to s t : Str) → replace_char d to (s ++ t) ≡ replace_char d to s ++ replace_char d to t
unfolding replace_char flat_map
replace_char-append d to [] t = refl
replace_char-append d to (c ∷ s) t = rw (replace_char-append d to s t, append_assoc)

elem-append : (c : ℕ) (xs ys : List ℕ) → elem c (xs ++ ys) ≡ (elem c xs || elem c ys)
elem-append c [] ys = refl
elem-append c (x ∷ xs) ys = ground (arith, elem-append c xs ys)

-- Replacing a new character leaves what is escaped already as it is.
replace_char-escape_char :
    (d c : ℕ) (set : List ℕ)
    → d ≢ b'\\'
    → elem d set ≡ false
    → replace_char d (backslashed d) (escape_char set c) ≡ escape_char (set ++ d ∷ []) c
unfolding replace_char flat_map
replace_char-escape_char d c set nb fresh = ground (arith, elem-append c set (d ∷ []))

escape_one-escape_once :
    (d : ℕ) (set : List ℕ) (s : Str)
    → d ≢ b'\\'
    → elem d set ≡ false
    → escape_one (escape_once set s) d ≡ escape_once (set ++ d ∷ []) s
unfolding escape_one escape_once flat_map
escape_one-escape_once d set [] nb fresh = unfold replace_char in refl
escape_one-escape_once d set (c ∷ s) nb fresh = rw (
  replace_char-append,
  replace_char-escape_char d c set nb fresh,
  escape_one-escape_once d set s nb fresh,
)

-- The characters are new one after the other.
abbrev Fresh : List ℕ → List ℕ → Type 0
Fresh set [] = Unit
Fresh set (d ∷ ds) = (d ≢ b'\\') × (elem d set ≡ false) × Fresh (set ++ d ∷ []) ds

foldl-escape_one :
    (ds set : List ℕ) (s : Str)
    → Fresh set ds
    → foldl escape_one (escape_once set s) ds ≡ escape_once (set ++ ds) s
foldl-escape_one [] set s h = rw append-nil
foldl-escape_one (d ∷ ds) set s (nb, fresh, more) = rw (
  escape_one-escape_once d set s nb fresh,
  foldl-escape_one ds (set ++ d ∷ []) s more,
  append_assoc,
)

replace_backslash :
    (s : Str) → replace_char b'\\' (backslashed b'\\') s ≡ escape_once (b'\\' ∷ []) s
unfolding replace_char escape_once flat_map
replace_backslash [] = refl
replace_backslash (c ∷ s) = rw (replace_backslash s) (ground arith)

-- The three replacements of `shell_escape_command` put a backslash before each backslash, quote and
-- backquote of the text, and nowhere else.
shell_escape_command-escape_once :
    (cmd : Str) → shell_escape_command cmd ≡ escape_once (codes "\\'`") cmd
unfolding shell_escape_command escape_one
shell_escape_command-escape_once cmd =
    rw replace_backslash (foldl-escape_one (codes "'`") (codes "\\") cmd (ground arith))

-- The fifteen replacements of `adb_shell_escape_command` escape each of the fifteen characters of the
-- stripped text once.
pub adb_shell_escape_command-escape_once :
    (cmd : Str)
    → adb_shell_escape_command cmd ≡ escape_once (b'\\' ∷ adb_escape_chars) (strip_ansi cmd)
unfolding adb_shell_escape_command
adb_shell_escape_command-escape_once cmd =
    rw replace_backslash
      (foldl-escape_one adb_escape_chars (codes "\\") (strip_ansi cmd) (ground arith))
