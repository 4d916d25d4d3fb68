-- ===== src/Escape/Quotes.antt =====
-- src/escape.rs: the quotes in an escaped path.
use mathlib.Core.List.{flat_map}
use adbfs_rust.Base.{
  Str, codes, ◌==◌, false, [], ◌∷◌, none, ◌≡◌, refl, arith, find, replace_char, Bool-cases, inl,
  inr, ℕ,
}
use adbfs_rust.Escape.{shell_escape_path, strip, strip_from, quote_escape}

find-other :
    (c : ℕ) (t : Str)
    → (c == b'\'') ≡ false
    → find t (codes "'") ≡ none
    → find (c ∷ t) (codes "'") ≡ none
find-other c t other h = ground (arith, h)

-- Every quote in an escaped path is part of the sequence that stands for a quote.
pub find-strip-shell_escape_path :
    (path : Str) → find (strip (shell_escape_path path) quote_escape) (codes "'") ≡ none
unfolding strip strip_from shell_escape_path replace_char flat_map
find-strip-shell_escape_path [] = refl
find-strip-shell_escape_path (c ∷ path) = elim (Bool-cases (c == b'\'')) [
  | inl e ↦ rw e (find-strip-shell_escape_path path)
  | inr e ↦ rw e (ground (arith, find-strip-shell_escape_path path))
]
