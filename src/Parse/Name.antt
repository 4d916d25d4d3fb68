-- ===== src/Parse/Name.antt =====
-- src/parse.rs: `extract_filename` and `parse_symlink_target`.
pub mod Link
pub mod Columns
use adbfs_rust.Base.{
  ℕ, zero, suc, ◌+◌, ◌-◌, ◌*◌, ◌%◌, ◌^◌, Str, codes, ◌==◌, ltb, leb, if◌then◌else◌, Bool, true,
  false, not, ◌&&◌, ◌||◌, List, [], ◌∷◌, ◌++◌, Option, none, some, ℤ, pos, negsuc, Result, ok, err,
  panicked, ◌>>=◌, bit_and, bit_or, get_elem?, length, drop, utf8, is_empty, is_whitespace,
  contains, find, split, starts_with, strip_prefix, drop_while, trim_end_matches, parse_unsigned,
  parse_i32, utf8_char, byte_len, ◌≡◌, refl,
}
use adbfs_rust.Parse.Meta.{Partial, try}

-- `&s[n..]`: it panics inside a character.
slice_from : ℕ → Str → Partial Str
slice_from zero s = ok s
slice_from (suc n) [] = panicked
slice_from (suc n) (c ∷ s) =
    let rest = slice_from (suc n - length (utf8_char c)) s in
    if ltb n (length (utf8_char c) - 1) then panicked else rest

abbrev pub arrow : Str
arrow = codes " -> "

-- The name without what stands from the first arrow on.
unfoldable pub before_arrow : Str → Str
before_arrow name = elim (find name arrow) [ none ↦ name | some (before, _) ↦ before ]

-- `None` for an empty name.
name_or_none : Str → Partial Str
name_or_none name = if is_empty name then err tt else ok name

unfoldable pub extract_filename : Str → Partial Str
unfolding slice_from before_arrow name_or_none
extract_filename line = do
  (_, from_colon) ← try (find line (codes ":"))
  if ltb (byte_len from_colon) 4
      then err tt
      else (do name ← slice_from 4 from_colon; name_or_none (before_arrow name))

-- `s.repeat(n)`
unfoldable pub repeat : Str → ℕ → Str
repeat s zero = []
repeat s (suc n) = s ++ repeat s n

-- An absolute target, from a link at this depth.
unfoldable pub relativize : ℕ → Str → Str
unfolding repeat
relativize num_slashes target =
    repeat (codes "../") (num_slashes - 1) ++ drop_while (λ c. c == b'/') target

unfoldable pub parse_symlink_target : Str → ℕ → Option Str
unfolding relativize
parse_symlink_target ls_line num_slashes = elim (find ls_line arrow) [
  | none ↦ none
  | some (_, from_arrow) ↦
      let target = drop 4 from_arrow in
      if is_empty target
      then none
      else if starts_with target (codes "/")
      then some (relativize num_slashes target)
      else some target
]
