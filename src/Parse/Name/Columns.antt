-- ===== src/Parse/Name/Columns.antt =====
-- src/parse.rs: `extract_filename` on the lines that `ls -l` prints.
use adbfs_rust.Base.{
  ℕ, ◌<◌, Str, codes, ltb, false, [], ◌∷◌, ◌++◌, some, ok, ◌≡◌, ◌≢◌, refl, arith, All, find,
  contains, starts_with, byte_len, utf8_char,
}
use adbfs_rust.Parse.Name.{arrow, extract_filename, slice_from, before_arrow, name_or_none}

find_colon :
    (head v : Str)
    → All (λ c. c ≢ b':') head
    → find (head ++ b':' ∷ v) (codes ":") ≡ some (head, b':' ∷ v)
find_colon [] v h = ground arith
find_colon (c ∷ head) v (h, hs) = ground (arith, find_colon head v hs)

-- An arrow that begins in the name ends in it, or with the space behind it.
starts_with-arrow :
    (c : ℕ) (name target : Str)
    → starts_with (c ∷ (name ++ arrow ++ target)) arrow
      ≡ starts_with (c ∷ (name ++ codes " ")) arrow
starts_with-arrow c [] target = ground arith
starts_with-arrow c (d ∷ []) target = ground arith
starts_with-arrow c (d ∷ e ∷ []) target = ground arith
starts_with-arrow c (d ∷ e ∷ f ∷ name) target = ground arith

-- The first arrow, where none begins earlier.
find-arrow :
    (name target : Str)
    → contains (name ++ codes " ") arrow ≡ false
    → find (name ++ arrow ++ target) arrow ≡ some (name, arrow ++ target)
find-arrow [] target h = ground arith
find-arrow (c ∷ name) target h =
    ground (arith, starts_with-arrow c name target, find-arrow name target)

-- A line: the text before the time's colon, two minutes, a space, and what follows.
abbrev pub line_of : Str → ℕ → ℕ → Str → Str
line_of head m1 m2 rest = head ++ b':' ∷ m1 ∷ m2 ∷ b' ' ∷ rest

before_arrow-absent : (name : Str) → contains name arrow ≡ false → before_arrow name ≡ name
unfolding before_arrow
before_arrow-absent name h = ground arith

before_arrow-arrow :
    (name target : Str)
    → contains (name ++ codes " ") arrow ≡ false
    → before_arrow (name ++ arrow ++ target) ≡ name
unfolding before_arrow
before_arrow-arrow name target h = ground (arith, find-arrow name target h)

name_or_none-ok : (name : Str) → name ≢ [] → name_or_none name ≡ ok name
unfolding name_or_none
name_or_none-ok [] ne = absurd (ne refl)
name_or_none-ok (c ∷ name) ne = refl

ascii : (c : ℕ) → c < 0x80 → utf8_char c ≡ c ∷ []
ascii c h = ground arith

slice-minutes :
    (m1 m2 : ℕ) (rest : Str)
    → m1 < 0x80
    → m2 < 0x80
    → slice_from 4 (b':' ∷ m1 ∷ m2 ∷ b' ' ∷ rest) ≡ ok rest
unfolding slice_from
slice-minutes m1 m2 rest h k = rw (ascii m1 h, ascii m2 k)

long_enough :
    (m1 m2 : ℕ) (rest : Str)
    → m1 < 0x80
    → m2 < 0x80
    → ltb (byte_len (b':' ∷ m1 ∷ m2 ∷ b' ' ∷ rest)) 4 ≡ false
long_enough m1 m2 rest h k = rw (ascii m1 h, ascii m2 k) (ground arith)

module _ (head : Str) (m1 m2 : ℕ) (no_colon : All (λ c. c ≢ b':') head) (d1 : m1 < 0x80)
    (d2 : m2 < 0x80) where
  extract_rest :
      (rest : Str) → extract_filename (line_of head m1 m2 rest) ≡ name_or_none (before_arrow rest)
  unfolding extract_filename
  extract_rest rest = rw (
    find_colon head (m1 ∷ m2 ∷ b' ' ∷ rest) no_colon,
    long_enough m1 m2 rest d1 d2,
    ascii m1 d1,
    ascii m2 d2,
  )

  -- A name that holds no arrow is given back whole, spaces and colons included.
  pub extract_filename-plain :
      (name : Str)
      → name ≢ []
      → contains name arrow ≡ false
      → extract_filename (line_of head m1 m2 name) ≡ ok name
  extract_filename-plain name ne absent =
      rw (extract_rest name, before_arrow-absent name absent) (name_or_none-ok name ne)

  -- What stands from the first arrow on is cut off, whatever type of file the line is about.
  pub extract_filename-arrow :
      (name target : Str)
      → name ≢ []
      → contains (name ++ codes " ") arrow ≡ false
      → extract_filename (line_of head m1 m2 (name ++ arrow ++ target)) ≡ ok name
  extract_filename-arrow name target ne absent =
      rw (extract_rest (name ++ arrow ++ target), before_arrow-arrow name target absent)
        (name_or_none-ok name ne)
