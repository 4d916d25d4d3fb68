-- ===== src/Parse/Fields/Words.antt =====
-- src/parse.rs: `split_fields` on columns of words with spaces between them.
use adbfs_rust.Base.{
  ℕ, zero, suc, ◌+◌, ◌/◌, ◌%◌, ◌<◌, Str, ltb, false, Bool-cases, inl, inr, List, [], ◌∷◌, ◌++◌, map,
  is_empty, is_whitespace, ◌≡◌, refl, ap, ◌∙◌, arith, All, append-nil, append_assoc, show, digits,
}
use adbfs_rust.Parse.Fields.{split_fields, fields_from}

-- Text without white space, of at least one character.
abbrev pub IsWord : Str → Type 0
IsWord w = (is_empty w ≡ false) × All (λ c. is_whitespace c ≡ false) w

abbrev pub spaces : ℕ → Str
spaces zero = []
spaces (suc k) = b' ' ∷ spaces k

-- Words, each with the number of spaces behind the first one that follows it, before a rest.
abbrev pub columns : List (Str × ℕ) → Str → Str
columns [] rest = rest
columns ((w, k) ∷ cs) rest = w ++ b' ' ∷ (spaces k ++ columns cs rest)

fields_from-word :
    (word w s : Str)
    → is_empty (word ++ w) ≡ false
    → All (λ c. is_whitespace c ≡ false) w
    → fields_from word (w ++ b' ' ∷ s) ≡ (word ++ w) ∷ fields_from [] s
unfolding fields_from
fields_from-word word [] s some_text solid = rw (append-nil word) (ground (arith, append-nil word))
fields_from-word word (c ∷ w) s some_text (now, solid) =
    ground (arith, fields_from-word (word ++ c ∷ []) w s, append_assoc word (c ∷ []) w)

fields_from-spaces : (k : ℕ) (s : Str) → fields_from [] (spaces k ++ s) ≡ fields_from [] s
unfolding fields_from
fields_from-spaces zero s = refl
fields_from-spaces (suc k) s = fields_from-spaces k s

-- The fields of a line are its words, however many spaces stand between them.
pub split_fields-columns :
    (cs : List (Str × ℕ)) (rest : Str)
    → All (λ c. IsWord c.0) cs
    → split_fields (columns cs rest) ≡ map (λ c. c.0) cs ++ split_fields rest
unfolding split_fields
split_fields-columns [] rest h = refl
split_fields-columns ((w, k) ∷ cs) rest ((some_text, solid), hs) =
    fields_from-word [] w (spaces k ++ columns cs rest) some_text solid
    ∙ ap (λ fs. w ∷ fs) (fields_from-spaces k (columns cs rest) ∙ split_fields-columns cs rest hs)

solid_digit : (d : ℕ) → d < 10 → is_whitespace (b'0' + d) ≡ false
solid_digit d h = ground arith

digits_solid :
    (f n : ℕ) (out : Str)
    → All (λ c. is_whitespace c ≡ false) out
    → All (λ c. is_whitespace c ≡ false) (digits f n out)
unfolding digits
digits_solid zero n out h = h
digits_solid (suc f) n out h = elim (Bool-cases (ltb n 10)) [
  | inl one ↦ rw one (solid_digit n (ground arith), h)
  | inr more ↦
      rw more
        (digits_solid f (n / 10) ((b'0' + n % 10) ∷ out) (solid_digit (n % 10) (omega arith), h))
]

digits_some : (f n : ℕ) (out : Str) → n < f → is_empty (digits f n out) ≡ false
unfolding digits
digits_some zero n out fuel = absurd (omega arith)
digits_some (suc f) n out fuel = elim (Bool-cases (ltb n 10)) [
  | inl one ↦ rw one refl
  | inr more ↦ rw more (digits_some f (n / 10) ((b'0' + n % 10) ∷ out) (ground arith))
]

-- A number prints as a word.
pub show-IsWord : (n : ℕ) → IsWord (show n)
unfolding show
show-IsWord n = (digits_some (n + 1) n [] (omega arith), digits_solid (n + 1) n [] tt)
