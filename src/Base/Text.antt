-- ===== src/Base/Text.antt =====
-- Rust's `str` as the list of its characters, and the methods of it that the program calls. A byte
-- position in a text is given by the text before it; `utf8` is the text's bytes.
use Prim.Native.Nat.{ℕ, ◌+◌, ◌/◌, ◌%◌}
use Prim.Native.Char.{code}
use Prim.Native.String.{String}
use mathlib.Core.Path.{◌≡◌, refl, ap}
use mathlib.Core.Logic.{◌≢◌, ◌↔◌}
use mathlib.Core.Bool.{Bool, true, false, ◌&&◌, ◌||◌}
use mathlib.Core.Option.{Option, none, some}
use mathlib.Core.List.{List, [], ◌∷◌, ◌++◌, flat_map, reverse}
use native.Mathlib.Omega.{arith}
use adbfs_rust.Base.Tests.{ltb, leb, ◌==◌, if◌then◌else◌, Eq}
use adbfs_rust.Base.Lists.{length, length-append}

abbrev pub Str : Type 0
Str = List ℕ

-- A literal's code points.
abbrev pub codes : String → Str
codes String.[] = []
codes (String.◌∷◌ c s) = code c ∷ codes s

abbrev pub str_eq : Str → Str → Bool
str_eq [] [] = true
str_eq [] (d ∷ t) = false
str_eq (c ∷ s) [] = false
str_eq (c ∷ s) (d ∷ t) = c == d && str_eq s t

pub str_eq_iff : (s t : Str) → (str_eq s t ≡ true) ↔ (s ≡ t)
str_eq_iff [] [] = ground arith
str_eq_iff [] (d ∷ t) = ground arith
str_eq_iff (c ∷ s) [] = ground arith
str_eq_iff (c ∷ s) (d ∷ t) = ground (arith, str_eq_iff s t)

instance abbrev pub text_eq : Eq Str
text_eq = record { beq = str_eq; beq_iff = str_eq_iff }

abbrev pub is_empty : Str → Bool
is_empty [] = true
is_empty (c ∷ s) = false

-- `s.strip_prefix(p)`
abbrev pub strip_prefix : Str → Str → Option Str
strip_prefix s [] = some s
strip_prefix [] (d ∷ p) = none
strip_prefix (c ∷ s) (d ∷ p) = if c == d then strip_prefix s p else none

abbrev pub starts_with : Str → Str → Bool
starts_with s p = elim (strip_prefix s p) [ none ↦ false | some r ↦ true ]

abbrev pub ends_with : Str → Str → Bool
ends_with s p = starts_with (reverse s) (reverse p)

-- `s.find(p)`: the text before the first match, and the text from the match on.
abbrev pub find : Str → Str → Option (Str × Str)
find [] p = if is_empty p then some ([], []) else none
find (c ∷ s) p =
    let later : Option (Str × Str) = elim (find s p) [
      | none ↦ none
      | some (u, v) ↦ some (c ∷ u, v)
    ] in
    if starts_with (c ∷ s) p then some ([], c ∷ s) else later

abbrev pub contains : Str → Str → Bool
contains s p = elim (find s p) [ none ↦ false | some r ↦ true ]

-- `s.rfind(c)`: the text before the last `c`, and the text from it on.
abbrev pub rfind : Str → ℕ → Option (Str × Str)
rfind [] d = none
rfind (c ∷ s) d = elim (rfind s d) [
  | none ↦ if c == d then some ([], c ∷ s) else none
  | some (u, v) ↦ some (c ∷ u, v)
]

-- `s.split(c).collect()`: one part more than there are separators.
abbrev pub split : Str → ℕ → List Str
split [] d = [] ∷ []
split (c ∷ s) d =
    let rest = split s d in
    if c == d then [] ∷ rest else elim rest [ [] ↦ (c ∷ []) ∷ [] | p ∷ ps ↦ (c ∷ p) ∷ ps ]

-- `s.replace(c, to)` of one character.
unfoldable pub replace_char : ℕ → Str → Str → Str
replace_char d to = flat_map (λ c. if c == d then to else c ∷ [])

-- `char::is_whitespace`: Unicode's White_Space.
abbrev pub is_whitespace : ℕ → Bool
is_whitespace c =
    (leb 9 c && leb c 13)
    || c == 32
    || c == 0x85
    || c == 0xa0
    || c == 0x1680
    || (leb 0x2000 c && leb c 0x200a)
    || c == 0x2028
    || c == 0x2029
    || c == 0x202f
    || c == 0x205f
    || c == 0x3000

abbrev pub drop_while : (ℕ → Bool) → Str → Str
drop_while p [] = []
drop_while p (c ∷ s) = let rest = drop_while p s in if p c then rest else c ∷ s

abbrev pub trim_end_matches : ℕ → Str → Str
trim_end_matches d s = reverse (drop_while (λ c. c == d) (reverse s))

abbrev pub trim : Str → Str
trim s = reverse (drop_while is_whitespace (reverse (drop_while is_whitespace s)))

abbrev pub to_ascii_lowercase : Str → Str
to_ascii_lowercase [] = []
to_ascii_lowercase (c ∷ s) = (if leb b'A' c && leb c b'Z' then c + 32 else c) ∷ to_ascii_lowercase s

-- The UTF-8 encoding of a character.
abbrev pub utf8_char : ℕ → List ℕ
utf8_char c =
    if ltb c 0x80
    then c ∷ []
    else if ltb c 0x800
    then (0xc0 + c / 64) ∷ (0x80 + c % 64) ∷ []
    else if ltb c 0x10000
    then (0xe0 + c / 4096) ∷ (0x80 + c / 64 % 64) ∷ (0x80 + c % 64) ∷ []
    else (0xf0 + c / 262144) ∷ (0x80 + c / 4096 % 64) ∷ (0x80 + c / 64 % 64) ∷ (0x80 + c % 64) ∷ []

abbrev pub utf8 : Str → List ℕ
utf8 [] = []
utf8 (c ∷ s) = utf8_char c ++ utf8 s

-- `s.len()` counts bytes.
abbrev pub byte_len : Str → ℕ
byte_len [] = 0
byte_len (c ∷ s) = length (utf8_char c) + byte_len s

pub strip_prefix-append : (p r : Str) → strip_prefix (p ++ r) p ≡ some r
strip_prefix-append [] [] = refl
strip_prefix-append [] (c ∷ r) = refl
strip_prefix-append (c ∷ p) r = ground (arith, strip_prefix-append p r)

pub strip_prefix_sound : (s p : Str) {r : Str} → strip_prefix s p ≡ some r → s ≡ p ++ r
strip_prefix_sound [] [] h = ground arith
strip_prefix_sound (c ∷ s) [] h = ground arith
strip_prefix_sound [] (d ∷ p) h = cc
strip_prefix_sound (c ∷ s) (d ∷ p) {r} h = ground (arith, strip_prefix_sound s p {r = r})

pub append-cancel : (p : Str) {s t : Str} → p ++ s ≡ p ++ t → s ≡ t
append-cancel [] h = h
append-cancel (c ∷ p) {s} {t} h = append-cancel p {s = s} {t = t} (cc)

pub append-ne_self : (p : Str) (c : ℕ) (r : Str) → p ++ c ∷ r ≢ p
append-ne_self p c r h = absurd (omega (arith, length-append p (c ∷ r), ap length h))
