-- ===== src/Parse/Line/Plain.antt =====
-- src/parse.rs: the name in a line that `ls -l` prints, behind the colon of the time.
use adbfs_rust.Base.{
  ◌==◌, ℕ, zero, suc, ◌+◌, ◌/◌, ◌%◌, ◌<◌, Str, ltb, Bool, true, false, Bool-cases, inl, inr,
  if◌then◌else◌, List, [], ◌∷◌, ◌++◌, ok, ◌≡◌, ◌≢◌, refl, ap, sym, ◌∙◌, arith, All, All-append,
  append_assoc, show, digits, contains, drop, byte_len, utf8_char, length, ◌≤◌,
}
use adbfs_rust.Parse.Mode.{is_valid_ls_output}
use adbfs_rust.Parse.Mode.Bits.{Kind, Rights, kind_char, mode_text, all_modes, all_modes_sound}
use adbfs_rust.Parse.Fields.Words.{spaces, columns}
use adbfs_rust.Parse.Name.{arrow, extract_filename}
use adbfs_rust.Parse.Name.Columns.{line_of, extract_filename-plain}
use adbfs_rust.Parse.Line.Printed.{Listed, listed, mode_column, free_of, free_of-All}

abbrev Uncolon : Str → Type 0
Uncolon s = All (λ c. (c == b':') ≡ false) s

columns-append : (cs : List (Str × ℕ)) (a b : Str) → columns cs (a ++ b) ≡ columns cs a ++ b
columns-append [] a b = refl
columns-append ((w, k) ∷ cs) a b =
    ap (λ t. w ++ b' ' ∷ (spaces k ++ t)) (columns-append cs a b)
    ∙ ap (λ t. w ++ b' ' ∷ t) (sym (append_assoc (spaces k) (columns cs a) b))
    ∙ sym (append_assoc w (b' ' ∷ (spaces k ++ columns cs a)) b)

columns-Uncolon :
    (cs : List (Str × ℕ)) (a : Str) → All (λ c. Uncolon c.0) cs → Uncolon a → Uncolon (columns cs a)
columns-Uncolon [] a h ha = ha
columns-Uncolon ((w, k) ∷ cs) a (hw, hs) ha =
    All-append (λ c. (c == b':') ≡ false) w (b' ' ∷ (spaces k ++ columns cs a)) hw
      (
        refl,
        All-append (λ c. (c == b':') ≡ false) (spaces k) (columns cs a) (spaces-Uncolon k)
            (columns-Uncolon cs a hs ha),
      )
  where
    spaces-Uncolon : (k : ℕ) → Uncolon (spaces k)
    spaces-Uncolon zero = tt
    spaces-Uncolon (suc k) = (refl, spaces-Uncolon k)

digit : (d : ℕ) → d < 10 → ((b'0' + d) == b':') ≡ false
digit d h = ground arith

digits-Uncolon : (f n : ℕ) (out : Str) → Uncolon out → Uncolon (digits f n out)
unfolding digits
digits-Uncolon zero n out h = h
digits-Uncolon (suc f) n out h = elim (Bool-cases (ltb n 10)) [
  | inl one ↦ rw one (digit n (ground arith), h)
  | inr more ↦
      rw more (digits-Uncolon f (n / 10) ((b'0' + n % 10) ∷ out) (digit (n % 10) (omega arith), h))
]

show-Uncolon : (n : ℕ) → Uncolon (show n)
unfolding show
show-Uncolon n = digits-Uncolon (n + 1) n [] tt

abbrev is_colon : ℕ → Bool
is_colon c = c == b':'

colon_table : all_modes (λ k u g o. free_of is_colon (mode_text k u g o)) ≡ true
unfolding all_modes
colon_table = refl

mode_text-Uncolon : (k : Kind) (u g o : Rights) → Uncolon (mode_text k u g o)
mode_text-Uncolon k u g o =
    free_of-All is_colon (mode_text k u g o)
      (all_modes_sound (λ k u g o. free_of is_colon (mode_text k u g o)) colon_table k u g o)

valid_line : (s : Str) → all_modes (λ k u g o. is_valid_ls_output (mode_text k u g o ++ s)) ≡ true
unfolding is_valid_ls_output all_modes
valid_line s = refl

utf8_char_some : (c : ℕ) → 1 ≤ length (utf8_char c)
utf8_char_some c = ground arith

long_line : (a b c : ℕ) (s : Str) → ltb (byte_len (a ∷ b ∷ c ∷ s)) 3 ≡ false
long_line a b c s =
    at_least_3 (length (utf8_char a)) (length (utf8_char b)) (length (utf8_char c)) (byte_len s)
      (utf8_char_some a) (utf8_char_some b) (utf8_char_some c)
  where
    at_least_3 : (x y z n : ℕ) → 1 ≤ x → 1 ≤ y → 1 ≤ z → ltb (x + (y + (z + n))) 3 ≡ false
    at_least_3 x y z n hx hy hz = ground arith

no_colon : (s : Str) → Uncolon s → All (λ c. c ≢ b':') s
no_colon [] h = tt
no_colon (c ∷ s) (h, hs) = (ground arith, no_colon s hs)

-- The columns before the time.
abbrev before : Listed → List (Str × ℕ)
before l =
    (mode_column l, l.gap 0)
    ∷ (show l.links, l.gap 1)
    ∷ (l.user, l.gap 2)
    ∷ (l.group, l.gap 3)
    ∷ (show l.size, l.gap 4)
    ∷ (l.date, l.gap 5)
    ∷ []

-- A line whose time is written `hour:m1m2`, and whose name, not empty and without an arrow, stands one
-- space behind it; no column before the time has a colon.
pub record IsPlain (l : Listed) : Type 0 where
  pub hour : Str
  pub m1 : ℕ
  pub m2 : ℕ
  pub time_text : l.time ≡ hour ++ b':' ∷ m1 ∷ m2 ∷ []
  pub ascii1 : m1 < 0x80
  pub ascii2 : m2 < 0x80
  pub one_space : l.gap 6 ≡ 0
  pub user_plain : Uncolon l.user
  pub group_plain : Uncolon l.group
  pub date_plain : Uncolon l.date
  pub hour_plain : Uncolon hour
  pub name_some : l.name ≢ []
  pub name_plain : contains l.name arrow ≡ false

listed-line_of :
    (l : Listed) (p : IsPlain l) → listed l ≡ line_of (columns (before l) p.hour) p.m1 p.m2 l.name
listed-line_of l p =
    ap (λ t. columns (before l) (t ++ b' ' ∷ (spaces (l.gap 6) ++ l.name))) p.time_text
    ∙ ap
        (λ g.
          columns (before l) ((p.hour ++ b':' ∷ p.m1 ∷ p.m2 ∷ []) ++ b' ' ∷ (spaces g ++ l.name)))
        p.one_space
    ∙ ap (columns (before l)) (append_assoc p.hour (b':' ∷ p.m1 ∷ p.m2 ∷ []) (b' ' ∷ l.name))
    ∙ columns-append (before l) p.hour (b':' ∷ p.m1 ∷ p.m2 ∷ b' ' ∷ l.name)

front-Uncolon : (l : Listed) (p : IsPlain l) → Uncolon (columns (before l) p.hour)
front-Uncolon l p =
    columns-Uncolon (before l) p.hour
      (
        mode_text-Uncolon l.kind l.user_rights l.group_rights l.other_rights,
        (
          show-Uncolon l.links,
          (p.user_plain, (p.group_plain, (show-Uncolon l.size, (p.date_plain, tt)))),
        ),
      )
      p.hour_plain

-- The name in a plain line is given back.
pub extract_filename-listed : (l : Listed) → IsPlain l → extract_filename (listed l) ≡ ok l.name
extract_filename-listed l p =
    ap extract_filename (listed-line_of l p)
    ∙ extract_filename-plain (columns (before l) p.hour) p.m1 p.m2
        (no_colon (columns (before l) p.hour) (front-Uncolon l p)) p.ascii1 p.ascii2 l.name
        p.name_some p.name_plain

abbrev after_mode : Listed → Str
after_mode l = drop 10 (listed l)

-- Such a line is taken for one of `ls -l`, and is long enough for `list_dir`.
pub listed_valid : (l : Listed) → is_valid_ls_output (listed l) ≡ true
listed_valid l =
    all_modes_sound (λ k u g o. is_valid_ls_output (mode_text k u g o ++ after_mode l))
      (valid_line (after_mode l)) l.kind l.user_rights l.group_rights l.other_rights

pub listed_long : (l : Listed) → ltb (byte_len (listed l)) 3 ≡ false
listed_long l =
    long_line (kind_char l.kind) (if l.user_rights.read then b'r' else b'-')
      (if l.user_rights.write then b'w' else b'-') (drop 3 (listed l))
