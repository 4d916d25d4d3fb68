-- ===== src/Escape/Escaped.antt =====
-- src/escape.rs: what a shell on the device makes of the escaped commands.
use adbfs_rust.Base.{
  ℕ, Str, codes, ◌==◌, if◌then◌else◌, true, false, List, [], ◌∷◌, ◌++◌, ◌≡◌, nat_eq, All, is_empty,
}
use adbfs_rust.Escape.Command.{elem}
use adbfs_rust.Escape.Words.{special}

-- The open word, if there is one, behind the words before it.
abbrev closed : Str → List Str → List Str
closed word done = if is_empty word then done else done ++ word ∷ []

words_from : Str → Str → List Str → List Str
words_from [] word done = closed word done
words_from (c ∷ s) word done =
    let next = words_from s [] (closed word done) in
    let more = words_from s (word ++ c ∷ []) done in if c == b' ' then next else more

-- The words of a text between its spaces.
unfoldable pub space_words : Str → List Str
unfolding words_from
space_words s = words_from s [] []

-- No character of the text is one of these.
abbrev pub Lacks : List ℕ → Str → Type 0
Lacks set s = All (λ c. elem c set ≡ false) s

-- What a set of escaped characters has to hold for a text: all that a shell would act on in it, and
-- no space.
record IsCovered (set : List ℕ) (s : Str) : Type 0 where
  backslash : elem b'\\' set ≡ true
  quote : elem b'\'' set ≡ true
  space : elem b' ' set ≡ false
  all : All (λ c. elem c special ≡ true → elem c set ≡ true) s

-- A character that no escape covers is none that a shell acts on.
record IsInert (c : ℕ) : Type 0 where
  other_than_quote : (c == b'\'') ≡ false
  other_than_backslash : (c == b'\\') ≡ false
  ordinary : elem c special ≡ false

-- What the code leaves unescaped of the characters that a shell acts on, the space aside.
abbrev pub unescaped : List ℕ
unescaped = codes "$\"?[]{}!\n\t"
