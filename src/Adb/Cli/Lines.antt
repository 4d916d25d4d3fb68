-- ===== src/Adb/Cli/Lines.antt =====
-- src/adb/cli.rs: the lines that `to_lines` makes of what a command prints.
use mathlib.Core.List.{reverse-append}
use adbfs_rust.Base.{
  ℕ, zero, suc, Str, utf8, trim_end_matches, List, [], ◌∷◌, ◌++◌, map, ◌≡◌, ◌≢◌, ◌⊎◌, inl, inr,
  refl, sym, ap, ◌∙◌, arith, All, All-append, append-nil, append_assoc,
}
use adbfs_rust.Adb.Cli.{Process, strip_cr, lines_from, to_lines}

abbrev pub returns : ℕ → Str
returns zero = []
returns (suc k) = b'\r' ∷ returns k

-- A text of lines, each ended by some `\r`, of which there may be none, and a `\n`.
abbrev pub printed : ℕ → List Str → Str
printed k [] = []
printed k (l ∷ ls) = l ++ returns k ++ b'\n' ∷ printed k ls

-- A line holds no line break, and does not end in `\r`.
abbrev pub IsLine : Str → Type 0
IsLine l = All (λ c. c ≢ b'\n') l × (trim_end_matches b'\r' l ≡ l)

lines_from-line :
    (l line rest : Str)
    → All (λ c. c ≢ b'\n') l
    → lines_from line (l ++ b'\n' ∷ rest) ≡ strip_cr (line ++ l) ∷ lines_from [] rest
unfolding lines_from
lines_from-line [] line rest h = ground (arith, append-nil line)
lines_from-line (c ∷ l) line rest (h, hs) =
    ground (arith, lines_from-line l (line ++ c ∷ []) rest hs, append_assoc line (c ∷ []) l)

strip_cr-cases : (s : Str) → (strip_cr s ≡ s) ⊎ (s ≡ strip_cr s ++ b'\r' ∷ [])
unfolding strip_cr
strip_cr-cases [] = inl refl
strip_cr-cases (c ∷ []) = ground arith
strip_cr-cases (c ∷ d ∷ s) = ground (arith, strip_cr-cases (d ∷ s))

trim_end-snoc : (s : Str) → trim_end_matches b'\r' (s ++ b'\r' ∷ []) ≡ trim_end_matches b'\r' s
trim_end-snoc s = rw reverse-append

trim_end-strip_cr : (s : Str) → trim_end_matches b'\r' (strip_cr s) ≡ trim_end_matches b'\r' s
trim_end-strip_cr s = elim (strip_cr-cases s) [
  | inl same ↦ ap (trim_end_matches b'\r') same
  | inr shorter ↦ sym (ap (trim_end_matches b'\r') shorter ∙ trim_end-snoc (strip_cr s))
]

trim_end-returns :
    (k : ℕ) (s : Str) → trim_end_matches b'\r' (s ++ returns k) ≡ trim_end_matches b'\r' s
trim_end-returns zero s = ap (trim_end_matches b'\r') (append-nil s)
trim_end-returns (suc k) s =
    ap (trim_end_matches b'\r') (sym (append_assoc s (b'\r' ∷ []) (returns k)))
    ∙ trim_end-returns k (s ++ b'\r' ∷ [])
    ∙ trim_end-snoc s

returns-no_break : (k : ℕ) → All (λ c. c ≢ b'\n') (returns k)
returns-no_break zero = tt
returns-no_break (suc k) = (omega arith, returns-no_break k)

lines-printed :
    (k : ℕ) (ls : List Str)
    → All IsLine ls
    → map (trim_end_matches b'\r') (lines_from [] (printed k ls)) ≡ ls
unfolding lines_from
lines-printed k [] h = refl
lines-printed k (l ∷ ls) ((whole, trimmed), hs) =
    let first : trim_end_matches b'\r' (strip_cr (l ++ returns k)) ≡ l =
      trim_end-strip_cr (l ++ returns k) ∙ trim_end-returns k l ∙ trimmed in
    rw (
      lines_from-line (l ++ returns k) [] (printed k ls)
          (All-append (λ c. c ≢ b'\n') l (returns k) whole (returns-no_break k)),
      first,
      lines-printed k ls hs,
    )

-- What a device prints as lines, however many `\r` end them, is read as these lines; the decoding of
-- the text has to give it back.
pub to_lines-printed :
    {W : Type 0} (process : Process W) (k : ℕ) (ls : List Str)
    → process.from_utf8_lossy (utf8 (printed k ls)) ≡ printed k ls
    → All IsLine ls
    → to_lines process (utf8 (printed k ls)) ≡ ls
unfolding to_lines
to_lines-printed process k ls decoded h =
    ap (λ s. map (trim_end_matches b'\r') (lines_from [] s)) decoded ∙ lines-printed k ls h
