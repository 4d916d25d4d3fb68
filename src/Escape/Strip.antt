-- ===== src/Escape/Strip.antt =====
-- src/escape.rs: the stripping of colour codes, on commands that have none.
use mathlib.Core.List.{foldl}
use adbfs_rust.Base.{Str, false, List, [], ◌∷◌, ◌≡◌, refl, arith, contains, is_empty, All}
use adbfs_rust.Escape.{strip, strip_from, strip_ansi, ansi_strip_patterns}

strip_from-eq_of_absent :
    (p s : Str) → is_empty p ≡ false → contains s p ≡ false → strip_from p 0 s ≡ s
unfolding strip_from
strip_from-eq_of_absent p [] ne absent = refl
strip_from-eq_of_absent p (c ∷ s) ne absent = ground (arith, strip_from-eq_of_absent p s)

foldl-strip :
    (ps : List Str) (s : Str)
    → All (λ p. is_empty p ≡ false) ps
    → All (λ p. contains s p ≡ false) ps
    → foldl strip s ps ≡ s
unfolding strip
foldl-strip [] s _ _ = refl
foldl-strip (p ∷ ps) s (ne, nes) (absent, absents) =
    rw (strip_from-eq_of_absent p s ne absent) (foldl-strip ps s nes absents)

-- A command that holds none of the colour codes is not changed by the stripping.
pub strip_ansi-eq_of_absent :
    (cmd : Str) → All (λ p. contains cmd p ≡ false) ansi_strip_patterns → strip_ansi cmd ≡ cmd
unfolding strip_ansi
strip_ansi-eq_of_absent cmd absent =
    foldl-strip ansi_strip_patterns cmd (refl, (refl, (refl, (refl, tt)))) absent
