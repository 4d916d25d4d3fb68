-- ===== src/Base/Shown.antt =====
-- What a number prints as is read back.
use Prim.Native.Nat.{ℕ, zero, suc, ◌+◌, ◌/◌, ◌%◌, ◌^◌, ◌<◌}
use mathlib.Core.Path.{◌≡◌, ◌∙◌}
use mathlib.Core.Logic.{inl, inr}
use mathlib.Core.Option.{some}
use mathlib.Core.List.{[], ◌∷◌}
use native.Mathlib.Omega.{arith}
use adbfs_rust.Base.Tests.{ltb, Bool-cases}
use adbfs_rust.Base.Text.{Str}
use adbfs_rust.Base.Numbers.{show, digits}
use adbfs_rust.Base.Integers.{read_digits, read_number, parse_unsigned}

read_digits-digits :
    (bound f n : ℕ) (out : Str)
    → n < f
    → n < bound
    → read_digits 10 bound (digits f n out) 0 ≡ read_digits 10 bound out n
unfolding read_digits digits
read_digits-digits bound zero n out fuel fits = absurd (omega arith)
read_digits-digits bound (suc f) n out fuel fits = elim (Bool-cases (ltb n 10)) [
  | inl one ↦ ground arith
  | inr more ↦ ground (arith, read_digits-digits bound f (n / 10) ((b'0' + n % 10) ∷ out))
]

parse_unsigned-digits :
    (w f n : ℕ) (out : Str)
    → n < f
    → parse_unsigned w 10 (digits f n out) ≡ read_digits 10 (2 ^ w) (digits f n out) 0
unfolding digits parse_unsigned read_number
parse_unsigned-digits w zero n out fuel = absurd (omega arith)
parse_unsigned-digits w (suc f) n out fuel = elim (Bool-cases (ltb n 10)) [
  | inl one ↦ ground arith
  | inr more ↦ ground (arith, parse_unsigned-digits w f (n / 10) ((b'0' + n % 10) ∷ out))
]

-- A number of `w` bits.
pub parse_unsigned-show : (w n : ℕ) → n < 2 ^ w → parse_unsigned w 10 (show n) ≡ some n
unfolding show read_digits
parse_unsigned-show w n fits =
    parse_unsigned-digits w (n + 1) n [] (omega arith)
    ∙ read_digits-digits (2 ^ w) (n + 1) n [] (omega arith) fits
