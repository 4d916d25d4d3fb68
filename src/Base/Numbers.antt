-- ===== src/Base/Numbers.antt =====
-- Signed integers over the native numbers, and the decimal print of numbers.
use Prim.Native.Nat.{ℕ, zero, suc, ◌+◌, ◌-◌, ◌/◌, ◌%◌}
use mathlib.Core.List.{[], ◌∷◌}
use adbfs_rust.Base.Tests.{ltb, leb, if◌then◌else◌}
use adbfs_rust.Base.Lists.{length}
use adbfs_rust.Base.Text.{Str}

-- `negsuc n` is -(n + 1).
pub data ℤ : Type 0 where
  pos : ℕ → ℤ
  negsuc : ℕ → ℤ

-- a - b, as an integer.
abbrev pub sub_ℕ : ℕ → ℕ → ℤ
sub_ℕ a b = if leb b a then pos (a - b) else negsuc (b - a - 1)

-- The decimal digits of `n` before `out`; a number has at most as many digits as its value plus one.
unfoldable pub digits : ℕ → ℕ → Str → Str
digits zero n out = out
digits (suc f) n out =
    let more = digits f (n / 10) ((b'0' + n % 10) ∷ out) in
    if ltb n 10 then (b'0' + n) ∷ out else more

-- `{}` of an unsigned number.
unfoldable pub show : ℕ → Str
unfolding digits
show n = digits (n + 1) n []

-- `{}` of a signed number.
unfoldable pub show_int : ℤ → Str
unfolding show
show_int (pos n) = show n
show_int (negsuc n) = b'-' ∷ show (n + 1)

-- `{:0w}`: zeros in front up to the width.
zeros : ℕ → Str → Str
zeros zero s = s
zeros (suc k) s = b'0' ∷ zeros k s

unfoldable pub show_padded : ℕ → ℕ → Str
unfolding show zeros
show_padded w n = zeros (w - length (show n)) (show n)
