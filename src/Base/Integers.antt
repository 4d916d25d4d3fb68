-- ===== src/Base/Integers.antt =====
-- Rust's `str::parse` and `from_str_radix` for integers: a sign, digits, and a check for overflow.
use Prim.Native.Nat.{ℕ, zero, suc, ◌+◌, ◌-◌, ◌*◌, ◌^◌}
use mathlib.Core.Bool.{◌&&◌}
use mathlib.Core.Option.{Option, none, some}
use mathlib.Core.Option
use mathlib.Core.List.{[], ◌∷◌}
use adbfs_rust.Base.Tests.{ltb, leb, ◌==◌, if◌then◌else◌}
use adbfs_rust.Base.Text.{Str}
use adbfs_rust.Base.Numbers.{ℤ, pos, negsuc}

-- The value of the digits behind `n`; `none` at another character, or where the value reaches `bound`.
unfoldable pub read_digits : ℕ → ℕ → Str → ℕ → Option ℕ
read_digits radix bound [] n = some n
read_digits radix bound (c ∷ s) n =
    let next = n * radix + (c - b'0') in
    let rest = read_digits radix bound s next in
    if leb b'0' c && ltb c (b'0' + radix) && ltb next bound then rest else none

-- At least one digit.
unfoldable pub read_number : ℕ → ℕ → Str → Option ℕ
unfolding read_digits
read_number radix bound [] = none
read_number radix bound (c ∷ s) = read_digits radix bound (c ∷ s) 0

-- An unsigned integer of `w` bits, in a radix of at most 10. A plus sign may stand in front.
unfoldable pub parse_unsigned : ℕ → ℕ → Str → Option ℕ
unfolding read_number
parse_unsigned w radix [] = none
parse_unsigned w radix (c ∷ s) =
    if c == b'+' then read_number radix (2 ^ w) s else read_number radix (2 ^ w) (c ∷ s)

abbrev negate : ℕ → ℤ
negate zero = pos 0
negate (suc n) = negsuc n

-- `parse::<i32>()`
unfoldable pub parse_i32 : Str → Option ℤ
unfolding read_number
parse_i32 [] = none
parse_i32 (c ∷ s) =
    if c == b'-'
    then Option.map negate (read_number 10 (2 ^ 31 + 1) s)
    else if c == b'+'
    then Option.map pos (read_number 10 (2 ^ 31) s)
    else Option.map pos (read_number 10 (2 ^ 31) (c ∷ s))
