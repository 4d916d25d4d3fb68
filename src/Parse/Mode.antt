-- ===== src/Parse/Mode.antt =====
-- src/parse.rs: `parse_mode_string` and `is_valid_ls_output`, which read a line's first field.
pub mod Bits
use adbfs_rust.Base.{
  ℕ, zero, suc, ◌+◌, ◌-◌, ◌*◌, ◌%◌, ◌^◌, Str, codes, ◌==◌, ltb, leb, if◌then◌else◌, Bool, true,
  false, not, ◌&&◌, ◌||◌, List, [], ◌∷◌, ◌++◌, Option, none, some, ℤ, pos, negsuc, Result, ok, err,
  panicked, ◌>>=◌, bit_and, bit_or, get_elem?, length, drop, utf8, is_empty, is_whitespace,
  contains, find, split, starts_with, strip_prefix, drop_while, trim_end_matches, parse_unsigned,
  parse_i32, utf8_char, byte_len, ◌≡◌, refl,
}

-- The mode bits of libc.
abbrev pub s_ifmt : ℕ
s_ifmt = 0o170000

abbrev pub s_ifsock : ℕ
s_ifsock = 0o140000

abbrev pub s_iflnk : ℕ
s_iflnk = 0o120000

abbrev pub s_ifreg : ℕ
s_ifreg = 0o100000

abbrev pub s_ifblk : ℕ
s_ifblk = 0o060000

abbrev pub s_ifdir : ℕ
s_ifdir = 0o040000

abbrev pub s_ifchr : ℕ
s_ifchr = 0o020000

abbrev pub s_ififo : ℕ
s_ififo = 0o010000

-- The first `match` of `parse_mode_string`.
type_bits : ℕ → ℕ
type_bits c =
    if c == b's'
    then s_ifsock
    else if c == b'l'
    then s_iflnk
    else if c == b'-'
    then s_ifreg
    else if c == b'd'
    then s_ifdir
    else if c == b'b'
    then s_ifblk
    else if c == b'c'
    then s_ifchr
    else if c == b'p'
    then s_ififo
    else 0

-- `if b == c { mode |= bit }`
flag : ℕ → ℕ → ℕ → ℕ → ℕ
flag c bit b mode = if b == c then bit_or mode bit else mode

-- The `match` on an execute character: `x`, the special bit with it in lower case, and without it in
-- upper case.
exec : ℕ → ℕ → ℕ → ℕ → ℕ → ℕ → ℕ
exec lower upper special bit b mode =
    if b == b'x'
    then bit_or mode bit
    else if b == lower
    then bit_or mode (bit_or special bit)
    else if b == upper
    then bit_or mode special
    else mode

mode_of_bytes : List ℕ → ℕ
mode_of_bytes (b0 ∷ b1 ∷ b2 ∷ b3 ∷ b4 ∷ b5 ∷ b6 ∷ b7 ∷ b8 ∷ b9 ∷ more) =
    let owner =
      exec b's' b'S' 0o4000 0o100 b3
        (flag b'w' 0o200 b2 (flag b'r' 0o400 b1 (bit_or 0 (type_bits b0)))) in
    let group = exec b's' b'S' 0o2000 0o010 b6 (flag b'w' 0o020 b5 (flag b'r' 0o040 b4 owner)) in
    exec b't' b'T' 0o1000 0o001 b9 (flag b'w' 0o002 b8 (flag b'r' 0o004 b7 group))
mode_of_bytes _ = 0

unfoldable pub parse_mode_string : Str → ℕ
unfolding mode_of_bytes type_bits flag exec
parse_mode_string s = mode_of_bytes (utf8 s)

valid_bytes : List ℕ → Bool
valid_bytes (b0 ∷ b1 ∷ more) =
    if b0 == b'/' then false else if not (b1 == b'r') && not (b1 == b'-') then false else true
valid_bytes _ = false

unfoldable pub is_valid_ls_output : Str → Bool
unfolding valid_bytes
is_valid_ls_output line = valid_bytes (utf8 line)
