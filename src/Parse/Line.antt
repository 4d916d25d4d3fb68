-- ===== src/Parse/Line.antt =====
-- src/parse.rs: `parse_ls_line` and what it calls: names to ids, dates to times.
pub mod Dates
pub mod Printed
pub mod Plain
use mathlib.Core.Option.{get_or}
use adbfs_rust.Base.{
  ℕ, zero, ◌+◌, ◌-◌, ◌*◌, ◌%◌, ◌^◌, Str, codes, ◌==◌, ltb, leb, if◌then◌else◌, ◌||◌, List, [], ◌∷◌,
  Option, none, some, ℤ, pos, negsuc, ok, err, panicked, ◌>>=◌, bit_and, get_elem?, length,
  contains, split, trim_end_matches, parse_unsigned, parse_i32,
}
use adbfs_rust.Parse.Meta.{SystemTime, FileMeta, Partial, try}
use adbfs_rust.Parse.Mode.{parse_mode_string, is_valid_ls_output, s_ifmt, s_ifblk, s_ifchr, s_ifreg}
use adbfs_rust.Parse.Fields.{split_fields}

-- The fields of `libc::tm` that the code sets to something else than zero and `tm_isdst = -1`.
pub record Tm : Type 0 where
  pub tm_year : ℤ
  pub tm_mon : ℤ
  pub tm_mday : ℤ
  pub tm_hour : ℤ
  pub tm_min : ℤ

-- The C library and the databases behind it: user and group ids by name, and local time.
pub record Libc : Type 0 where
  pub getpwnam : Str → Option ℕ
  pub getgrnam : Str → Option ℕ
  pub mktime : Tm → ℤ

-- A name with a NUL is no C string.
resolve : (Str → Option ℕ) → Str → ℕ
resolve lookup name = if contains name (0 ∷ []) then 98 else get_or (lookup name) 98

unfoldable pub resolve_uid : Libc → Str → ℕ
unfolding resolve
resolve_uid libc name = resolve libc.getpwnam name

unfoldable pub resolve_gid : Libc → Str → ℕ
unfolding resolve
resolve_gid libc name = resolve libc.getgrnam name

-- `i32` subtraction, which cannot overflow where the code uses it.
unfoldable pub minus : ℤ → ℕ → ℤ
minus (pos n) k = if leb k n then pos (n - k) else negsuc (k - n - 1)
minus (negsuc n) k = negsuc (n + k)

-- `epoch_secs as u64`
as_u64 : ℤ → ℕ
as_u64 (pos n) = n % 2 ^ 64
as_u64 (negsuc n) = 2 ^ 64 - 1 - n % 2 ^ 64

-- `UNIX_EPOCH + Duration::from_secs(secs)`: a `SystemTime` counts seconds in an `i64`, and the sum
-- panics on overflow.
unfoldable pub add_to_epoch : ℕ → Partial SystemTime
add_to_epoch secs =
    if ltb secs (2 ^ 63) then ok (record { secs = pos secs; nanos = 0 }) else panicked

-- The result of `mktime`, as a time; -1 is its error.
unfoldable pub time_of_epoch_secs : ℤ → Partial SystemTime
unfolding as_u64 add_to_epoch
time_of_epoch_secs (negsuc zero) = err tt
time_of_epoch_secs e = add_to_epoch (as_u64 e)

-- The fields of a date and of a time, where there are enough of them.
datetime_of_parts : Libc → List Str → List Str → Partial SystemTime
unfolding minus time_of_epoch_secs
datetime_of_parts libc (y ∷ m ∷ d ∷ more) (h ∷ n ∷ rest) = do
  year ← try (parse_i32 y)
  mon ← try (parse_i32 m)
  mday ← try (parse_i32 d)
  hour ← try (parse_i32 h)
  min ← try (parse_i32 n)
  time_of_epoch_secs (
      libc.mktime (record {
        tm_year = minus year 1900;
        tm_mon = minus mon 1;
        tm_mday = mday;
        tm_hour = hour;
        tm_min = min;
      }))
datetime_of_parts libc _ _ = err tt

unfoldable pub parse_datetime : Libc → Str → Str → Partial SystemTime
unfolding datetime_of_parts
parse_datetime libc date_str time_str =
    datetime_of_parts libc (split date_str b'-') (split time_str b':')

-- The link count and the offset of the user field.
detect_nlink : Str → ℕ × ℕ
detect_nlink field = elim (parse_unsigned 32 10 field) [
  | none ↦ (1, 0)
  | some n ↦ if ltb 0 n then (n, 1) else (1, 0)
]

-- A `u64` field, 0 if it is none.
u64_or_zero : Str → ℕ
u64_or_zero s = get_or (parse_unsigned 64 10 s) 0

-- The size, the device number and the index of the date field. The arithmetic is that of a release
-- build, which wraps around.
size_fields : ℕ → List Str → ℕ → Partial (ℕ × ℕ × ℕ)
unfolding u64_or_zero
size_fields file_type fields offset =
    if file_type == s_ifblk || file_type == s_ifchr
    then (do
      major ← try (get_elem? fields (offset + 3))
      minor ← try (get_elem? fields (offset + 4))
      let rdev = (u64_or_zero (trim_end_matches b',' major) * 256 + u64_or_zero minor) % 2 ^ 64
      ok (0, rdev, offset + 5))
    else if file_type == s_ifreg
    then (do size ← try (get_elem? fields (offset + 3)); ok (u64_or_zero size, 0, offset + 4))
    else (do
      candidate ← try (get_elem? fields (offset + 3))
      ok (0, 0, if contains candidate (codes "-") then offset + 3 else offset + 4))

-- The part of `parse_ls_line` behind its two guards.
parse_fields : Libc → Str → Str → List Str → Partial FileMeta
unfolding detect_nlink size_fields
parse_fields libc line first fields = do
  let mode = parse_mode_string first
  second ← try (get_elem? fields 1)
  let found = detect_nlink second
  let offset = found.1
  uid_field ← try (get_elem? fields (offset + 1))
  gid_field ← try (get_elem? fields (offset + 2))
  numbers ← size_fields (bit_and mode s_ifmt) fields offset
  date_str ← try (get_elem? fields numbers.2)
  time_str ← try (get_elem? fields (numbers.2 + 1))
  mtime ← parse_datetime libc date_str time_str
  ok (record {
    mode = mode;
    nlink = found.0;
    uid = resolve_uid libc uid_field;
    gid = resolve_gid libc gid_field;
    size = numbers.0;
    rdev = numbers.1;
    mtime = mtime;
    raw_line = line;
  })

unfoldable pub parse_ls_line : Libc → Str → Partial FileMeta
unfolding parse_fields
parse_ls_line libc line =
    if ltb (length (split_fields line)) 6 then err tt else elim (split_fields line) [
      | [] ↦ err tt
      | first ∷ rest ↦
          if is_valid_ls_output first then parse_fields libc line first (first ∷ rest) else err tt
    ]
