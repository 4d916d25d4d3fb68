-- ===== src/Parse/Line/Printed.antt =====
-- src/parse.rs: `parse_ls_line` on lines of `ls -l` with a link count and without a device number.
use adbfs_rust.Base.{
  ℕ, zero, suc, ◌+◌, ◌^◌, ◌<◌, Str, codes, ltb, Bool, true, false, not, ◌&&◌, List, [], ◌∷◌, ok,
  ◌≡◌, refl, arith, All, Bool-cases, inl, inr, ◌/◌, ◌%◌, length, is_whitespace, contains, show,
  digits, parse_unsigned-show,
}
use adbfs_rust.Parse.Meta.{SystemTime, FileMeta}
use adbfs_rust.Parse.Mode.{is_valid_ls_output}
use adbfs_rust.Parse.Mode.Bits.{
  Kind, socket, link, regular, directory, block, character, fifo, Rights, mode_text, mode_bits,
  kind_bits, all_modes, all_modes_sound, parse_mode_string-mode_text, mode_bits-kind,
}
use adbfs_rust.Parse.Fields.{split_fields}
use adbfs_rust.Parse.Fields.Words.{IsWord, columns, split_fields-columns, show-IsWord}
use adbfs_rust.Parse.Line.{
  Libc, resolve_uid, resolve_gid, parse_datetime, detect_nlink, size_fields, u64_or_zero,
  parse_fields, parse_ls_line,
}

-- A line of `ls -l` for a file, in the layout with a link count; `gap` tells how much wider than one space each gap is.
pub record Listed : Type 0 where
  pub kind : Kind
  pub user_rights : Rights
  pub group_rights : Rights
  pub other_rights : Rights
  pub links : ℕ
  pub user : Str
  pub group : Str
  pub size : ℕ
  pub date : Str
  pub time : Str
  pub name : Str
  pub gap : ℕ → ℕ

abbrev pub mode_column : Listed → Str
mode_column l = mode_text l.kind l.user_rights l.group_rights l.other_rights

abbrev pub listed : Listed → Str
listed l =
    columns
      ((mode_column l, l.gap 0)
        ∷ (show l.links, l.gap 1)
        ∷ (l.user, l.gap 2)
        ∷ (l.group, l.gap 3)
        ∷ (show l.size, l.gap 4)
        ∷ (l.date, l.gap 5)
        ∷ (l.time, l.gap 6)
        ∷ [])
      l.name

-- A type of file that `ls` prints a size for.
abbrev pub has_size : Kind → Bool
has_size block = false
has_size character = false
has_size _ = true

-- The size is kept for regular files.
abbrev pub kept_size : Kind → ℕ → ℕ
kept_size regular size = size
kept_size _ size = 0

valid_table : all_modes (λ k u g o. is_valid_ls_output (mode_text k u g o)) ≡ true
unfolding is_valid_ls_output all_modes
valid_table = refl

abbrev pub free_of : (ℕ → Bool) → Str → Bool
free_of p [] = true
free_of p (c ∷ s) = not (p c) && free_of p s

pub free_of-All : (p : ℕ → Bool) (s : Str) → free_of p s ≡ true → All (λ c. p c ≡ false) s
free_of-All p [] h = tt
free_of-All p (c ∷ s) h = (ground arith, free_of-All p s (ground arith))

solid_table : all_modes (λ k u g o. free_of is_whitespace (mode_text k u g o)) ≡ true
unfolding all_modes
solid_table = refl

mode_text-IsWord : (k : Kind) (u g o : Rights) → IsWord (mode_text k u g o)
mode_text-IsWord k u g o = (
  refl,
  free_of-All is_whitespace (mode_text k u g o)
      (all_modes_sound (λ k u g o. free_of is_whitespace (mode_text k u g o)) solid_table k u g o),
)

no_dash :
    (d : ℕ) (s : Str)
    → d < 10
    → contains s (codes "-") ≡ false
    → contains ((b'0' + d) ∷ s) (codes "-") ≡ false
no_dash d s h e = ground arith

digits-no_dash :
    (f n : ℕ) (out : Str)
    → contains out (codes "-") ≡ false
    → contains (digits f n out) (codes "-") ≡ false
unfolding digits
digits-no_dash zero n out h = h
digits-no_dash (suc f) n out h = elim (Bool-cases (ltb n 10)) [
  | inl one ↦ rw one (no_dash n out (ground arith) h)
  | inr more ↦
      rw more
        (digits-no_dash f (n / 10) ((b'0' + n % 10) ∷ out) (no_dash (n % 10) out (omega arith) h))
]

dashless : (n : ℕ) → contains (show n) (codes "-") ≡ false
unfolding show
dashless n = digits-no_dash (n + 1) n [] refl

-- The size, the device number and the place of the date, behind the link count.
size_fields-kept :
    (k : Kind) (size : ℕ) (mode links user group : Str) (rest : List Str)
    → has_size k ≡ true
    → size < 2 ^ 64
    → size_fields (kind_bits k) (mode ∷ links ∷ user ∷ group ∷ show size ∷ rest) 1
      ≡ ok (kept_size k size, 0, 5)
unfolding size_fields u64_or_zero
size_fields-kept regular size mode links user group rest h fits =
    rw (parse_unsigned-show 64 size fits)
size_fields-kept block size mode links user group rest h fits = absurd (ground arith)
size_fields-kept character size mode links user group rest h fits = absurd (ground arith)
size_fields-kept directory size mode links user group rest h fits = rw (dashless size)
size_fields-kept link size mode links user group rest h fits = rw (dashless size)
size_fields-kept socket size mode links user group rest h fits = rw (dashless size)
size_fields-kept fifo size mode links user group rest h fits = rw (dashless size)

printed_fields :
    (l : Listed)
    → IsWord l.user
    → IsWord l.group
    → IsWord l.date
    → IsWord l.time
    → split_fields (listed l)
      ≡ mode_column l
        ∷ show l.links
        ∷ l.user
        ∷ l.group
        ∷ show l.size
        ∷ l.date
        ∷ l.time
        ∷ split_fields l.name
printed_fields l user group date time =
    split_fields-columns
      ((mode_column l, l.gap 0)
        ∷ (show l.links, l.gap 1)
        ∷ (l.user, l.gap 2)
        ∷ (l.group, l.gap 3)
        ∷ (show l.size, l.gap 4)
        ∷ (l.date, l.gap 5)
        ∷ (l.time, l.gap 6)
        ∷ [])
      l.name
      (
        mode_text-IsWord l.kind l.user_rights l.group_rights l.other_rights,
        (show-IsWord l.links, (user, (group, (show-IsWord l.size, (date, (time, tt)))))),
      )

links_found : (n : ℕ) → 0 < n → n < 2 ^ 32 → detect_nlink (show n) ≡ (n, 1)
unfolding detect_nlink
links_found n some_link fits = ground (arith, parse_unsigned-show 32 n fits)

long_enough :
    (a b c d e f g : Str) (names : List Str)
    → ltb (length (a ∷ b ∷ c ∷ d ∷ e ∷ f ∷ g ∷ names)) 6 ≡ false
long_enough a b c d e f g names = ground arith

valid : (k : Kind) (u g o : Rights) → is_valid_ls_output (mode_text k u g o) ≡ true
valid = all_modes_sound (λ k u g o. is_valid_ls_output (mode_text k u g o)) valid_table

abbrev pub meta_of : Libc → Listed → SystemTime → FileMeta
meta_of libc l mtime = record {
  mode = mode_bits l.kind l.user_rights l.group_rights l.other_rights;
  nlink = l.links;
  uid = resolve_uid libc l.user;
  gid = resolve_gid libc l.group;
  size = kept_size l.kind l.size;
  rdev = 0;
  mtime = mtime;
  raw_line = listed l;
}

fields_read :
    (libc : Libc) (l : Listed) (mtime : SystemTime) (names : List Str)
    → has_size l.kind ≡ true
    → 0 < l.links
    → l.links < 2 ^ 32
    → l.size < 2 ^ 64
    → parse_datetime libc l.date l.time ≡ ok mtime
    → parse_fields libc
        (listed l)
        (mode_column l)
        (mode_column l ∷ show l.links ∷ l.user ∷ l.group ∷ show l.size ∷ l.date ∷ l.time ∷ names)
      ≡ ok (meta_of libc l mtime)
unfolding parse_fields
fields_read libc l mtime names sized some_link links_fit size_fits read =
    rw
      (
        links_found l.links some_link links_fit,
        parse_mode_string-mode_text l.kind l.user_rights l.group_rights l.other_rights,
        mode_bits-kind l.kind l.user_rights l.group_rights l.other_rights,
        size_fields-kept l.kind l.size (mode_column l) (show l.links) l.user l.group
            (l.date ∷ l.time ∷ names) sized size_fits,
        read,
      )
      refl

-- A line of `ls -l` in the layout with a link count, for a file that is no block or character device,
-- however its columns are aligned: `parse_ls_line` gives its mode, link count, owner, group and
-- time, device number 0, and its size if it is a regular file, but 0 for every other type. The link
-- count is from 1 to below 2^32, the size below 2^64, the owner, group, date and time are words, and
-- `parse_datetime` reads the date and time.
pub parse_ls_line-listed :
    (libc : Libc) (l : Listed) (mtime : SystemTime)
    → has_size l.kind ≡ true
    → 0 < l.links
    → l.links < 2 ^ 32
    → l.size < 2 ^ 64
    → IsWord l.user
    → IsWord l.group
    → IsWord l.date
    → IsWord l.time
    → parse_datetime libc l.date l.time ≡ ok mtime
    → parse_ls_line libc (listed l) ≡ ok (meta_of libc l mtime)
unfolding parse_ls_line
parse_ls_line-listed libc l mtime sized some_link links_fit size_fits user group date time read =
    let names = split_fields l.name in
    rw
      (
        printed_fields l user group date time,
        long_enough (mode_column l) (show l.links) l.user l.group (show l.size) l.date l.time names,
        valid l.kind l.user_rights l.group_rights l.other_rights,
        fields_read libc l mtime names sized some_link links_fit size_fits read,
      )
      refl
