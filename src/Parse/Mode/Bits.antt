-- ===== src/Parse/Mode/Bits.antt =====
-- src/parse.rs: `parse_mode_string` against the way `ls` writes a mode.
use adbfs_rust.Base.{
  ℕ, ◌+◌, ◌*◌, Str, ◌==◌, ==_iff, if◌then◌else◌, Bool, true, false, ◌&&◌, [], ◌∷◌, ◌++◌, ◌≡◌, refl,
  arith, bit_and,
}
use adbfs_rust.Parse.Mode.{
  parse_mode_string, s_ifmt, s_ifsock, s_iflnk, s_ifreg, s_ifblk, s_ifdir, s_ifchr, s_ififo,
}

-- The seven types of files that `ls` tells apart.
pub data Kind : Type 0 where
  socket link regular directory block character fifo : Kind

abbrev pub kind_char : Kind → ℕ
kind_char socket = b's'
kind_char link = b'l'
kind_char regular = b'-'
kind_char directory = b'd'
kind_char block = b'b'
kind_char character = b'c'
kind_char fifo = b'p'

abbrev pub kind_bits : Kind → ℕ
kind_bits socket = s_ifsock
kind_bits link = s_iflnk
kind_bits regular = s_ifreg
kind_bits directory = s_ifdir
kind_bits block = s_ifblk
kind_bits character = s_ifchr
kind_bits fifo = s_ififo

-- The rights of one class of users; `special` is the setuid, the setgid or the sticky bit.
pub record Rights : Type 0 where
  pub read : Bool
  pub write : Bool
  pub execute : Bool
  pub special : Bool

abbrev letter : Bool → ℕ → ℕ
letter b c = if b then c else b'-'

abbrev execute_letter : ℕ → ℕ → Bool → Bool → ℕ
execute_letter lower upper x special =
    if special then (if x then lower else upper) else letter x b'x'

abbrev rights_text : ℕ → ℕ → Rights → Str
rights_text lower upper r =
    letter r.read b'r' ∷ letter r.write b'w' ∷ execute_letter lower upper r.execute r.special ∷ []

-- The ten characters that `ls -l` prints for a mode.
abbrev pub mode_text : Kind → Rights → Rights → Rights → Str
mode_text k u g o =
    kind_char k ∷ (rights_text b's' b'S' u ++ rights_text b's' b'S' g ++ rights_text b't' b'T' o)

abbrev worth : Bool → ℕ → ℕ
worth b n = if b then n else 0

abbrev rights_bits : Rights → ℕ
rights_bits r = worth r.read 4 + worth r.write 2 + worth r.execute 1

-- The number that POSIX gives the mode: the sum of its bits.
abbrev pub mode_bits : Kind → Rights → Rights → Rights → ℕ
mode_bits k u g o =
    kind_bits k
    + worth u.special 0o4000
    + worth g.special 0o2000
    + worth o.special 0o1000
    + rights_bits u * 64
    + rights_bits g * 8
    + rights_bits o

abbrev all_kinds : (Kind → Bool) → Bool
all_kinds p = p socket && p link && p regular && p directory && p block && p character && p fifo

all_kinds_sound : (p : Kind → Bool) → all_kinds p ≡ true → (k : Kind) → p k ≡ true
all_kinds_sound p h socket = ground arith
all_kinds_sound p h link = ground arith
all_kinds_sound p h regular = ground arith
all_kinds_sound p h directory = ground arith
all_kinds_sound p h block = ground arith
all_kinds_sound p h character = ground arith
all_kinds_sound p h fifo = ground arith

abbrev all_bools : (Bool → Bool) → Bool
all_bools p = p true && p false

all_bools_sound : (p : Bool → Bool) → all_bools p ≡ true → (b : Bool) → p b ≡ true
all_bools_sound p h true = ground arith
all_bools_sound p h false = ground arith

abbrev rights : Bool → Bool → Bool → Bool → Rights
rights r w x s = record { read = r; write = w; execute = x; special = s }

abbrev all_rights : (Rights → Bool) → Bool
all_rights p = all_bools λ r. all_bools λ w. all_bools λ x. all_bools λ s. p (rights r w x s)

all_rights_sound : (p : Rights → Bool) → all_rights p ≡ true → (r : Rights) → p r ≡ true
all_rights_sound p h r =
    let write_on = λ (w : Bool). all_bools λ x. all_bools λ s. p (rights r.read w x s) in
    let execute_on = λ (x : Bool). all_bools λ s. p (rights r.read r.write x s) in
    let read =
      all_bools_sound (λ b. all_bools λ w. all_bools λ x. all_bools λ s. p (rights b w x s)) h
        r.read in
    let write = all_bools_sound write_on read r.write in
    let execute = all_bools_sound execute_on write r.execute in
    all_bools_sound (λ s. p (rights r.read r.write r.execute s)) execute r.special

unfoldable pub all_modes : (Kind → Rights → Rights → Rights → Bool) → Bool
all_modes p = all_kinds λ k. all_rights λ u. all_rights λ g. all_rights λ o. p k u g o

pub all_modes_sound :
    (p : Kind → Rights → Rights → Rights → Bool)
    → all_modes p ≡ true
    → (k : Kind) (u g o : Rights) → p k u g o ≡ true
unfolding all_modes
all_modes_sound p h k u g =
    let of_kind =
      all_kinds_sound (λ k. all_rights λ u. all_rights λ g. all_rights λ o. p k u g o) h k in
    let of_user = all_rights_sound (λ u. all_rights λ g. all_rights λ o. p k u g o) of_kind u in
    let of_group = all_rights_sound (λ g. all_rights λ o. p k u g o) of_user g in
    all_rights_sound (λ o. p k u g o) of_group

bits_table :
    all_modes (λ k u g o. parse_mode_string (mode_text k u g o) == mode_bits k u g o) ≡ true
unfolding parse_mode_string all_modes
bits_table = refl

kind_table : all_modes (λ k u g o. bit_and (mode_bits k u g o) s_ifmt == kind_bits k) ≡ true
unfolding all_modes
kind_table = refl

-- The mode that `ls` prints is read as the sum of its bits: every type of file, and every right with
-- and without the setuid, setgid and sticky bit.
pub parse_mode_string-mode_text :
    (k : Kind) (u g o : Rights) → parse_mode_string (mode_text k u g o) ≡ mode_bits k u g o
parse_mode_string-mode_text k u g o = (==_iff _ _).0 (
    all_modes_sound (λ k u g o. parse_mode_string (mode_text k u g o) == mode_bits k u g o)
      bits_table k u g o)

pub mode_bits-kind : (k : Kind) (u g o : Rights) → bit_and (mode_bits k u g o) s_ifmt ≡ kind_bits k
mode_bits-kind k u g o = (==_iff _ _).0 (
    all_modes_sound (λ k u g o. bit_and (mode_bits k u g o) s_ifmt == kind_bits k) kind_table k u g
      o)
