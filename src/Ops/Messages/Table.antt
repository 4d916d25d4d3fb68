-- ===== src/Ops/Messages/Table.antt =====
-- src/ops.rs: how `errno_for_message` finds its entry.
use adbfs_rust.Base.{
  ℕ, ◌+◌, Str, codes, ◌==◌, leb, if◌then◌else◌, Bool, true, false, ◌||◌, ◌&&◌, not, List, [], ◌∷◌,
  ◌++◌, contains, starts_with, strip_prefix-append, to_ascii_lowercase, ◌≡◌, refl, ap, ◌∙◌, arith,
  All,
}
use adbfs_rust.Errno.{eacces}
use adbfs_rust.Ops.Messages.{errno_table, find_errno, errno_for_message}

lowercase-append :
    (s t : Str) → to_ascii_lowercase (s ++ t) ≡ to_ascii_lowercase s ++ to_ascii_lowercase t
lowercase-append [] t = refl
lowercase-append (c ∷ s) t =
    ap (λ r. (if leb b'A' c && leb c b'Z' then c + 32 else c) ∷ r) (lowercase-append s t)

starts_with-append : (p r : Str) → starts_with (p ++ r) p ≡ true
starts_with-append p r = ground (arith, strip_prefix-append p r)

contains-cons : (c : ℕ) (s p : Str) → contains (c ∷ s) p ≡ (starts_with (c ∷ s) p || contains s p)
contains-cons c s p = ground arith

-- A text contains each of its pieces.
pub contains-append : (u p v : Str) → contains (u ++ p ++ v) p ≡ true
contains-append [] [] [] = refl
contains-append [] [] (c ∷ v) = refl
contains-append [] (d ∷ p) v = rw (contains-cons d (p ++ v) (d ∷ p), starts_with-append (d ∷ p) v)
contains-append (c ∷ u) p v = ground (arith, contains-cons c (u ++ p ++ v) p, contains-append u p v)

abbrev colon_free : Str → Bool
colon_free [] = true
colon_free (c ∷ s) = not (c == b':') && colon_free s

starts_with-colon :
    (s v : Str) (d : ℕ) (p : Str)
    → colon_free (d ∷ p) ≡ true
    → starts_with (s ++ b':' ∷ v) (d ∷ p) ≡ starts_with s (d ∷ p)
starts_with-colon [] v d p lacks = ground arith
starts_with-colon (c ∷ s) v d [] lacks = ground arith
starts_with-colon (c ∷ s) v d (e ∷ p) lacks = ground (arith, starts_with-colon s v e p)

-- A piece without a colon stands on one side of a colon.
contains-colon :
    (u v : Str) (d : ℕ) (p : Str)
    → colon_free (d ∷ p) ≡ true
    → contains (u ++ b':' ∷ v) (d ∷ p) ≡ (contains u (d ∷ p) || contains v (d ∷ p))
contains-colon [] v d p lacks = ground (arith, contains-cons b':' v (d ∷ p))
contains-colon (c ∷ u) v d p lacks = ground (
  arith,
  contains-cons c (u ++ b':' ∷ v) (d ∷ p),
  contains-cons c u (d ∷ p),
  contains-colon u v d p,
  starts_with-colon (c ∷ u) v d p,
)

-- No message of the table stands in the text.
abbrev pub Unknown : List (Str × ℕ) → Str → Type 0
Unknown table s = All (λ e. contains s e.0 ≡ false) table

-- The table's texts are not empty and hold no colon.
abbrev well_formed : List (Str × ℕ) → Bool
well_formed [] = true
well_formed (([], errno) ∷ table) = false
well_formed ((d ∷ p, errno) ∷ table) = colon_free (d ∷ p) && well_formed table

find_errno-colon :
    (table : List (Str × ℕ)) (u v : Str)
    → well_formed table ≡ true
    → Unknown table u
    → find_errno table (u ++ b':' ∷ v) ≡ find_errno table v
unfolding find_errno
find_errno-colon [] u v w k = refl
find_errno-colon (([], errno) ∷ table) u v w k = cc
find_errno-colon ((d ∷ p, errno) ∷ table) u v w (k, ks) =
    ground (arith, contains-colon u v d p, find_errno-colon table u v)

-- The error number is that of the text behind a colon, whatever command and path stand before it, as
-- long as none of the table's messages does.
pub errno_for_message-colon :
    (u v : Str)
    → Unknown errno_table (to_ascii_lowercase u)
    → errno_for_message (u ++ b':' ∷ v) ≡ errno_for_message v
unfolding errno_for_message
errno_for_message-colon u v k =
    ap (find_errno errno_table) (lowercase-append u (b':' ∷ v))
    ∙ find_errno-colon errno_table (to_ascii_lowercase u) (to_ascii_lowercase v) refl k

-- The match is not on the tail: a message that names a path with the words "permission denied" in it
-- is `EACCES`, whatever the device reports behind the path.
pub errno_for_message_of_path :
    (u v : Str) → errno_for_message (u ++ codes "permission denied" ++ v) ≡ eacces
unfolding errno_for_message find_errno
errno_for_message_of_path u v = rw (
  lowercase-append (u ++ codes "permission denied") v,
  lowercase-append u (codes "permission denied"),
  contains-append (to_ascii_lowercase u) (codes "permission denied") (to_ascii_lowercase v),
)
