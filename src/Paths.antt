-- ===== src/Paths.antt =====
-- Device paths as lists of names: the view of the tree that the tests on path texts in src/cache.rs
-- and src/fs.rs stand for.
use mathlib.Core.List.{reverse-append, cons-ne-nil}
use adbfs_rust.Base.{
  ℕ, Str, str_eq, if◌then◌else◌, Bool, true, false, ◌&&◌, ◌||◌, List, [], ◌∷◌, ◌++◌, append_assoc,
  Option, none, some, ◌≡◌, ◌≢◌, refl, arith, starts_with, All, ends_with, ap, subst, sym,
  append-nil, ◌∙◌,
}

abbrev pub slash : ℕ
slash = b'/'

-- The name of a directory entry: not empty, and no separator in it.
abbrev pub IsName : Str → Type 0
IsName n = (n ≢ []) × All (λ c. c ≢ slash) n

abbrev pub below : List Str → Str
below [] = []
below (n ∷ ns) = slash ∷ (n ++ below ns)

-- The absolute path through the names from the root.
abbrev pub path_of : List Str → Str
path_of [] = slash ∷ []
path_of (n ∷ ns) = below (n ∷ ns)

-- What is left of the names behind a prefix of them.
abbrev pub strip_names : List Str → List Str → Option (List Str)
strip_names ns [] = some ns
strip_names [] (p ∷ ps) = none
strip_names (n ∷ ns) (p ∷ ps) = if str_eq n p then strip_names ns ps else none

-- The first list leads into the subtree at the second.
abbrev pub in_subtree : List Str → List Str → Bool
in_subtree ns ps = elim (strip_names ns ps) [ none ↦ false | some r ↦ true ]

-- The code's test on texts.
abbrev pub is_under : Str → Str → Bool
is_under key prefix = str_eq key prefix || starts_with key (prefix ++ slash ∷ [])

-- Names that lack the separator are compared as a whole.
is_under-append :
    (n p : Str) (ns ps : List Str)
    → All (λ c. c ≢ slash) n
    → All (λ c. c ≢ slash) p
    → is_under (n ++ below ns) (p ++ below ps) ≡ (str_eq n p && is_under (below ns) (below ps))
is_under-append [] [] ns ps hn hp = refl
is_under-append [] (d ∷ p) [] ps hn hp = refl
is_under-append [] (d ∷ p) (m ∷ ns) ps hn hp = ground arith
is_under-append (c ∷ n) [] ns [] hn hp = ground arith
is_under-append (c ∷ n) [] ns (q ∷ ps) hn hp = ground arith
is_under-append (c ∷ n) (d ∷ p) ns ps hn hp = ground (arith, is_under-append n p ns ps)

is_under-below :
    (ns ps : List Str)
    → All IsName ns
    → All IsName ps
    → is_under (below ns) (below ps) ≡ in_subtree ns ps
is_under-below [] [] hn hp = refl
is_under-below (n ∷ ns) [] hn hp = refl
is_under-below [] (p ∷ ps) hn hp = refl
is_under-below (n ∷ ns) (p ∷ ps) hn hp =
    ground (arith, is_under-append n p ns ps, is_under-below ns ps)

-- A path text is the path of the subtree's root, or begins with it and a separator, exactly if it
-- leads into the subtree.
pub is_under-path_of :
    (ns : List Str) (p : Str) (ps : List Str)
    → All IsName ns
    → All IsName (p ∷ ps)
    → is_under (path_of ns) (path_of (p ∷ ps)) ≡ in_subtree ns (p ∷ ps)
is_under-path_of [] [] ps hn ((ne, lacks), hps) = absurd (ne refl)
is_under-path_of [] (c ∷ p) ps hn hp = refl
is_under-path_of (n ∷ ns) p ps hn hp = is_under-below (n ∷ ns) (p ∷ ps) hn hp

-- A text that ends in another character than the separator.
EndsIn : Str → Type 0
EndsIn s = (u : Str) × (c : ℕ) × (s ≡ u ++ c ∷ []) × (c ≢ slash)

EndsIn-name : (n : Str) → IsName n → EndsIn n
unfolding EndsIn
EndsIn-name [] (ne, lacks) = absurd (ne refl)
EndsIn-name (c ∷ []) (ne, (h, lacks)) = ([], c, refl, h)
EndsIn-name (c ∷ d ∷ n) (ne, (h, lacks)) =
    let (u, e, split, h') = EndsIn-name (d ∷ n) (cons-ne-nil d n, lacks) in
    (c ∷ u, e, ap (λ t. c ∷ t) split, h')

EndsIn-append : (s t : Str) → EndsIn t → EndsIn (s ++ t)
unfolding EndsIn
EndsIn-append s t (u, c, split, h) =
    (s ++ u, c, ap (λ r. s ++ r) split ∙ sym (append_assoc s u (c ∷ [])), h)

EndsIn-below : (n : Str) (ns : List Str) → All IsName (n ∷ ns) → EndsIn (below (n ∷ ns))
EndsIn-below n [] (hn, hns) =
    subst (λ t. EndsIn (slash ∷ t)) (sym (append-nil n))
      (EndsIn-append (slash ∷ []) n (EndsIn-name n hn))
EndsIn-below n (m ∷ ns) (hn, hns) =
    EndsIn-append (slash ∷ n) (below (m ∷ ns)) (EndsIn-below m ns hns)

ends_with-EndsIn : (s : Str) → EndsIn s → ends_with s (slash ∷ []) ≡ false
unfolding EndsIn
ends_with-EndsIn s (u, c, split, h) = rw (split, reverse-append u (c ∷ [])) (ground arith)

-- Only the root's path ends in a separator.
pub ends_with-path_of :
    (n : Str) (ns : List Str)
    → All IsName (n ∷ ns)
    → ends_with (path_of (n ∷ ns)) (slash ∷ []) ≡ false
ends_with-path_of n ns h = ends_with-EndsIn _ (EndsIn-below n ns h)
