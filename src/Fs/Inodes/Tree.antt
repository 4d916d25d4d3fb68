-- ===== src/Fs/Inodes/Tree.antt =====
-- src/fs.rs: `rekey_paths` in the tree of names.
use adbfs_rust.Base.{
  ℕ, Str, str_eq_iff, true, false, ◌||◌, List, [], ◌∷◌, ◌++◌, some, ◌≡◌, refl, sym, ap, ◌∙◌, arith,
  text_eq, nat_eq, Option-cases, inl, inr, All, strip_prefix, strip_prefix-append,
  strip_prefix_sound, append-ne_self, append_assoc, append-nil,
}
use adbfs_rust.Base.Map
use adbfs_rust.Paths.{slash, IsName, below, path_of, in_subtree, is_under, is_under-path_of}
use adbfs_rust.Fs.Inodes.{Inodes, renamed, rekey, child_path}
use adbfs_rust.Fs.Inodes.Consistent.{IsConsistent}
use adbfs_rust.Fs.Inodes.Rename.{Apart, rekey-IsConsistent, get-rekey_moved, get-rekey_other}

-- Of two paths that a path lies under, one lies under the other.
is_under-linear :
    (p a b : Str)
    → is_under p a ≡ true
    → is_under p b ≡ true
    → (is_under a b || is_under b a) ≡ true
is_under-linear [] [] [] ha hb = refl
is_under-linear [] [] (e ∷ b) ha hb = ground arith
is_under-linear [] (d ∷ a) b ha hb = ground arith
is_under-linear (c ∷ p) [] [] ha hb = refl
is_under-linear (c ∷ p) [] (e ∷ b) ha hb = ground arith
is_under-linear (c ∷ p) (d ∷ a) [] ha hb = ground arith
is_under-linear (c ∷ p) (d ∷ a) (e ∷ b) ha hb = ground (arith, is_under-linear p a b)

below-append : (ns ms : List Str) → below (ns ++ ms) ≡ below ns ++ below ms
below-append [] ms = refl
below-append (n ∷ ns) ms = rw (below-append ns ms, append_assoc)

below-behind :
    (ns : List Str) (r : Str) (rs : List Str)
    → below (ns ++ r ∷ rs) ≡ below ns ++ slash ∷ [] ++ (r ++ below rs)
below-behind ns r rs =
    below-append ns (r ∷ rs) ∙ sym (append_assoc (below ns) (slash ∷ []) (r ++ below rs))

-- A child's path is its parent's names with the child's name behind them.
pub child_path-path_of :
    (ns : List Str) (n : Str) → All IsName ns → child_path (path_of ns) n ≡ path_of (ns ++ n ∷ [])
unfolding child_path
child_path-path_of [] n h = rw append-nil
child_path-path_of ([] ∷ ns) n ((ne, lacks), hs) = absurd (ne refl)
child_path-path_of ((c ∷ m) ∷ ns) n h = simp (below-append ns (n ∷ []), append_assoc, append-nil)

renamed_self : (from to : Str) → renamed from to from ≡ to
unfolding renamed
renamed_self from to = elim (Option-cases (strip_prefix from (from ++ slash ∷ []))) [
  | inl other ↦ ground arith
  | inr (r, e) ↦ absurd (
      append-ne_self from slash r (
        sym (append_assoc from (slash ∷ []) r)
        ∙ sym (strip_prefix_sound from (from ++ slash ∷ []) e)))
]

renamed_below :
    (from to r : Str) → renamed from to (from ++ slash ∷ [] ++ r) ≡ to ++ slash ∷ [] ++ r
unfolding renamed
renamed_below from to r = ground (arith, strip_prefix-append (from ++ slash ∷ []) r)

-- Behind the renamed directory a path keeps its names.
pub renamed-path_of :
    (f : Str) (fs : List Str) (t : Str) (ts rs : List Str)
    → renamed (path_of (f ∷ fs)) (path_of (t ∷ ts)) (path_of ((f ∷ fs) ++ rs))
      ≡ path_of ((t ∷ ts) ++ rs)
renamed-path_of f fs t ts [] = simp (append-nil, renamed_self)
renamed-path_of f fs t ts (r ∷ rs) =
    ap (renamed (below (f ∷ fs)) (below (t ∷ ts))) (below-behind (f ∷ fs) r rs)
    ∙ renamed_below (below (f ∷ fs)) (below (t ∷ ts)) (r ++ below rs)
    ∙ sym (below-behind (t ∷ ts) r rs)

-- Directories of which neither lies in the other.
Apart-of_names :
    (f : Str) (fs : List Str) (t : Str) (ts : List Str)
    → All IsName (f ∷ fs)
    → All IsName (t ∷ ts)
    → in_subtree (f ∷ fs) (t ∷ ts) ≡ false
    → in_subtree (t ∷ ts) (f ∷ fs) ≡ false
    → Apart (path_of (f ∷ fs)) (path_of (t ∷ ts))
Apart-of_names f fs t ts hf ht ft tf p under = ground (
  arith,
  is_under-linear p (path_of (f ∷ fs)) (path_of (t ∷ ts)) under,
  is_under-path_of (f ∷ fs) t ts hf ht,
  is_under-path_of (t ∷ ts) f fs ht hf,
)

in_subtree-append : (ns rs : List Str) → in_subtree (ns ++ rs) ns ≡ true
in_subtree-append [] [] = refl
in_subtree-append [] (r ∷ rs) = refl
in_subtree-append (n ∷ ns) rs = ground (arith, str_eq_iff n n, in_subtree-append ns rs)

-- A directory is renamed to another path, where neither lies in the other.
module _ (f : Str) (fs : List Str) (t : Str) (ts : List Str) (table : Inodes)
    (hf : All IsName (f ∷ fs)) (ht : All IsName (t ∷ ts))
    (ft : in_subtree (f ∷ fs) (t ∷ ts) ≡ false) (tf : in_subtree (t ∷ ts) (f ∷ fs) ≡ false)
    (c : IsConsistent table) where
  abbrev pub rekeyed : Inodes
  rekeyed = rekey (path_of (f ∷ fs)) (path_of (t ∷ ts)) table

  apart : Apart (path_of (f ∷ fs)) (path_of (t ∷ ts))
  apart = Apart-of_names f fs t ts hf ht ft tf

  -- Where a path other than the root is renamed to another one, and neither lies in the other, maps that
  -- are inverse to one another, with every inode below the counter, are so afterwards.
  pub rekey-path_of_IsConsistent : IsConsistent rekeyed
  rekey-path_of_IsConsistent =
      rekey-IsConsistent (path_of (f ∷ fs)) (path_of (t ∷ ts)) apart table c

  -- After a directory is renamed, to a path of which neither lies in the other, an inode in its subtree
  -- stands for the path with the same names below the new path.
  pub rekey-path_of_moved :
      (i : ℕ) (rs : List Str)
      → All IsName ((f ∷ fs) ++ rs)
      → Map.get i table.ino_to_path ≡ some (path_of ((f ∷ fs) ++ rs))
      → Map.get i rekeyed.ino_to_path ≡ some (path_of ((t ∷ ts) ++ rs))
  rekey-path_of_moved i rs names h =
      get-rekey_moved (path_of (f ∷ fs)) (path_of (t ∷ ts)) apart table c i
        (path_of ((f ∷ fs) ++ rs)) h
        (is_under-path_of ((f ∷ fs) ++ rs) f fs names hf ∙ in_subtree-append (f ∷ fs) rs)
      ∙ ap some (renamed-path_of f fs t ts rs)

  -- After a directory is renamed, to a path of which neither lies in the other, an inode of a path
  -- outside the two subtrees keeps its path.
  pub rekey-path_of_other :
      (i : ℕ) (ns : List Str)
      → All IsName ns
      → in_subtree ns (f ∷ fs) ≡ false
      → in_subtree ns (t ∷ ts) ≡ false
      → Map.get i table.ino_to_path ≡ some (path_of ns)
      → Map.get i rekeyed.ino_to_path ≡ some (path_of ns)
  rekey-path_of_other i ns names out out' h =
      get-rekey_other (path_of (f ∷ fs)) (path_of (t ∷ ts)) apart table c i (path_of ns) h
        (is_under-path_of ns f fs names hf ∙ out) (is_under-path_of ns t ts names ht ∙ out')
