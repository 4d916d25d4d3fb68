-- ===== src/Parse/Name/Link.antt =====
-- src/parse.rs: absolute link targets, and where paths lead from a directory.
use adbfs_rust.Base.{
  ℕ, zero, suc, ◌+◌, ◌-◌, Str, codes, str_eq, ◌==◌, if◌then◌else◌, List, [], ◌∷◌, ◌++◌, some, ◌≡◌,
  ◌≢◌, refl, ap, ◌∙◌, arith, All, split, drop_while, length, is_empty, find, ok,
}
use adbfs_rust.Paths.{slash, IsName, path_of, below}
use adbfs_rust.Parse.Name.{arrow, repeat, relativize, parse_symlink_target}
use adbfs_rust.Ops.Listing.{count_slashes, resolve_symlink}

-- The directory above; the root is above itself. Directories are names from the innermost out.
abbrev up : List Str → List Str
up [] = []
up (n ∷ ns) = ns

-- Where the parts of a path lead from a directory, links aside.
abbrev pub walk : List Str → List Str → List Str
walk dir [] = dir
walk dir (part ∷ parts) =
    walk
      (if is_empty part
        then dir
        else if str_eq part (codes ".")
        then dir
        else if str_eq part (codes "..")
        then up dir
        else part ∷ dir)
      parts

-- A leading separator leads nowhere.
walk-drop_while :
    (dir : List Str) (t : Str)
    → walk dir (split (drop_while (λ c. c == slash) t) slash) ≡ walk dir (split t slash)
walk-drop_while dir [] = refl
walk-drop_while dir (c ∷ t) = ground (arith, walk-drop_while dir t)

ups : ℕ → List Str → List Str
ups zero dir = dir
ups (suc n) dir = ups n (up dir)

-- `../` leads up.
walk-repeat :
    (n : ℕ) (dir : List Str) (t : Str)
    → walk dir (split (repeat (codes "../") n ++ t) slash) ≡ walk (ups n dir) (split t slash)
unfolding repeat ups
walk-repeat zero dir t = refl
walk-repeat (suc n) dir t = walk-repeat n (up dir) t

ups-length : (dir : List Str) → ups (length dir) dir ≡ []
unfolding ups
ups-length [] = refl
ups-length (n ∷ dir) = ups-length dir

count_slashes-append : (s t : Str) → count_slashes (s ++ t) ≡ count_slashes s + count_slashes t
unfolding count_slashes
count_slashes-append [] t = omega arith
count_slashes-append (c ∷ s) t = ground (arith, count_slashes-append s t)

count_slashes-name : (n : Str) → All (λ c. c ≢ slash) n → count_slashes n ≡ 0
unfolding count_slashes
count_slashes-name [] h = refl
count_slashes-name (c ∷ n) (h, hs) = ground (arith, count_slashes-name n hs)

count_slashes-below : (ns : List Str) → All IsName ns → count_slashes (below ns) ≡ length ns
unfolding count_slashes
count_slashes-below [] h = refl
count_slashes-below (n ∷ ns) (hn, hns) = omega (
  arith,
  count_slashes-append n (below ns),
  count_slashes-name n hn.1,
  count_slashes-below ns hns,
)

walk-relativize :
    (n : Str) (ns dir : List Str) (target : Str)
    → All IsName (n ∷ ns)
    → length dir ≡ length ns
    → walk dir (split (relativize (count_slashes (path_of (n ∷ ns))) target) slash)
      ≡ walk [] (split target slash)
unfolding relativize
walk-relativize n ns dir target names depth =
    let rest = drop_while (λ c. c == slash) target in
    let levels : count_slashes (path_of (n ∷ ns)) - 1 ≡ length dir =
      omega (arith, count_slashes-below (n ∷ ns) names) in
    ap (λ k. walk dir (split (repeat (codes "../") k ++ rest) slash)) levels
    ∙ walk-repeat (length dir) dir rest
    ∙ ap (λ d. walk d (split rest slash)) (ups-length dir)
    ∙ walk-drop_while [] target

-- A link with an absolute target, at a path of names: the target that `readlink` is given is relative,
-- and from the link's directory (as deep as the path has names but one) it leads where the absolute
-- target leads from the root.
pub resolve_symlink-walk :
    (n : Str) (ns dir : List Str) (raw_line before t : Str)
    → All IsName (n ∷ ns)
    → length dir ≡ length ns
    → find raw_line arrow ≡ some (before, arrow ++ slash ∷ t)
    → (r : Str) × (resolve_symlink (path_of (n ∷ ns)) raw_line ≡ ok r)
      × (walk dir (split r slash) ≡ walk [] (split (slash ∷ t) slash))
unfolding resolve_symlink parse_symlink_target
resolve_symlink-walk n ns dir raw_line before t names depth found = (
  relativize (count_slashes (path_of (n ∷ ns))) (slash ∷ t),
  ground arith,
  walk-relativize n ns dir (slash ∷ t) names depth,
)
