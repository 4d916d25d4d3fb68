-- ===== src/Examples/Names.antt =====
-- Paths and inodes at concrete inputs.
use adbfs_rust.Base.{
  str_eq_iff, ℕ, Str, codes, [], ◌∷◌, some, ◌≡◌, ◌≢◌, refl, arith, text_eq, nat_eq,
}
use adbfs_rust.Base.Map
use adbfs_rust.Base.Map.{get-cons, get-nil}
use adbfs_rust.Paths.{path_of, IsName}
use adbfs_rust.Base.{none}
use adbfs_rust.Cache.{get, insert, new}
use adbfs_rust.Fs.Metadata.{cache_invalidate_prefix}
use adbfs_rust.Cache.Laws.{answer}
use adbfs_rust.Ops.Device.{mv, run_mutation}
use adbfs_rust.Ops.Messages.{first_message}
use adbfs_rust.Fs.State.{FsState, device}
use adbfs_rust.Fs.Handlers.Changes.{rename}
use adbfs_rust.Fs.Handlers.Changes.Renames.{IsMove, rename_lem}
use adbfs_rust.Examples.World.{World, quiet_fs, start}
use adbfs_rust.Fs.Inodes.{Inodes, assign, rekey, inodes, get_path, rekey_paths}
use adbfs_rust.Fs.Inodes.Interleaved.{assign_missing, assigned_twice}
use adbfs_rust.Fs.Inodes.Consistent.{IsConsistent, assign-IsConsistent}
use adbfs_rust.Fs.Inodes.Tree.{rekey-path_of_IsConsistent, rekey-path_of_moved}

abbrev a : Str
a = codes "a"

abbrev ab : Str
ab = codes "ab"

abbrev c : Str
c = codes "c"

a-IsName : IsName a
a-IsName = (ground arith, ground arith)

c-IsName : IsName c
c-IsName = (ground arith, ground arith)

ab-IsName : IsName ab
ab-IsName = (ground arith, ground arith)

abbrev root : Inodes
root = record { path_to_ino = (codes "/", 1) ∷ []; ino_to_path = (1, codes "/") ∷ []; next_ino = 2 }

root-IsConsistent : IsConsistent root
root-IsConsistent = record {
  unique = (tt, tt);
  forward = λ p i h. ground (
    arith,
    get-cons {V = ℕ} p (codes "/") 1 [],
    get-nil {V = ℕ} p,
    get-cons {V = Str} i 1 (codes "/") [],
    str_eq_iff (codes "/") p,
  );
  backward = λ i p h. ground (
    arith,
    get-cons {V = ℕ} p (codes "/") 1 [],
    get-nil {V = Str} i,
    get-cons {V = Str} i 1 (codes "/") [],
    str_eq_iff (codes "/") p,
  );
  issued = λ i p h. ground (arith, get-nil {V = Str} i, get-cons {V = Str} i 1 (codes "/") []);
}

-- `/a`, `/a/c` and `/ab` have the inodes 2, 3 and 4.
abbrev tree : Inodes
tree =
    (assign (path_of (ab ∷ []))
      (assign (path_of (a ∷ c ∷ [])) (assign (path_of (a ∷ [])) root).1).1).1

tree-IsConsistent : IsConsistent tree
unfolding assign Map.get Map.insert
tree-IsConsistent =
    assign-IsConsistent (path_of (ab ∷ []))
      (assign (path_of (a ∷ c ∷ [])) (assign (path_of (a ∷ [])) root).1).1
      (assign-IsConsistent (path_of (a ∷ c ∷ [])) (assign (path_of (a ∷ [])) root).1
        (assign-IsConsistent (path_of (a ∷ [])) root root-IsConsistent (omega arith)) (omega arith))
      (omega arith)

rekey-path_of_IsConsistent_example : IsConsistent (rekey (codes "/a") (codes "/c") tree)
rekey-path_of_IsConsistent_example =
    rekey-path_of_IsConsistent a [] c [] tree (a-IsName, tt) (c-IsName, tt) refl refl
      tree-IsConsistent

rekey-path_of_moved_example :
    Map.get 3 (rekey (codes "/a") (codes "/c") tree).ino_to_path ≡ some (codes "/c/c")
unfolding Map.get assign Map.insert
rekey-path_of_moved_example =
    rekey-path_of_moved a [] c [] tree (a-IsName, tt) (c-IsName, tt) refl refl tree-IsConsistent 3
      (c ∷ []) (a-IsName, (c-IsName, tt)) refl

-- The cache knows the three paths.
abbrev in_tree : FsState World (Unit {0})
in_tree = record start {
  path_to_ino = tree.path_to_ino;
  ino_to_path = tree.ino_to_path;
  next_ino = tree.next_ino;
  cache =
      insert 0 (codes "/ab") none
        (insert 0 (codes "/a/c") none (insert 0 (codes "/a") none (new 30)));
}

a-to_c : IsMove (a ∷ []) (c ∷ [])
a-to_c = record {
  from_names = (a-IsName, tt);
  to_names = (c-IsName, tt);
  from_below = ground arith;
  to_below = ground arith;
  not_into = refl;
  not_over = refl;
}

rename_lem_example :
    IsConsistent (inodes (rename quiet_fs 1 a 1 c in_tree).1)
    × (get_path 3 (rename quiet_fs 1 a 1 c in_tree).1 ≡ some (codes "/c/c"))
    × (answer 1 (codes "/ab") (rename quiet_fs 1 a 1 c in_tree).1.cache ≡ some none)
unfolding rename get_path Map.get assign Map.insert device mv run_mutation first_message rekey_paths
    cache_invalidate_prefix get insert new
rename_lem_example =
    rename_lem quiet_fs 1 1 [] [] a c in_tree (rename quiet_fs 1 a 1 c in_tree).1 3 (a ∷ c ∷ [])
      (ab ∷ []) 1 a-to_c tt tt (a-IsName, (c-IsName, tt)) (ab-IsName, tt) refl tree-IsConsistent
      refl refl refl refl

-- Two threads meet `/c` at once.
abbrev first_reply : ℕ × Inodes
first_reply = assign (codes "/c") root

abbrev second_reply : ℕ × Inodes
second_reply = assign_missing (codes "/c") first_reply.1

assigned_twice_example :
    (first_reply.0 ≢ second_reply.0)
    × (Map.get first_reply.0 second_reply.1.ino_to_path ≡ some (codes "/c"))
    × (Map.get second_reply.0 second_reply.1.ino_to_path ≡ some (codes "/c"))
    × (Map.get (codes "/c") second_reply.1.path_to_ino ≡ some second_reply.0)
unfolding Map.get
assigned_twice_example = assigned_twice (codes "/c") root refl (omega arith)
