-- ===== src/Fs/Handlers/Changes/Renames.antt =====
-- src/fs.rs: what a successful `rename` leaves in the maps of inodes and in the cache, in the tree of
-- names.
use adbfs_rust.Base.{
  ℕ, nat_eq, text_eq, Str, str_eq_iff, arith, Option, if◌then◌else◌, true, false, List, [], ◌∷◌,
  ◌++◌, none, some, Result, ok, err, panicked, ◌≡◌, ◌≢◌, refl, sym, ap, ◌∙◌, All, subst,
}
use adbfs_rust.Base.Exec.{continue, ◌>>◌}
use adbfs_rust.Base.Map
use adbfs_rust.Cache
use adbfs_rust.Cache.Laws.{answer, answer-invalidate_prefix}
use adbfs_rust.Paths.{path_of, strip_names, in_subtree, IsName}
use adbfs_rust.Ops.Device.{mv}
use adbfs_rust.Fs.State.{AdbFs, FsState, device}
use adbfs_rust.Fs.Inodes.{Inodes, get_path, child_path, rekey, rekey_paths, inodes}
use adbfs_rust.Fs.Inodes.Consistent.{IsConsistent}
use adbfs_rust.Fs.Inodes.Tree.{
  child_path-path_of, rekey-path_of_IsConsistent, rekey-path_of_moved, rekey-path_of_other,
}
use adbfs_rust.Fs.Metadata.{cache_invalidate_prefix}
use adbfs_rust.Fs.Handlers.Changes.{rename, rename_paths, both_paths, child_of}

-- Two paths other than the root, of which neither lies in the other.
pub record IsMove (from to : List Str) : Type 0 where
  pub from_names : All IsName from
  pub to_names : All IsName to
  pub from_below : from ≢ []
  pub to_below : to ≢ []
  pub not_into : in_subtree from to ≡ false
  pub not_over : in_subtree to from ≡ false

-- The names of a path once a subtree has moved.
abbrev pub moved_names : List Str → List Str → List Str → List Str
moved_names from to ns = elim (strip_names ns from) [ none ↦ ns | some rs ↦ to ++ rs ]

strip_names_sound : (ns ps rs : List Str) → strip_names ns ps ≡ some rs → ns ≡ ps ++ rs
strip_names_sound ns [] rs h = ground (arith, h)
strip_names_sound [] (p ∷ ps) rs h = cc
strip_names_sound (n ∷ ns) (p ∷ ps) rs h =
    ground (arith, str_eq_iff n p, strip_names_sound ns ps rs)

module _ (f : Str) (fs : List Str) (t : Str) (ts : List Str) (table : Inodes)
    (h : IsMove (f ∷ fs) (t ∷ ts)) (c : IsConsistent table) (i : ℕ) where
  rekeyed-get :
      (ns : List Str) (rest : Option (List Str))
      → strip_names ns (f ∷ fs) ≡ rest
      → All IsName ns
      → in_subtree ns (t ∷ ts) ≡ false
      → Map.get i table.ino_to_path ≡ some (path_of ns)
      → Map.get i (rekey (path_of (f ∷ fs)) (path_of (t ∷ ts)) table).ino_to_path
        ≡ some (path_of (elim rest [ none ↦ ns | some rs ↦ (t ∷ ts) ++ rs ]))
  rekeyed-get ns none e hn out g =
      rekey-path_of_other f fs t ts table h.from_names h.to_names h.not_into h.not_over c i ns hn
        (ap (λ r. elim r [ none ↦ false | some q ↦ true ]) e) out g
  rekeyed-get ns (some rs) e hn out g =
      let same = strip_names_sound ns (f ∷ fs) rs e in
      rekey-path_of_moved f fs t ts table h.from_names h.to_names h.not_into h.not_over c i rs
        (subst (All IsName) same hn) (g ∙ ap (λ ms. some (path_of ms)) same)

-- The inodes follow a subtree that moves, and the two maps stay inverse to one another.
rekey-moved_names :
    (from to ns : List Str) (table : Inodes) (i : ℕ)
    → IsMove from to
    → IsConsistent table
    → All IsName ns
    → in_subtree ns to ≡ false
    → Map.get i table.ino_to_path ≡ some (path_of ns)
    → IsConsistent (rekey (path_of from) (path_of to) table)
      × (Map.get i (rekey (path_of from) (path_of to) table).ino_to_path
          ≡ some (path_of (moved_names from to ns)))
rekey-moved_names [] to ns table i h c hn out g = absurd (h.from_below refl)
rekey-moved_names (f ∷ fs) [] ns table i h c hn out g = absurd (h.to_below refl)
rekey-moved_names (f ∷ fs) (t ∷ ts) ns table i h c hn out g = (
  rekey-path_of_IsConsistent f fs t ts table h.from_names h.to_names h.not_into h.not_over c,
  rekeyed-get f fs t ts table h c i ns (strip_names ns (f ∷ fs)) refl hn out g,
)

-- What the cache answers once the subtrees at two paths are forgotten.
answer-forgotten :
    (from to ns : List Str) (later : ℕ) (cache : Cache.MetadataCache)
    → IsMove from to
    → All IsName ns
    → answer later
        (path_of ns)
        (Cache.invalidate_prefix (path_of to) (Cache.invalidate_prefix (path_of from) cache))
      ≡ (if in_subtree ns to
          then none
          else if in_subtree ns from
          then none
          else answer later (path_of ns) cache)
answer-forgotten from to ns later cache h hn =
    answer-invalidate_prefix later to ns (Cache.invalidate_prefix (path_of from) cache) h.to_names
      hn
    ∙ ap (λ a. if in_subtree ns to then none else a)
        (answer-invalidate_prefix later from ns cache h.from_names hn)

module _ {W F : Type 0} (fs : AdbFs W F) where
  then_rekey :
      (from to : Str) (r : Result ℕ (Unit {0})) (s t : FsState W F)
      → continue r
          (λ _.
            rekey_paths from to
            >> (cache_invalidate_prefix fs from >> cache_invalidate_prefix fs to))
          s
        ≡ (ok tt, t)
      → (inodes t ≡ rekey from to (inodes s))
        × (t.cache ≡ Cache.invalidate_prefix to (Cache.invalidate_prefix from s.cache))
  unfolding cache_invalidate_prefix rekey_paths
  then_rekey from to (ok _) s t h = (sym (ap (λ p. inodes p.1) h), sym (ap (λ p. p.1.cache) h))
  then_rekey from to (err e) s t h = cc
  then_rekey from to panicked s t h = cc

  rename_reached :
      (parent newparent : ℕ) (p q name newname : Str) (s : FsState W F)
      → get_path parent s ≡ some p
      → get_path newparent s ≡ some q
      → rename fs parent name newparent newname s
        ≡ rename_paths fs (child_path p name) (child_path q newname) s
  unfolding rename both_paths child_of
  rename_reached parent newparent p q name newname s hp hq = rw (hp, hq)

  renamed_tables :
      (from to : Str) (s t : FsState W F)
      → rename_paths fs from to s ≡ (ok tt, t)
      → (inodes t ≡ rekey from to (inodes s))
        × (t.cache ≡ Cache.invalidate_prefix to (Cache.invalidate_prefix from s.cache))
  unfolding rename_paths device
  renamed_tables from to s t h =
      then_rekey from to (device (mv fs.ops from to) s).0 (device (mv fs.ops from to) s).1 t h

  -- A successful rename of a path to another one, of which neither lies in the other, where the maps of
  -- inodes are inverse to one another: they still are; an inode of a path, not one in the subtree at
  -- the new path, stands afterwards for that path with the old path's names replaced by the new
  -- path's if it lies in the subtree that moved, and else for the path as before; and the cache
  -- answers at any time for no path in either subtree, and for every other path as before.
  pub rename_lem :
      (parent newparent : ℕ) (dir newdir : List Str) (name newname : Str) (s t : FsState W F)
      (i : ℕ) (ns ms : List Str) (later : ℕ)
      → IsMove (dir ++ name ∷ []) (newdir ++ newname ∷ [])
      → All IsName dir
      → All IsName newdir
      → All IsName ns
      → All IsName ms
      → in_subtree ns (newdir ++ newname ∷ []) ≡ false
      → IsConsistent (inodes s)
      → get_path parent s ≡ some (path_of dir)
      → get_path newparent s ≡ some (path_of newdir)
      → get_path i s ≡ some (path_of ns)
      → rename fs parent name newparent newname s ≡ (ok tt, t)
      → IsConsistent (inodes t)
        × (get_path i t
            ≡ some (path_of (moved_names (dir ++ name ∷ []) (newdir ++ newname ∷ []) ns)))
        × (answer later (path_of ms) t.cache ≡ (
            if in_subtree ms (newdir ++ newname ∷ [])
            then none
            else if in_subtree ms (dir ++ name ∷ [])
            then none
            else answer later (path_of ms) s.cache))
  unfolding get_path
  rename_lem parent newparent dir newdir name newname s t i ns ms later move hd hd' hn hm out c hp
        hq hi h =
      let from = dir ++ name ∷ [] in
      let to = newdir ++ newname ∷ [] in
      let paths : rename fs parent name newparent newname s
          ≡ rename_paths fs (path_of from) (path_of to) s =
        rename_reached parent newparent (path_of dir) (path_of newdir) name newname s hp hq
        ∙ ap (λ p. rename_paths fs p (child_path (path_of newdir) newname) s)
            (child_path-path_of dir name hd)
        ∙ ap (λ p. rename_paths fs (path_of from) p s) (child_path-path_of newdir newname hd') in
      let tables = renamed_tables (path_of from) (path_of to) s t (sym paths ∙ h) in
      let moved = rekey-moved_names from to ns (inodes s) i move c hn out hi in
      (
        subst IsConsistent (sym tables.0) moved.0,
        ap (λ m. Map.get i m.ino_to_path) tables.0 ∙ moved.1,
        ap (answer later (path_of ms)) tables.1 ∙ answer-forgotten from to ms later s.cache move hm,
      )
