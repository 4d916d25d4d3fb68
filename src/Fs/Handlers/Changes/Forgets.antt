-- ===== src/Fs/Handlers/Changes/Forgets.antt =====
-- src/fs.rs: the cache behind the handlers that take names away.
use adbfs_rust.Base.{
  ℕ, Str, str_eq_iff, none, some, Result, ok, err, panicked, ◌≡◌, sym, ap, ◌∙◌, arith, text_eq,
  nat_eq, List, All, if◌then◌else◌, ◌++◌, ◌∷◌, [],
}
use adbfs_rust.Base.Exec.{◌>>◌, continue}
use adbfs_rust.Cache.Laws.{answer, answer-invalidate, answer-invalidate_prefix}
use adbfs_rust.Paths.{path_of, in_subtree, IsName}
use adbfs_rust.Ops.Device.{rm, rmdir as device_rmdir}
use adbfs_rust.Fs.State.{AdbFs, FsState, device}
use adbfs_rust.Fs.Inodes.{get_path, child_path}
use adbfs_rust.Fs.Inodes.Tree.{child_path-path_of}
use adbfs_rust.Fs.Handlers.Entries.{path_of_ino, or_enoent}
use adbfs_rust.Fs.Metadata.{cache_invalidate, cache_invalidate_prefix}
use adbfs_rust.Fs.Handlers.Changes.{unlink, rmdir}

module _ {W F : Type 0} (fs : AdbFs W F) where
  then_invalidate :
      (path : Str) (r : Result ℕ (Unit {0})) (s t : FsState W F) (later : ℕ)
      → continue r (λ _. cache_invalidate fs path) s ≡ (ok tt, t)
      → answer later path t.cache ≡ none
  unfolding cache_invalidate
  then_invalidate path (ok _) s t later h =
      sym (ap (λ p. answer later path p.1.cache) h)
      ∙ ground (arith, answer-invalidate later path path s.cache, str_eq_iff path path)
  then_invalidate path (err e) s t later h = cc
  then_invalidate path panicked s t later h = cc

  unlink_reached :
      (parent : ℕ) (parent_path name : Str) (s : FsState W F)
      → get_path parent s ≡ some parent_path
      → unlink fs parent name s
        ≡ (device (rm fs.ops (child_path parent_path name))
              >> cache_invalidate fs (child_path parent_path name))
            s
  unfolding unlink path_of_ino or_enoent
  unlink_reached parent parent_path name s h = rw h

  -- A file that `unlink` removed is no longer answered from the cache, at any time.
  pub unlink_forgets :
      (parent : ℕ) (parent_path name : Str) (s t : FsState W F) (later : ℕ)
      → get_path parent s ≡ some parent_path
      → unlink fs parent name s ≡ (ok tt, t)
      → answer later (child_path parent_path name) t.cache ≡ none
  unfolding unlink path_of_ino or_enoent
  unlink_forgets parent parent_path name s t later hp h =
      then_invalidate (child_path parent_path name)
        (device (rm fs.ops (child_path parent_path name)) s).0
        (device (rm fs.ops (child_path parent_path name)) s).1 t later
        (sym (unlink_reached parent parent_path name s hp) ∙ h)

  then_invalidate_prefix :
      (ps ns : List Str) (r : Result ℕ (Unit {0})) (s t : FsState W F) (later : ℕ)
      → All IsName ps
      → All IsName ns
      → continue r (λ _. cache_invalidate_prefix fs (path_of ps)) s ≡ (ok tt, t)
      → answer later (path_of ns) t.cache
        ≡ (if in_subtree ns ps then none else answer later (path_of ns) s.cache)
  unfolding cache_invalidate_prefix
  then_invalidate_prefix ps ns (ok _) s t later hp hn h =
      sym (ap (λ p. answer later (path_of ns) p.1.cache) h)
      ∙ answer-invalidate_prefix later ps ns s.cache hp hn
  then_invalidate_prefix ps ns (err e) s t later hp hn h = cc
  then_invalidate_prefix ps ns panicked s t later hp hn h = cc

  rmdir_reached :
      (parent : ℕ) (parent_path name : Str) (s : FsState W F)
      → get_path parent s ≡ some parent_path
      → rmdir fs parent name s
        ≡ (device (device_rmdir fs.ops (child_path parent_path name))
              >> cache_invalidate_prefix fs (child_path parent_path name))
            s
  unfolding rmdir path_of_ino or_enoent
  rmdir_reached parent parent_path name s h = rw h

  -- After `rmdir` has removed a directory the cache answers for no path in its subtree, and for the
  -- paths outside it as before.
  pub rmdir_forgets :
      (parent : ℕ) (dir : List Str) (name : Str) (ns : List Str) (s t : FsState W F) (later : ℕ)
      → All IsName (dir ++ name ∷ [])
      → All IsName dir
      → All IsName ns
      → get_path parent s ≡ some (path_of dir)
      → rmdir fs parent name s ≡ (ok tt, t)
      → answer later (path_of ns) t.cache
        ≡ (if in_subtree ns (dir ++ name ∷ []) then none else answer later (path_of ns) s.cache)
  unfolding device
  rmdir_forgets parent dir name ns s t later hc hd hn hp h =
      then_invalidate_prefix (dir ++ name ∷ []) ns
        (device (device_rmdir fs.ops (path_of (dir ++ name ∷ []))) s).0
        (device (device_rmdir fs.ops (path_of (dir ++ name ∷ []))) s).1 t later hc hn
        (sym (
            rmdir_reached parent (path_of dir) name s hp
            ∙ ap (λ p. (device (device_rmdir fs.ops p) >> cache_invalidate_prefix fs p) s)
                (child_path-path_of dir name hd))
          ∙ h)
