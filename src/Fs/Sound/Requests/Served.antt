-- ===== src/Fs/Sound/Requests/Served.antt =====
-- src/fs.rs: the tables of handles and local copies behind any requests.
use adbfs_rust.Base.{
  ℕ, zero, suc, ◌+◌, ◌<◌, ◌^◌, List, [], ◌∷◌, none, some, Result, ◌≡◌, ◌≢◌, sym, ap, ◌∙◌, arith,
  nat_eq, length, subst, inl, inr, Option-cases, codes, ◌++◌, show, parse_unsigned,
  parse_unsigned-show, append-cancel,
}
use adbfs_rust.Base.Map
use adbfs_rust.Base.Map.{get-nil}
use adbfs_rust.Base.Triples.{Outcome, returns, raises, panics, Keeps}
use adbfs_rust.Ops.Device.{OpsState}
use adbfs_rust.Fs.State.{AdbFs, FsState, Fs, OpenFile, new}
use adbfs_rust.Fs.Copies.{load, local_path_for}
use adbfs_rust.Fs.Sound.Tables.{
  Tables, tables, nothing, IsSound, IsOpened, locals_of, copy_at, handles_of_nobody,
}
use adbfs_rust.Fs.Sound.Acquire.{Good}
use adbfs_rust.Fs.Sound.Frames.{
  getattr-Keeps, lookup-Keeps, readlink-Keeps, readdir-Keeps, releasedir-Keeps, read-Keeps,
}
use adbfs_rust.Fs.Sound.Changes.{mkdir-Keeps, unlink-Keeps, rmdir-Keeps, rename-Keeps, mknod-Keeps}
use adbfs_rust.Fs.Sound.Handlers.{
  Serves, Serves-Keeps, open_file-Serves, write-Serves, flush-Serves, release-Keeps, setattr-Keeps,
  create-Serves, opendir-Serves,
}
use adbfs_rust.Fs.Handlers.Entries.{access}
use adbfs_rust.Fs.Sound.Requests.{Request, replied, after, serve, serve_all}

some-inj : {A : Type 0} (a b : A) → some a ≡ some b → a ≡ b
some-inj a b e = cc

lt_pow : (n : ℕ) → n < 2 ^ n
lt_pow zero = omega arith
lt_pow (suc n) = omega (arith, lt_pow n)

show-inj : (a b : ℕ) → show a ≡ show b → a ≡ b
show-inj a b e = some-inj a b (
    sym (parse_unsigned-show (a + b) a (omega (arith, lt_pow (a + b))))
    ∙ ap (parse_unsigned (a + b) 10) e
    ∙ parse_unsigned-show (a + b) b (omega (arith, lt_pow (a + b))))

module _ {W F : Type 0} (fs : AdbFs W F) where
  replied_lem :
      {A : Type 0} {P : FsState W F → Type 0} (r : Result ℕ A) (s t : FsState W F)
      → Outcome (λ _. P) P r s
      → replied r s ≡ some t
      → P t
  unfolding replied
  replied_lem {P} _ s t (returns p) e = subst P (cc) p
  replied_lem {P} _ s t (raises p) e = subst P (cc) p
  replied_lem _ s t panics e = cc

  module _ (n : ℕ) where
    after_lem :
        {A : Type 0} (m : Fs W F A) (s t : FsState W F)
        → Serves fs n m
        → Good fs nothing (suc n) s
        → after fs m s ≡ some t
        → Good fs nothing n t
    unfolding after
    after_lem m s t h g e = replied_lem (m s).0 (m s).1 t (h.run s g) e

    frame :
        {A : Type 0} (m : Fs W F A) (s t : FsState W F)
        → ((I : Tables F → Type 0) → Keeps (λ u. I (tables u)) m)
        → Good fs nothing (suc n) s
        → after fs m s ≡ some t
        → Good fs nothing n t
    frame m s t h = after_lem m s t (Serves-Keeps fs n (h (IsSound (locals_of fs) nothing (suc n))))

    serve_lem :
        (request : Request) (s t : FsState W F)
        → Good fs nothing (suc n) s
        → serve fs request s ≡ some t
        → Good fs nothing n t
    unfolding serve access
    serve_lem (Request.getattr ino) s t = frame _ s t (λ I. getattr-Keeps fs I ino)
    serve_lem (Request.lookup parent name) s t = frame _ s t (λ I. lookup-Keeps fs I parent name)
    serve_lem (Request.opendir ino) s t = after_lem _ s t (opendir-Serves fs n ino)
    serve_lem (Request.readdir full fh offset) s t =
        frame _ s t (λ I. readdir-Keeps fs I full fh offset)
    serve_lem (Request.releasedir fh) s t = frame _ s t (λ I. releasedir-Keeps fs I fh)
    serve_lem (Request.open_file ino) s t = after_lem _ s t (open_file-Serves fs n ino)
    serve_lem (Request.read fh offset size) s t = frame _ s t (λ I. read-Keeps fs I fh offset size)
    serve_lem (Request.write fh offset bytes) s t =
        after_lem _ s t (write-Serves fs n fh offset bytes)
    serve_lem (Request.flush fh) s t = after_lem _ s t (flush-Serves fs n fh)
    serve_lem (Request.release fh) s t =
        after_lem _ s t (Serves-Keeps fs n (release-Keeps fs (suc n) fh))
    serve_lem (Request.create parent name) s t = after_lem _ s t (create-Serves fs n parent name)
    serve_lem (Request.mkdir parent name) s t = frame _ s t (λ I. mkdir-Keeps fs I parent name)
    serve_lem (Request.unlink parent name) s t = frame _ s t (λ I. unlink-Keeps fs I parent name)
    serve_lem (Request.rmdir parent name) s t = frame _ s t (λ I. rmdir-Keeps fs I parent name)
    serve_lem (Request.rename parent name newparent newname) s t =
        frame _ s t (λ I. rename-Keeps fs I parent name newparent newname)
    serve_lem (Request.readlink ino) s t = frame _ s t (λ I. readlink-Keeps fs I ino)
    serve_lem (Request.setattr ino size atime mtime) s t =
        after_lem _ s t (Serves-Keeps fs n (setattr-Keeps fs (suc n) ino size atime mtime))
    serve_lem (Request.access ino mask) s t =
        frame (access fs ino mask) s t (λ I. record { run = λ u h. returns h })
    serve_lem (Request.mknod parent name mode rdev) s t =
        frame _ s t (λ I. mknod-Keeps fs I parent name mode rdev)

  serve_all_lem :
      (requests : List Request) (s t : FsState W F)
      → Good fs nothing (length requests) s
      → serve_all fs requests s ≡ some t
      → Good fs nothing 0 t
  unfolding serve_all
  serve_all_lem [] s t h e = subst (Good fs nothing 0) (some-inj s t e) h
  serve_all_lem (request ∷ requests) s t h e = elim (Option-cases (serve fs request s)) [
    | inl stopped ↦ cc
    | inr (u, served) ↦
        serve_all_lem requests u t (serve_lem (length requests) request s u h served)
          (sym (ap (λ o. elim o [ none ↦ none | some t ↦ serve_all fs requests t ]) served) ∙ e)
  ]

  new-Good :
      (device : OpsState W) (cache_ttl n : ℕ)
      → 1 + n < 2 ^ 64
      → Good fs nothing n (new device cache_ttl)
  unfolding new
  new-Good device cache_ttl n few = record {
    unique = tt;
    fresh = λ fh f e. cc (get-nil {V = OpenFile F} fh);
    on_mapped = λ fh f e. cc (get-nil {V = OpenFile F} fh);
    apart = λ i j p e. cc (get-nil {V = ℕ} i);
    held_mapped = tt;
    few = omega arith;
    room = few;
    opened = λ fh f e. cc (get-nil {V = OpenFile F} fh);
    backed = λ i p e. cc (get-nil {V = ℕ} i);
  }

  -- Whatever requests `AdbFs` has served from its start on, errors included, no handle is open on a
  -- copy that is not the one in `open_copies` for its inode, each handle's file was opened at its
  -- inode's own local path, and each copy there is not evicted, is at its inode's own local path and
  -- counts exactly the handles that are open on it, at least one; as long as there were fewer than 2^64 - 1 requests, since each may use up a handle's number.
  pub serve_all-IsSound :
      (device : OpsState W) (cache_ttl : ℕ) (requests : List Request) (t : FsState W F)
      → 1 + length requests < 2 ^ 64
      → serve_all fs requests (new device cache_ttl) ≡ some t
      → IsSound (locals_of fs) nothing 0 (tables t)
  serve_all-IsSound device cache_ttl requests t few e =
      serve_all_lem requests (new device cache_ttl) t (new-Good device cache_ttl _ few) e

  -- Whatever requests were served, fewer than 2^64 - 1 of them: when no handle is open, no local copy is in use.
  pub serve_all-none_left :
      (device : OpsState W) (cache_ttl : ℕ) (requests : List Request) (t : FsState W F) (ino : ℕ)
      → 1 + length requests < 2 ^ 64
      → serve_all fs requests (new device cache_ttl) ≡ some t
      → t.open_files ≡ []
      → Map.get ino t.open_copies ≡ none
  serve_all-none_left device cache_ttl requests t ino few e closed =
      elim (Option-cases (Map.get ino t.open_copies)) [
        | inl none_mapped ↦ none_mapped
        | inr (p, mapped) ↦
            let h = serve_all-IsSound device cache_ttl requests t few e in
            let b = h.backed ino p mapped in
            absurd (
              b.used (
                omega (
                  arith,
                  b.counted,
                  handles_of_nobody p t.open_files h.unique
                      (λ fh f g _. cc (closed, g, get-nil {V = OpenFile F} fh)),
                )))
      ]

  local_path_for-inj : (i j : ℕ) → local_path_for fs i ≡ local_path_for fs j → i ≡ j
  unfolding local_path_for
  local_path_for-inj i j e = show-inj i j (append-cancel (fs.tmp_dir ++ codes "/") e)

  -- Whatever requests were served, fewer than 2^64 - 1 of them, of any two open handles: the file of
  -- each, which `read` and `write` use, was opened at the local path of the handle's copy, which
  -- `push_if_dirty` pushes; on the same inode they are on the same copy, and on different inodes on
  -- copies with different local paths.
  pub serve_all-share :
      (device : OpsState W) (cache_ttl : ℕ) (requests : List Request) (t : FsState W F) (fh gh : ℕ)
      (f g : OpenFile F)
      → 1 + length requests < 2 ^ 64
      → serve_all fs requests (new device cache_ttl) ≡ some t
      → Map.get fh t.open_files ≡ some f
      → Map.get gh t.open_files ≡ some g
      → IsOpened fs (load f.copy t).path f.file
        × IsOpened fs (load g.copy t).path g.file
        × (f.ino ≡ g.ino → f.copy ≡ g.copy)
        × (f.ino ≢ g.ino → (load f.copy t).path ≢ (load g.copy t).path)
  unfolding load copy_at
  serve_all-share device cache_ttl requests t fh gh f g few e hf hg =
      let h = serve_all-IsSound device cache_ttl requests t few e in
      let mf = h.on_mapped fh f hf in
      let mg = h.on_mapped gh g hg in
      let pf = (h.backed f.ino f.copy mf).own_path in
      let pg = (h.backed g.ino g.copy mg).own_path in
      (
        subst (λ path. IsOpened fs path f.file) (sym pf) (h.opened fh f hf),
        subst (λ path. IsOpened fs path g.file) (sym pg) (h.opened gh g hg),
        λ same. some-inj f.copy g.copy (sym mf ∙ ap (λ i. Map.get i t.open_copies) same ∙ mg),
        λ apart paths. apart (local_path_for-inj f.ino g.ino (sym pf ∙ paths ∙ pg)),
      )
