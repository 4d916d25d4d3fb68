-- ===== src/Fs/Copies/Failures.antt =====
-- src/fs.rs: acquisitions of a local copy that fail.
use adbfs_rust.Base.{
  ℕ, Str, Bool, if◌then◌else◌, true, false, none, some, Result, ok, err, panicked, ◌≡◌, refl, sym,
  ap, ◌∙◌, arith, ◌+◌, nat_eq,
}
use adbfs_rust.Base.Exec.{Exec, pure, raise, gets, lift, continue, ◌>>=◌}
use adbfs_rust.Base.Map
use adbfs_rust.Base.Map.{get-insert, get-remove, beq_refl}
use adbfs_rust.Fs.State.{AdbFs, FsState, LocalCopy, Ptr, attempt, device, system, new_copy}
use adbfs_rust.Ops.Device.{pull}
use adbfs_rust.Fs.Copies.{
  CopyInit, pull_contents, empty, load, store, set_dirty, remove_if_same, local_path_for,
  entry_or_insert, populate, abandon, take_reference, acquire_rounds, acquire_copy,
}

module _ {W F : Type 0} (fs : AdbFs W F) where
  -- The copies and the map of the copies in use.
  abbrev copies_of : FsState W F → Map.Map Ptr LocalCopy × Map.Map ℕ Ptr
  copies_of s = (s.copies, s.open_copies)

  created_failed :
      (ptr : Ptr) (r : Result ℕ (Unit {0})) (s t : FsState W F) (e : ℕ)
      → continue r (λ _. set_dirty ptr true) s ≡ (err e, t)
      → copies_of t ≡ copies_of s
  unfolding set_dirty store
  created_failed ptr (ok _) s t e h = cc
  created_failed ptr (err e') s t e h = sym (ap (λ p. copies_of p.1) h)
  created_failed ptr panicked s t e h = cc

  populate_failed :
      (path : Str) (ptr : Ptr) (c : LocalCopy) (init : CopyInit) (s t : FsState W F) (e : ℕ)
      → populate fs path ptr c init s ≡ (err e, t)
      → copies_of t ≡ copies_of s
  unfolding populate device system
  populate_failed path ptr c empty s t e h =
      created_failed ptr (system (fs.local.create c.path) s).0 (system (fs.local.create c.path) s).1
        t e h
  populate_failed path ptr c pull_contents s t e h =
      elim c.pulled
          as (λ b.
            (if b then pure tt else device (pull fs.ops path c.path)) s ≡ (err e, t)
            → copies_of t ≡ copies_of s) [
              | true ↦ λ g. cc
              | false ↦ λ g. sym (ap (λ p. copies_of p.1) g)
            ]
        h

  remove_if_same-mapped :
      (ino : ℕ) (ptr : Ptr) (s : FsState W F)
      → Map.get ino s.open_copies ≡ some ptr
      → remove_if_same ino ptr s ≡ (ok tt, record s { open_copies = Map.remove ino s.open_copies })
  unfolding remove_if_same
  remove_if_same-mapped ino ptr s mapped = ground arith

  abandon-get :
      (ino : ℕ) (ptr : Ptr) (e : ℕ) (s : FsState W F)
      → (load ptr s).refs ≡ 0
      → Map.get ino s.open_copies ≡ some ptr
      → Map.get ino (abandon fs ino ptr e s).1.open_copies ≡ none
  unfolding abandon store
  abandon-get ino ptr e s unused mapped = rw unused (
      ap
        (λ (p : Result ℕ (Unit {0}) × FsState W F).
          Map.get ino (continue {S = FsState W F} p.0 (λ _. raise {A = Ptr} e) p.1).1.open_copies)
        (remove_if_same-mapped ino ptr
          (store ptr (record (load ptr s) { refs = 0; evicted = true }) s).1 mapped)
      ∙ ground (arith, get-remove ino ino s.open_copies))

  taken_failed :
      (ino : ℕ) (ptr : Ptr) (r : Result ℕ (Unit {0})) (s t : FsState W F) (e : ℕ)
      → (load ptr s).refs ≡ 0
      → Map.get ino s.open_copies ≡ some ptr
      → take_reference fs ino ptr r s ≡ (err e, t)
      → Map.get ino t.open_copies ≡ none
  unfolding take_reference store
  taken_failed ino ptr (err e') s t e unused mapped h =
      sym (ap (λ p. Map.get ino p.1.open_copies) h) ∙ abandon-get ino ptr e' s unused mapped
  taken_failed ino ptr panicked s t e unused mapped h = cc
  taken_failed ino ptr (ok _) s t e unused mapped h = cc

  filled_failed :
      (ino : ℕ) (path : Str) (ptr : Ptr) (c : LocalCopy) (init : CopyInit) (r : Result ℕ (Unit {0}))
      (u s t : FsState W F) (e : ℕ)
      → (load ptr s).refs ≡ 0
      → Map.get ino s.open_copies ≡ some ptr
      → populate fs path ptr c init s ≡ (r, u)
      → (attempt (λ _. (r, u)) >>= take_reference fs ino ptr) s ≡ (err e, t)
      → Map.get ino t.open_copies ≡ none
  unfolding attempt load take_reference store
  filled_failed ino path ptr c init (err e') u s t e unused mapped filled h =
      let same : copies_of u ≡ copies_of s = populate_failed path ptr c init s u e' filled in
      taken_failed ino ptr (err e') u t e
        (ap (λ m. (load ptr (record s { copies = m.0; open_copies = m.1 })).refs) same ∙ unused)
        (ap (λ m. Map.get ino m.1) same ∙ mapped) h
  filled_failed ino path ptr c init panicked u s t e unused mapped filled h = cc
  filled_failed ino path ptr c init (ok _) u s t e unused mapped filled h = cc

  -- A round of the loop on the copy that it works with.
  abbrev on_copy : ℕ → Str → CopyInit → Ptr → Exec (FsState W F) ℕ Ptr → Exec (FsState W F) ℕ Ptr
  on_copy ino path init ptr again = do
    c ← gets (load ptr)
    if c.evicted then again else (do
      populated ← attempt (populate fs path ptr c init)
      take_reference fs ino ptr populated)

  -- The state in which a new copy is in use.
  abbrev with_new_copy : ℕ → FsState W F → FsState W F
  with_new_copy ino s = record s {
    open_copies = Map.insert ino s.next_ptr s.open_copies;
    copies = Map.insert s.next_ptr (new_copy (local_path_for fs ino)) s.copies;
    next_ptr = s.next_ptr + 1;
  }

  entry-new :
      (ino : ℕ) (s : FsState W F)
      → Map.get ino s.open_copies ≡ none
      → entry_or_insert fs ino s ≡ (ok s.next_ptr, with_new_copy ino s)
  unfolding entry_or_insert
  entry-new ino s unmapped = ground arith

  acquire_new :
      (ino : ℕ) (path : Str) (init : CopyInit) (s : FsState W F)
      → Map.get ino s.open_copies ≡ none
      → acquire_copy fs ino path init s
        ≡ on_copy ino path init s.next_ptr (lift panicked) (with_new_copy ino s)
  unfolding acquire_copy acquire_rounds
  acquire_new ino path init s unmapped =
      ap (λ p. continue p.0 (λ ptr. on_copy ino path init ptr (lift panicked)) p.1)
        (entry-new ino s unmapped)

  load-new :
      (ino : ℕ) (s : FsState W F)
      → load s.next_ptr (with_new_copy ino s) ≡ new_copy (local_path_for fs ino)
  unfolding load
  load-new ino s =
      ground (arith, get-insert s.next_ptr s.next_ptr (new_copy (local_path_for fs ino)) s.copies)

  guarded_failed :
      (evicted : Bool) (ino : ℕ) (path : Str) (ptr : Ptr) (init : CopyInit)
      (again : Exec (FsState W F) ℕ Ptr) (c : LocalCopy) (s t : FsState W F) (e : ℕ)
      → evicted ≡ false
      → (load ptr s).refs ≡ 0
      → Map.get ino s.open_copies ≡ some ptr
      → (if evicted then again else (do
        populated ← attempt (populate fs path ptr c init)
        take_reference fs ino ptr populated))
          s
        ≡ (err e, t)
      → Map.get ino t.open_copies ≡ none
  unfolding populate take_reference attempt
  guarded_failed true ino path ptr init again c s t e fresh unused mapped h = cc
  guarded_failed false ino path ptr init again c s t e fresh unused mapped h =
      filled_failed ino path ptr c init (populate fs path ptr c init s).0
        (populate fs path ptr c init s).1 s t e unused mapped refl h

  -- Where an inode has no local copy in use, an acquisition that fails, at the pull or at the local
  -- file, leaves none in use.
  pub acquire_copy_failed :
      (ino : ℕ) (path : Str) (init : CopyInit) (s t : FsState W F) (e : ℕ)
      → Map.get ino s.open_copies ≡ none
      → acquire_copy fs ino path init s ≡ (err e, t)
      → Map.get ino t.open_copies ≡ none
  acquire_copy_failed ino path init s t e unmapped h =
      guarded_failed (load s.next_ptr (with_new_copy ino s)).evicted ino path s.next_ptr init
        (lift panicked) (load s.next_ptr (with_new_copy ino s)) (with_new_copy ino s) t e
        (ap (λ c. c.evicted) (load-new ino s)) (ap (λ c. c.refs) (load-new ino s))
        (ground (arith, get-insert ino ino s.next_ptr s.open_copies))
        (sym (acquire_new ino path init s unmapped) ∙ h)
