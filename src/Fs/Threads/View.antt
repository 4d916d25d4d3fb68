-- ===== src/Fs/Threads/View.antt =====
-- src/fs.rs: the counts, marks and map of the local copies in a state of the file system.
use adbfs_rust.Base.{
  ℕ, [], ◌+◌, ◌%◌, ◌^◌, Str, true, false, none, some, Result, ok, err, panicked, ◌≡◌, ◌≢◌, refl,
  sym, ap, ◌∙◌, arith, nat_eq, fun_ext, ◌==◌, if◌then◌else◌,
}
use adbfs_rust.Base.Exec.{Exec, pure, continue}
use adbfs_rust.Base.Map
use adbfs_rust.Base.Map.{get-insert, get-remove}
use adbfs_rust.Base.Family.{update}
use adbfs_rust.Fs.State.{AdbFs, FsState, LocalCopy, Ptr, system, device, new_copy}
use adbfs_rust.Ops.Device.{pull}
use adbfs_rust.Fs.Copies.{
  CopyInit, empty, pull_contents, load, store, set_dirty, remove_if_same, entry_or_insert, populate,
  take_reference, local_path_for,
}
use adbfs_rust.Fs.Threads.Protocol.{Shared, with_copy}

Shared-ext :
    (m m' : Shared)
    → ((p : Ptr) → m.refs p ≡ m'.refs p)
    → ((p : Ptr) → m.evicted p ≡ m'.evicted p)
    → ((ino : ℕ) → m.mapped ino ≡ m'.mapped ino)
    → m.next ≡ m'.next
    → m ≡ m'
Shared-ext m m' r e k n =
    λ i. record { refs = λ p. r p i; evicted = λ p. e p i; mapped = λ ino. k ino i; next = n i }

update_same : {A : Type 0} (f : ℕ → A) (p : ℕ) (a : A) → f p ≡ a → update f p a ≡ f
update_same f p a e = fun_ext (λ q. ground (arith, e))

ok-inj : (p q : Ptr) → ◌≡◌ {A = Result ℕ Ptr} (ok p) (ok q) → p ≡ q
ok-inj p q e = cc

module _ {W F : Type 0} where
  abbrev pub view : FsState W F → Shared
  view s = record {
    refs = λ p. (load p s).refs;
    evicted = λ p. (load p s).evicted;
    mapped = λ ino. Map.get ino s.open_copies;
    next = s.next_ptr;
  }

  -- Where no copy was made yet, no count, mark or entry is seen.
  pub view-new :
      (s : FsState W F)
      → s.copies ≡ []
      → s.open_copies ≡ []
      → s.next_ptr ≡ 0
      → view s ≡ record { refs = λ _. 0; evicted = λ _. false; mapped = λ _. none; next = 0 }
  unfolding load Map.get
  view-new s a b c = Shared-ext _ _ (λ p. rw a refl) (λ p. rw a refl) (λ j. rw b refl) c

  pub load-store :
      (p q : Ptr) (c : LocalCopy) (s : FsState W F)
      → load q (store p c s).1 ≡ (if p == q then c else load q s)
  unfolding load store
  load-store p q c s = ground (arith, get-insert p q c s.copies)

  -- A copy stored at its address changes the count and the mark of that copy alone.
  pub view-store :
      (p : Ptr) (c : LocalCopy) (s : FsState W F)
      → view (store p c s).1 ≡ record (view s) {
        refs = update (view s).refs p c.refs;
        evicted = update (view s).evicted p c.evicted;
      }
  unfolding store
  view-store p c s =
      Shared-ext _ _ (λ q. ground (arith, load-store p q c s))
        (λ q. ground (arith, load-store p q c s)) (λ ino. refl) refl

  -- A change of a copy that keeps its mark is seen in its count alone.
  pub view-counted :
      (p : Ptr) (c : LocalCopy) (s : FsState W F)
      → (load p s).evicted ≡ c.evicted
      → view (store p c s).1 ≡ record (view s) { refs = update (view s).refs p c.refs }
  view-counted p c s e =
      view-store p c s
      ∙ Shared-ext _ _ (λ q. refl) (λ q. ap (λ f. f q) (update_same (view s).evicted p c.evicted e))
          (λ j. refl) refl

  -- A change of a copy that keeps its count is seen in its mark alone.
  pub view-marked :
      (p : Ptr) (c : LocalCopy) (s : FsState W F)
      → (load p s).refs ≡ c.refs
      → view (store p c s).1 ≡ record (view s) { evicted = update (view s).evicted p c.evicted }
  view-marked p c s e =
      view-store p c s
      ∙ Shared-ext _ _ (λ q. ap (λ f. f q) (update_same (view s).refs p c.refs e)) (λ q. refl)
          (λ j. refl) refl

  -- A change of a copy that keeps both is not seen.
  pub view-kept :
      (p : Ptr) (c : LocalCopy) (s : FsState W F)
      → (load p s).refs ≡ c.refs
      → (load p s).evicted ≡ c.evicted
      → view (store p c s).1 ≡ view s
  view-kept p c s r e =
      view-counted p c s e
      ∙ Shared-ext _ _ (λ q. ap (λ f. f q) (update_same (view s).refs p c.refs r)) (λ q. refl)
          (λ j. refl) refl

  removed :
      (ino : ℕ) (p : Ptr) (s : FsState W F)
      → Map.get ino s.open_copies ≡ some p
      → remove_if_same ino p s ≡ (ok tt, record s { open_copies = Map.remove ino s.open_copies })
  unfolding remove_if_same
  removed ino p s hit = ground arith

  unremoved :
      (ino : ℕ) (p : Ptr) (s : FsState W F)
      → Map.get ino s.open_copies ≢ some p
      → remove_if_same ino p s ≡ (ok tt, s)
  unfolding remove_if_same
  unremoved ino p s miss = ground arith

  pub view-remove :
      (ino : ℕ) (p : Ptr) (s : FsState W F)
      → (view s).mapped ino ≡ some p
      → view (remove_if_same ino p s).1
        ≡ record (view s) { mapped = update (view s).mapped ino none }
  unfolding load
  view-remove ino p s hit =
      ap (λ t. view t.1) (removed ino p s hit)
      ∙ Shared-ext _ _ (λ q. refl) (λ q. refl) (λ j. get-remove ino j s.open_copies) refl

  pub view-remove_other :
      (ino : ℕ) (p : Ptr) (s : FsState W F)
      → (view s).mapped ino ≢ some p
      → view (remove_if_same ino p s).1 ≡ view s
  view-remove_other ino p s miss = ap (λ t. view t.1) (unremoved ino p s miss)

module _ {W F : Type 0} (fs : AdbFs W F) where
  pub view-system : {A : Type 0} (m : Exec W ℕ A) (s : FsState W F) → view (system m s).1 ≡ view s
  unfolding system load
  view-system m s = refl

  created :
      (p : Ptr) (r : Result ℕ (Unit {0})) (s s' : FsState W F) (x : Result ℕ (Unit {0}))
      → continue r (λ _. set_dirty p true) s ≡ (x, s')
      → view s' ≡ view s
  unfolding set_dirty
  created p (ok _) s s' x h = ap (λ p. view p.1) (sym h) ∙ view-kept p _ s refl refl
  created p (err e) s s' x h = ap (λ p. view p.1) (sym h)
  created p panicked s s' x h = ap (λ p. view p.1) (sym h)

  -- Filling a copy changes no count, no mark and no entry of the map.
  pub view-populate :
      (path : Str) (p : Ptr) (c : LocalCopy) (init : CopyInit) (s s' : FsState W F)
      (x : Result ℕ (Unit {0}))
      → populate fs path p c init s ≡ (x, s')
      → view s' ≡ view s
  unfolding populate device system load
  view-populate path p c empty s s' x h =
      created p (system (fs.local.create c.path) s).0 (system (fs.local.create c.path) s).1 s' x h
  view-populate path p c pull_contents s s' x h =
      elim c.pulled
          as (λ b.
            (if b then pure tt else device (pull fs.ops path c.path)) s ≡ (x, s')
            → view s' ≡ view s) [
              | true ↦ λ g. ap (λ p. view p.1) (sym g)
              | false ↦ λ g. ap (λ p. view p.1) (sym g)
            ]
        h

  pub added :
      (ino : ℕ) (s : FsState W F)
      → Map.get ino s.open_copies ≡ none
      → entry_or_insert fs ino s ≡ (
        ok s.next_ptr,
        record s {
          open_copies = Map.insert ino s.next_ptr s.open_copies;
          copies = Map.insert s.next_ptr (new_copy (local_path_for fs ino)) s.copies;
          next_ptr = s.next_ptr + 1;
        },
      )
  unfolding entry_or_insert
  added ino s free = ground arith

  pub joined :
      (ino : ℕ) (p : Ptr) (s : FsState W F)
      → Map.get ino s.open_copies ≡ some p
      → entry_or_insert fs ino s ≡ (ok p, s)
  unfolding entry_or_insert
  joined ino p s hit = ground arith

  -- A new entry of the map is a new copy, with no reference and no mark.
  pub view-add :
      (ino : ℕ) (p : Ptr) (s s' : FsState W F)
      → entry_or_insert fs ino s ≡ (ok p, s')
      → (view s).mapped ino ≡ none
      → (p ≡ s.next_ptr) × (view s' ≡ with_copy (view s) ino)
  unfolding load
  view-add ino p s s' h free = (
    ok-inj _ _ (ap (λ t. t.0) (sym h ∙ added ino s free)),
    ap (λ t. view t.1) (sym h ∙ added ino s free)
        ∙ Shared-ext _ _
            (λ q.
              ground (arith, get-insert s.next_ptr q (new_copy (local_path_for fs ino)) s.copies))
            (λ q.
              ground (arith, get-insert s.next_ptr q (new_copy (local_path_for fs ino)) s.copies))
            (λ j. get-insert ino j s.next_ptr s.open_copies) refl,
  )

  pub view-join :
      (ino : ℕ) (p q : Ptr) (s s' : FsState W F)
      → entry_or_insert fs ino s ≡ (ok p, s')
      → (view s).mapped ino ≡ some q
      → (p ≡ q) × (view s' ≡ view s)
  view-join ino p q s s' h hit = (
    ok-inj _ _ (ap (λ t. t.0) (sym h ∙ joined ino q s hit)),
    ap (λ t. view t.1) (sym h ∙ joined ino q s hit),
  )

  -- The last step of `acquire_copy` counts one reference more.
  pub view-take :
      (ino : ℕ) (p : Ptr) (s s' : FsState W F)
      → take_reference fs ino p (ok tt) s ≡ (ok p, s')
      → view s' ≡ record (view s) { refs = update (view s).refs p (((view s).refs p + 1) % 2 ^ 64) }
  unfolding take_reference store
  view-take ino p s s' h = ap (λ t. view t.1) (sym h) ∙ view-counted p _ s refl
