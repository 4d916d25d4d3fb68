-- ===== src/Fs/Sound/Release.antt =====
-- src/fs.rs: `release_copy` and `push_if_dirty` on the tables.
use adbfs_rust.Base.{
  ℕ, ◌+◌, ◌%◌, ◌-◌, ◌^◌, Str, ◌==◌, if◌then◌else◌, Bool, true, false, Option, none, some, Result,
  ok, err, panicked, ◌≡◌, refl, arith, nat_eq,
}
use adbfs_rust.Base.Exec.{pure, gets, ◌>>=◌, ◌>>◌}
use adbfs_rust.Base.Map
use adbfs_rust.Base.Triples.{
  Outcome, returns, panics, Triple, Keeps, keeps, bind_lem, pure_lem, raise_lem, weaken, returned,
  raised, by_value,
}
use adbfs_rust.Errno.{enoent}
use adbfs_rust.Fs.State.{AdbFs, FsState, Fs, LocalCopy, Ptr, system, attempt}
use adbfs_rust.Fs.Inodes.{get_path}
use adbfs_rust.Fs.Copies.{
  load, store, remove_if_same, release_copy, after_push, push_cleared, push_if_dirty,
}
use adbfs_rust.Fs.Sound.Tables.{
  Tables, tables, Held, nothing, holding, IsSound, locals_of, copy_at, handles-le,
}
use adbfs_rust.Fs.Sound.References.{given}
use adbfs_rust.Fs.Sound.Mapping.{last_given}
use adbfs_rust.Fs.Sound.Calls.{
  attempt_lem, attempt_any, lift_lem, system-Keeps, push_and_sync-Keeps, cache_invalidate-Keeps,
}
use adbfs_rust.Fs.Sound.Acquire.{Good, set_dirty-Keeps}

module _ {W F : Type 0} (fs : AdbFs W F) where
  module _ (held : Held) (n : ℕ) where
    after_push-Keeps :
        (path : Str) (p : Ptr) (r : Result ℕ (Unit {0}))
        → Triple
            (Outcome {E = ℕ} (λ _. Good fs held n) (Good fs held n) r)
            (after_push fs path p r)
            (λ _. Good fs held n)
            (Good fs held n)
    unfolding after_push
    after_push-Keeps path p (err e) =
        bind_lem
          (weaken (λ s o. raised o) (set_dirty-Keeps fs held n p true) (λ _ s h. h) (λ s h. h))
          (λ _. raise_lem e (λ s h. h))
    after_push-Keeps path p panicked = lift_lem panicked (λ s o. panics)
    after_push-Keeps path p (ok _) =
        weaken (λ s o. returned o) (cache_invalidate-Keeps (IsSound (locals_of fs) held n) fs path)
          (λ _ s h. h) (λ s h. h)

    push_cleared-Keeps :
        (p : Ptr) (c : LocalCopy) (path : Option Str)
        → Keeps (Good fs held n) (push_cleared fs p c path)
    unfolding push_cleared
    push_cleared-Keeps p c none =
        bind_lem (set_dirty-Keeps fs held n p true) (λ _. raise_lem enoent (λ s h. h))
    push_cleared-Keeps p c (some path) =
        bind_lem (attempt_lem (push_and_sync-Keeps (IsSound (locals_of fs) held n) fs c.path path))
          (after_push-Keeps path p)

    pushed-Keeps :
        (b : Bool) (p : Ptr) (c : LocalCopy) (path : Option Str)
        → Keeps (Good fs held n) (if b then push_cleared fs p c path else pure tt)
    pushed-Keeps true p c path = push_cleared-Keeps p c path
    pushed-Keeps false p c path = pure_lem tt (λ s h. h)

    pub push_if_dirty-Keeps : (ino : ℕ) (p : Ptr) → Keeps (Good fs held n) (push_if_dirty fs ino p)
    unfolding push_if_dirty
    push_if_dirty-Keeps ino p = bind_lem (keeps (gets (load p)) (λ s h. h)) (λ c.
        bind_lem (set_dirty-Keeps fs held n p false) (λ _.
          bind_lem (keeps (gets (get_path ino)) (λ s h. h))
            (λ path. pushed-Keeps c.dirty p c path)))

  module _ (n ino : ℕ) (p : Ptr) where
    -- Between the eviction of a copy and its removal from the map.
    abbrev IsLeaving : Tables F → Type 0
    IsLeaving t =
        (Map.get ino t.mapped ≡ some p)
        × IsSound (locals_of fs) nothing n (record t { mapped = Map.remove ino t.mapped })

    remove_if_same-mapped :
        (s : FsState W F)
        → Map.get ino s.open_copies ≡ some p
        → remove_if_same ino p s ≡ (ok tt, record s { open_copies = Map.remove ino s.open_copies })
    unfolding remove_if_same
    remove_if_same-mapped s mapped = ground arith

    remove_if_same-Sound :
        Triple
          (λ s. IsLeaving (tables s))
          (remove_if_same ino p)
          (λ _. Good fs nothing n)
          (Good fs nothing n)
    remove_if_same-Sound = record {
      run = λ s h. by_value (remove_if_same-mapped s h.0) (returns h.1);
    }

    -- The reference that is given back is counted.
    counts :
        (s : FsState W F)
        → Good fs (holding ino p) n s
        → ((load p s).refs + (2 ^ 64 - 1)) % 2 ^ 64 + 1 ≡ (load p s).refs
    unfolding load copy_at
    counts s h =
        let b = h.backed ino p h.held_mapped in
        ground (arith, b.counted, handles-le p s.open_files, h.few, h.room)

    -- `release_copy` for the copy that it found and what is left of its count.
    abbrev releasing : Bool → LocalCopy → ℕ → Fs W F (Unit {0})
    releasing last c left =
        if last
        then (do
          store p (record c { refs = 0; evicted = true })
          removed ← attempt (system (fs.local.remove_file c.path))
          remove_if_same ino p)
        else store p (record c { refs = left })

    releasing-Sound :
        (last : Bool) (left : ℕ) (s : FsState W F)
        → (left == 0) ≡ last
        → left + 1 ≡ (load p s).refs
        → Good fs (holding ino p) n s
        → Outcome
            (λ _. Good fs nothing n)
            (Good fs nothing n)
            (releasing last (load p s) left s).0
            (releasing last (load p s) left s).1
    unfolding store load copy_at
    releasing-Sound true left s is_last counted h =
        let c = record (load p s) { refs = 0; evicted = true } in
        (bind_lem (attempt_any (system-Keeps IsLeaving (fs.local.remove_file (load p s).path)))
            (λ _. remove_if_same-Sound)).run
          (store p c s).1
          (h.held_mapped, last_given (locals_of fs) n (tables s) ino p c (ground arith) h)
    releasing-Sound false left s is_last counted h = returns (
        given (locals_of fs) n (tables s) ino p (record (load p s) { refs = left }) (omega arith)
          (ground arith) refl refl h)

    pub release_copy-Sound :
        Triple
          (Good fs (holding ino p) n)
          (release_copy fs ino p)
          (λ _. Good fs nothing n)
          (Good fs nothing n)
    unfolding release_copy
    release_copy-Sound = record {
      run = λ s h.
          let left = ((load p s).refs + (2 ^ 64 - 1)) % 2 ^ 64 in
          releasing-Sound (left == 0) left s refl (counts s h) h;
    }
