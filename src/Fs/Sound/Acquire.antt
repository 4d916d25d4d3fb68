-- ===== src/Fs/Sound/Acquire.antt =====
-- src/fs.rs: `acquire_copy` on the tables.
use adbfs_rust.Base.{
  ℕ, ◌+◌, ◌%◌, ◌^◌, Str, ◌==◌, if◌then◌else◌, Bool, true, false, none, some, Result, ok, err,
  panicked, ◌≡◌, ◌≢◌, refl, arith, nat_eq, Bool-cases, Option-cases, inl, inr,
}
use adbfs_rust.Base.Exec.{pure, lift, ◌>>=◌}
use adbfs_rust.Base.Map
use adbfs_rust.Base.Triples.{
  Outcome, returns, raises, panics, Triple, Keeps, keeps, bind_lem, pure_lem, returned, raised,
  by_value,
}
use adbfs_rust.Ops.Device.{pull}
use adbfs_rust.Fs.State.{AdbFs, FsState, LocalCopy, Ptr, new_copy, device, attempt}
use adbfs_rust.Fs.Copies.{
  CopyInit, pull_contents, empty, load, store, set_dirty, remove_if_same, local_path_for,
  entry_or_insert, populate, abandon, take_reference, acquire_rounds, acquire_copy,
}
use adbfs_rust.Fs.Sound.Tables.{
  tables, Held, nothing, entering, holding, IsSound, locals_of, copy_at, handles-le,
}
use adbfs_rust.Fs.Sound.References.{touched, taken, enter_mapped, leave}
use adbfs_rust.Fs.Sound.Mapping.{dropped, enter_new}
use adbfs_rust.Fs.Sound.Calls.{attempt_lem, lift_lem, device-Keeps, system-Keeps}

module _ {W F : Type 0} (fs : AdbFs W F) where
  -- The tables of a state agree.
  abbrev pub Good : Held → ℕ → FsState W F → Type 0
  Good held n s = IsSound (locals_of fs) held n (tables s)

  module _ (held : Held) (n : ℕ) where
    pub set_dirty-Keeps : (p : Ptr) (b : Bool) → Keeps (Good held n) (set_dirty p b)
    unfolding set_dirty store load copy_at
    set_dirty-Keeps p b = keeps (set_dirty p b) (λ s h.
        touched (locals_of fs) n (tables s) held p (record (load p s) { dirty = b }) refl refl refl
          h)

    pub populate-Keeps :
        (path : Str) (p : Ptr) (c : LocalCopy) (init : CopyInit)
        → Keeps (Good held n) (populate fs path p c init)
    unfolding populate
    populate-Keeps path p c empty =
        bind_lem (system-Keeps (IsSound (locals_of fs) held n) (fs.local.create c.path))
          (λ _. set_dirty-Keeps p true)
    populate-Keeps path p c pull_contents = pulled c.pulled
      where
        pulled :
            (b : Bool)
            → Keeps (Good held n) (if b then pure tt else device (pull fs.ops path c.path))
        pulled true = pure_lem tt (λ s h. h)
        pulled false = device-Keeps (IsSound (locals_of fs) held n) (pull fs.ops path c.path)

  module _ (n ino : ℕ) where
    entry-new :
        (s : FsState W F)
        → Map.get ino s.open_copies ≡ none
        → entry_or_insert fs ino s ≡ (
          ok s.next_ptr,
          record s {
            open_copies = Map.insert ino s.next_ptr s.open_copies;
            copies = Map.insert s.next_ptr (new_copy (local_path_for fs ino)) s.copies;
            next_ptr = s.next_ptr + 1;
          },
        )
    unfolding entry_or_insert
    entry-new s unmapped = ground arith

    entry-found :
        (s : FsState W F) (p : Ptr)
        → Map.get ino s.open_copies ≡ some p
        → entry_or_insert fs ino s ≡ (ok p, s)
    unfolding entry_or_insert
    entry-found s p mapped = ground arith

    entry_or_insert-Sound :
        Triple
          (Good nothing n)
          (entry_or_insert fs ino)
          (λ p. Good (entering ino p) n)
          (Good nothing n)
    entry_or_insert-Sound = record {
      run = λ s h. elim (Option-cases (Map.get ino s.open_copies)) [
        | inl e ↦ by_value (entry-new s e) (returns (enter_new (locals_of fs) n (tables s) ino e h))
        | inr (p, e) ↦
            by_value (entry-found s p e)
              (returns (enter_mapped (locals_of fs) n (tables s) ino p e h))
      ];
    }

    abandon-unused :
        (p : Ptr) (e : ℕ) (s : FsState W F)
        → (load p s).refs ≡ 0
        → Map.get ino s.open_copies ≡ some p
        → abandon fs ino p e s ≡ (
          err e,
          record s {
            copies = Map.insert p (record (load p s) { evicted = true }) s.copies;
            open_copies = Map.remove ino s.open_copies;
          },
        )
    unfolding abandon store remove_if_same
    abandon-unused p e s unused mapped = ground arith

    abandon-used :
        (p : Ptr) (e : ℕ) (s : FsState W F)
        → (load p s).refs ≢ 0
        → abandon fs ino p e s ≡ (err e, s)
    unfolding abandon
    abandon-used p e s used = ground arith

    abandon-Sound :
        (p : Ptr) (e : ℕ)
        → Triple
            (Good (entering ino p) n)
            (abandon fs ino p e)
            (λ p. Good (holding ino p) n)
            (Good nothing n)
    unfolding copy_at load
    abandon-Sound p e = record {
      run = λ s h. elim (Bool-cases ((load p s).refs == 0)) [
        | inl z ↦
            let unused : (load p s).refs ≡ 0 = ground arith in
            by_value (abandon-unused p e s unused h.held_mapped) (
              raises (
                dropped (locals_of fs) n (tables s) ino p (record (load p s) { evicted = true })
                  unused h))
        | inr z ↦
            let used : (load p s).refs ≢ 0 = ground arith in
            by_value (abandon-used p e s used)
              (raises (leave (locals_of fs) n (tables s) ino p used h))
      ];
    }

    -- The count has room.
    counts :
        (p : Ptr) (s : FsState W F)
        → Good (entering ino p) n s
        → ((load p s).refs + 1) % 2 ^ 64 ≡ (load p s).refs + 1
    unfolding load copy_at
    counts p s h =
        let b = h.backed ino p h.held_mapped in
        omega (arith, b.counted, handles-le p s.open_files, h.few, h.room)

    take_reference-Sound :
        (p : Ptr) (r : Result ℕ (Unit {0}))
        → Triple
            (Outcome {E = ℕ} (λ _. Good (entering ino p) n) (Good (entering ino p) n) r)
            (take_reference fs ino p r)
            (λ p. Good (holding ino p) n)
            (Good nothing n)
    unfolding take_reference store load copy_at
    take_reference-Sound p (err e) = record { run = λ s o. (abandon-Sound p e).run s (raised o) }
    take_reference-Sound p panicked = record { run = λ s o. panics }
    take_reference-Sound p (ok u) = record {
      run = λ s o. returns (
          taken (locals_of fs) n (tables s) ino p
            (record (load p s) { pulled = true; refs = ((load p s).refs + 1) % 2 ^ 64 })
            (counts p s (returned o)) refl refl (returned o));
    }

    on_copy-Sound :
        (path : Str) (init : CopyInit) (p : Ptr) (c : LocalCopy) (b : Bool)
        → Triple
            (Good (entering ino p) n)
            (if b
              then lift panicked
              else (attempt (populate fs path p c init) >>= take_reference fs ino p))
            (λ p. Good (holding ino p) n)
            (Good nothing n)
    on_copy-Sound path init p c true = lift_lem panicked (λ s h. panics)
    on_copy-Sound path init p c false =
        bind_lem (attempt_lem (populate-Keeps (entering ino p) n path p c init))
          (take_reference-Sound p)

    pub acquire_copy-Sound :
        (path : Str) (init : CopyInit)
        → Triple
            (Good nothing n)
            (acquire_copy fs ino path init)
            (λ p. Good (holding ino p) n)
            (Good nothing n)
    unfolding acquire_copy acquire_rounds
    acquire_copy-Sound path init = bind_lem entry_or_insert-Sound (λ p. record {
      run = λ s h. (on_copy-Sound path init p (load p s) (load p s).evicted).run s h;
    })
