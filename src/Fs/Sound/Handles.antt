-- ===== src/Fs/Sound/Handles.antt =====
-- src/fs.rs: handles that are made and released.
use adbfs_rust.Base.{
  ℕ, suc, ◌+◌, ◌%◌, ◌^◌, none, some, ◌≡◌, ◌⊎◌, arith, nat_eq, Option-cases, Bool-cases, inl, inr,
  true, false, ◌==◌, subst,
}
use adbfs_rust.Base.Map
use adbfs_rust.Base.Map.{Map, Unique, Unique-insert, Unique-remove, get-insert, get-remove}
use adbfs_rust.Fs.State.{OpenFile}
use adbfs_rust.Fs.Sound.Tables.{
  Tables, Locals, Held, nothing, holding, IsSound, handles-insert, handles-remove, length-remove,
  length-insert,
}

module _ {F : Type 0} (locals : Locals F) (n : ℕ) (t : Tables F) where
  -- The handler's reference goes to a new handle.
  pub added :
      (ino p : ℕ) (file : F)
      → locals.Opens (locals.path_of ino) file
      → IsSound locals (holding ino p) (suc n) t
      → IsSound locals nothing n (record t {
        files = Map.insert t.next_fh (record { ino = ino; copy = p; file = file }) t.files;
        next_fh = (t.next_fh + 1) % 2 ^ 64;
      })
  added ino p file o h = record {
    unique = Unique-insert t.next_fh f t.files h.unique;
    fresh = λ fh g e. ground (arith, get-insert t.next_fh fh f t.files, h.fresh fh g, h.room);
    on_mapped = λ fh g e.
        ground (arith, get-insert t.next_fh fh f t.files, h.on_mapped fh g, h.held_mapped);
    opened = λ fh g e. own fh g e (Bool-cases (t.next_fh == fh));
    apart = h.apart;
    held_mapped = tt;
    few = ground (arith, length-insert t.next_fh f t.files, h.few, h.room);
    room = omega (arith, h.room);
    backed = λ i q e.
        let b = h.backed i q e in
        record {
          allocated = b.allocated;
          kept = b.kept;
          own_path = b.own_path;
          counted = ground (arith, b.counted, handles-insert q t.next_fh f t.files unused);
          used = b.used;
        };
  }
    where
      f : OpenFile F
      f = record { ino = ino; copy = p; file = file }

      own :
          (fh : ℕ) (g : OpenFile F)
          → Map.get fh (Map.insert t.next_fh f t.files) ≡ some g
          → ((t.next_fh == fh) ≡ true) ⊎ ((t.next_fh == fh) ≡ false)
          → locals.Opens (locals.path_of g.ino) g.file
      own fh g e (inl same) =
          let new : f ≡ g = ground (arith, get-insert t.next_fh fh f t.files) in
          subst (λ x. locals.Opens (locals.path_of x.ino) x.file) new o
      own fh g e (inr other) = h.opened fh g (ground (arith, get-insert t.next_fh fh f t.files))

      unused : Map.get t.next_fh t.files ≡ none
      unused = elim (Option-cases (Map.get t.next_fh t.files)) [
        | inl e ↦ e
        | inr (g, e) ↦ absurd (omega (arith, h.fresh t.next_fh g e))
      ]

  -- A handle goes away, and its reference is the handler's.
  pub removed :
      (fh : ℕ) (f : OpenFile F)
      → Map.get fh t.files ≡ some f
      → IsSound locals nothing n t
      → IsSound locals (holding f.ino f.copy) n (record t { files = Map.remove fh t.files })
  removed fh f found h = record {
    unique = Unique-remove fh t.files h.unique;
    fresh = λ k g e. ground (arith, get-remove fh k t.files, h.fresh k g);
    on_mapped = λ k g e. ground (arith, get-remove fh k t.files, h.on_mapped k g);
    opened = λ k g e. h.opened k g (ground (arith, get-remove fh k t.files));
    apart = h.apart;
    held_mapped = h.on_mapped fh f found;
    few = omega (arith, length-remove fh t.files, h.few);
    room = h.room;
    backed = λ i q e.
        let b = h.backed i q e in
        record {
          allocated = b.allocated;
          kept = b.kept;
          own_path = b.own_path;
          counted = ground (arith, b.counted, handles-remove q fh f t.files h.unique found);
          used = b.used;
        };
  }

  -- A number for a handle is used up.
  pub numbered :
      IsSound locals nothing (suc n) t
      → IsSound locals nothing n (record t { next_fh = (t.next_fh + 1) % 2 ^ 64 })
  numbered h = record {
    unique = h.unique;
    fresh = λ fh f e. omega (arith, h.fresh fh f e, h.room);
    on_mapped = h.on_mapped;
    opened = h.opened;
    apart = h.apart;
    held_mapped = tt;
    few = omega (arith, h.few, h.room);
    room = omega (arith, h.room);
    backed = λ i q e.
        let b = h.backed i q e in
        record {
          allocated = b.allocated;
          kept = b.kept;
          own_path = b.own_path;
          counted = b.counted;
          used = b.used;
        };
  }

  pub spared : {held : Held} → IsSound locals held (suc n) t → IsSound locals held n t
  spared h = record {
    unique = h.unique;
    fresh = h.fresh;
    on_mapped = h.on_mapped;
    opened = h.opened;
    apart = h.apart;
    held_mapped = h.held_mapped;
    few = h.few;
    room = omega (arith, h.room);
    backed = h.backed;
  }
