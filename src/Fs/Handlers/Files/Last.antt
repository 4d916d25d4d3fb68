-- ===== src/Fs/Handlers/Files/Last.antt =====
-- src/fs.rs: the release of the last handle on a local copy.
use adbfs_rust.Base.{
  ℕ, ◌+◌, ◌-◌, ◌%◌, ◌^◌, ◌==◌, if◌then◌else◌, Bool, true, none, some, Result, ok, err, panicked,
  ◌≡◌, ◌≢◌, refl, ap, ◌∙◌, arith, nat_eq, Option-cases, inl, inr,
}
use adbfs_rust.Base.Exec.{◌>>=◌, ◌>>◌}
use adbfs_rust.Base.Map
use adbfs_rust.Base.Map.{get-remove}
use adbfs_rust.Fs.State.{AdbFs, FsState, OpenFile, Ptr, system, attempt}
use adbfs_rust.Fs.Copies.{load, store, remove_if_same, release_copy}
use adbfs_rust.Fs.Handlers.Files.{release, release_found}

module _ {W F : Type 0} (fs : AdbFs W F) where
  removed-device :
      (ino : ℕ) (p : Ptr) (u : FsState W F) → (remove_if_same ino p u).1.device ≡ u.device
  unfolding remove_if_same
  removed-device ino p u = elim (Option-cases (Map.get ino u.open_copies)) [
    | inl e ↦ ground arith
    | inr (q, e) ↦ ground arith
  ]

  removed-get :
      (ino : ℕ) (p : Ptr) (u : FsState W F)
      → Map.get ino u.open_copies ≡ some p
      → Map.get ino (remove_if_same ino p u).1.open_copies ≡ none
  unfolding remove_if_same
  removed-get ino p u mapped = ground (arith, get-remove ino ino u.open_copies)

  -- The end of `release_copy`, for the answer to the removal of the local file.
  ended :
      (ino : ℕ) (p : Ptr) (answer : Result ℕ (Unit {0})) (u v : FsState W F)
      → let t = ((attempt (λ _. (answer, u)) >>= λ _. remove_if_same ino p) v).1 in
        (t.device ≡ u.device)
        × (answer ≢ panicked
            → Map.get ino u.open_copies ≡ some p
            → Map.get ino t.open_copies ≡ none)
  unfolding attempt
  ended ino p (ok _) u v = (removed-device ino p u, λ _ mapped. removed-get ino p u mapped)
  ended ino p (err e) u v = (removed-device ino p u, λ _ mapped. removed-get ino p u mapped)
  ended ino p panicked u v = (refl, λ calm mapped. absurd (calm refl))

  -- The handle goes, and the copy is evicted.
  abbrev evicted_in : ℕ → OpenFile F → FsState W F → FsState W F
  evicted_in fh f s = record s {
    open_files = Map.remove fh s.open_files;
    copies = Map.insert f.copy (record (load f.copy s) { refs = 0; evicted = true }) s.copies;
  }

  abbrev file_removal : OpenFile F → FsState W F → Result ℕ (Unit {0}) × W
  file_removal f s = fs.local.remove_file (load f.copy s).path s.device.world

  last_released :
      (fh : ℕ) (f : OpenFile F) (s : FsState W F)
      → Map.get fh s.open_files ≡ some f
      → (load f.copy s).refs ≡ 1
      → release fs fh s
        ≡ (attempt (system (fs.local.remove_file (load f.copy s).path)) >>= λ _.
              remove_if_same f.ino f.copy)
            (evicted_in fh f s)
  unfolding release release_found release_copy store load
  last_released fh f s found last =
      ap (λ o. release_found fs fh o s) found
      ∙ ap
          (λ (b : Bool).
            (if b
                then (do
                  store f.copy (record (load f.copy s) { refs = 0; evicted = true })
                  removed ← attempt (system (fs.local.remove_file (load f.copy s).path))
                  remove_if_same f.ino f.copy)
                else store f.copy (record (load f.copy s) {
                  refs = ((load f.copy s).refs + (2 ^ 64 - 1)) % 2 ^ 64;
                }))
              (record s { open_files = Map.remove fh s.open_files }))
          (is_last (load f.copy s).refs last)
    where
      is_last : (refs : ℕ) → refs ≡ 1 → ((refs + (2 ^ 64 - 1)) % 2 ^ 64 == 0) ≡ true
      is_last refs e = ground arith

  -- The release of the last handle on a local copy deletes its local file and does nothing else to
  -- the world: nothing is pushed, whether or not the copy has changes that were not pushed. Unless
  -- the deletion panics, the copy leaves `open_copies`, if it was there.
  pub release_last :
      (fh : ℕ) (f : OpenFile F) (s : FsState W F)
      → Map.get fh s.open_files ≡ some f
      → (load f.copy s).refs ≡ 1
      → ((release fs fh s).1.device ≡ record s.device { world = (file_removal f s).1 })
        × ((file_removal f s).0 ≢ panicked
            → Map.get f.ino s.open_copies ≡ some f.copy
            → Map.get f.ino (release fs fh s).1.open_copies ≡ none)
  unfolding system attempt
  release_last fh f s found last =
      let e = last_released fh f s found last in
      let u : FsState W F = record (evicted_in fh f s) {
        device = record s.device { world = (file_removal f s).1 };
      } in
      let h = ended f.ino f.copy (file_removal f s).0 u (evicted_in fh f s) in
      (
        ap (λ o. o.1.device) e ∙ h.0,
        λ calm mapped. ap (λ o. Map.get f.ino o.1.open_copies) e ∙ h.1 calm mapped,
      )
