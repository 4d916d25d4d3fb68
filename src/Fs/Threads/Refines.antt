-- ===== src/Fs/Threads/Refines.antt =====
-- src/fs.rs: `acquire_copy` and `release_copy` on the whole state of the file system, with the other
-- handlers around them, against the protocol of the copies.
use adbfs_rust.Base.{
  ℕ, Str, none, some, ok, ◌≡◌, ◌≢◌, inl, inr, refl, sym, ap, subst, ◌∙◌, arith, nat_eq, Bool-cases,
  ◌==◌,
}
use adbfs_rust.Base.Family.{update}
use adbfs_rust.Fs.State.{AdbFs, FsState, Ptr}
use adbfs_rust.Fs.Copies.{CopyInit, load, remove_if_same, entry_or_insert}
use adbfs_rust.Fs.Threads.Program.{Pc, idle, starting, waiting, unmapping}
use adbfs_rust.Fs.Threads.Protocol.{
  Shared, Owners, Move, request, join, add, again, lock, fill, take, fail, evict, close, give_back,
  give_last, delete, unmap, keep,
}
use adbfs_rust.Fs.Threads.Code.{
  Run, call, enter, start_over, acquire_lock, populate_done, populate_error, take_ref, give_up,
  mark_unused, start_release, drop_ref, drop_last, remove_local, remove_entry, Uses, go_on, handler,
  Turns, begin, further,
}
use adbfs_rust.Fs.Threads.View.{
  view, view-store, view-counted, view-marked, view-system, view-remove, view-remove_other,
  view-populate, view-add, view-join, view-take, view-new,
}
use adbfs_rust.Fs.Threads.System.{System, advance, Reach, start, later}

module _ {W F : Type 0} (fs : AdbFs W F) where
  moves_as :
      (i : ℕ) (m m' m'' : Shared) (o o' : Owners) (y x : Pc)
      → m'' ≡ m'
      → Move i m o y m' o' x
      → Move i m o y m'' o' x
  moves_as i m m' m'' o o' y x e mv = subst (λ t. Move i m o y t o' x) (sym e) mv

  entering :
      (i : ℕ) (s s' : FsState W F) (o : Owners) (ino : ℕ) (path : Str) (init : CopyInit) (p : Ptr)
      → entry_or_insert fs ino s ≡ (ok p, s')
      → Move i (view s) o (starting ino path init) (view s') o (waiting ino path init p)
  entering i s s' o ino path init p e =
      elim ((view s).mapped ino)
          as (λ x.
            (view s).mapped ino ≡ x
            → Move i (view s) o (starting ino path init) (view s') o (waiting ino path init p)) [
              | none ↦ λ free.
                  let (new, seen) = view-add fs ino p s s' e free in
                  subst
                    (λ q.
                      Move i (view s) o (starting ino path init) (view s') o
                        (waiting ino path init q))
                    (sym new) (moves_as i _ _ _ o o _ _ seen (add ino path init free))
              | some q ↦ λ hit.
                  let (same, seen) = view-join fs ino p q s s' e hit in
                  moves_as i _ _ _ o o _ _ seen (join ino path init p (hit ∙ ap some (sym same)))
            ]
        refl

  removing :
      (i : ℕ) (s : FsState W F) (o : Owners) (ino : ℕ) (p : Ptr)
      → Move i (view s) o (unmapping ino p) (view (remove_if_same ino p s).1) (update o p none) idle
  removing i s o ino p =
      elim ((view s).mapped ino)
          as (λ x.
            (view s).mapped ino ≡ x
            → Move i (view s) o (unmapping ino p) (view (remove_if_same ino p s).1)
                (update o p none) idle) [
                  | none ↦ λ e. elsewhere (λ hit. ground (arith, e, hit))
                  | some q ↦ λ e. elim (Bool-cases (p == q)) [
                    | inl same ↦
                        let hit = e ∙ ap some (ground (arith, same)) in
                        moves_as i _ _ _ o _ _ _ (view-remove ino p s hit) (unmap ino p hit)
                    | inr other ↦ elsewhere (λ hit. ground (arith, e, hit, other))
                  ]
                ]
        refl
    where
      elsewhere :
          (view s).mapped ino ≢ some p
          → Move i
              (view s)
              o
              (unmapping ino p)
              (view (remove_if_same ino p s).1)
              (update o p none)
              idle
      elsewhere miss = moves_as i _ _ _ o _ _ _ (view-remove_other ino p s miss) (keep ino p miss)

  -- What a thread runs without a break is one step of the protocol.
  Run-Move :
      (i : ℕ) (s s' : FsState W F) (o o' : Owners) (y x : Pc)
      → Run fs i s o y s' o' x
      → Move i (view s) o y (view s') o' x
  Run-Move i s s' o o' y x (call ino path init) = request ino path init
  Run-Move i s s' o o' y x (enter ino path init p s'' e) = entering i s s' o ino path init p e
  Run-Move i s s' o o' y x (start_over ino path init p free gone) = again ino path init p free gone
  Run-Move i s s' o o' y x (acquire_lock ino path init p free fresh) =
      lock ino path init p free fresh
  Run-Move i s s' o o' y x (populate_done ino path init p s'' e) =
      moves_as i _ _ _ o o' y x (view-populate fs path p (load p s) init s s' _ e)
        (fill ino path init p none)
  Run-Move i s s' o o' y x (populate_error ino path init p b s'' e) =
      moves_as i _ _ _ o o' y x (view-populate fs path p (load p s) init s s' _ e)
        (fill ino path init p (some b))
  Run-Move i s s' o o' y x (take_ref ino p s'' e) =
      moves_as i _ _ _ o o' y x (view-take fs ino p s s' e) (take ino p)
  Run-Move i s s' o o' y x (give_up ino p e used) = fail ino p e used
  Run-Move i s s' o o' y x (mark_unused ino p e unused) =
      moves_as i _ _ _ o o' y x (view-marked p _ s refl) (evict ino p e unused)
  Run-Move i s s' o o' y x (start_release ino p) = close ino p
  Run-Move i s s' o o' y x (drop_ref ino p free more) =
      moves_as i _ _ _ o o' y x (view-counted p _ s refl) (give_back ino p free more)
  Run-Move i s s' o o' y x (drop_last ino p free last) =
      moves_as i _ _ _ o o' y x (view-store p _ s) (give_last ino p free last)
  Run-Move i s s' o o' y x (remove_local ino p) =
      moves_as i _ _ _ o o' y x (view-system fs (fs.local.remove_file (load p s).path) s)
        (delete ino p)
  Run-Move i s s' o o' y x (remove_entry ino p) = removing i s o ino p

  abbrev pub system_of : Uses W F → System
  system_of s = record { shared = view s.fs_state; owner = s.owner; place = s.place }

  -- Every run of the code is a run of the protocol.
  pub Turns-Reach : {n : ℕ} {s : Uses W F} → Turns fs n s → Reach n (system_of s)
  Turns-Reach {n} (begin t a b c) =
      subst (λ m. Reach n (record { shared = m; owner = λ _. none; place = λ _. idle }))
        (sym (view-new t a b c)) start
  Turns-Reach {n} (further {s = s} r (go_on i lt e)) =
      later (Turns-Reach r) (advance i lt (Run-Move i s.fs_state _ s.owner _ (s.place i) _ e))
  Turns-Reach {n} (further {s = s} r (handler t e)) =
      subst (λ m. Reach n (record { shared = m; owner = s.owner; place = s.place })) (sym e)
        (Turns-Reach r)
