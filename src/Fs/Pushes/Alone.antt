-- ===== src/Fs/Pushes/Alone.antt =====
-- src/fs.rs: `push_if_dirty` without another thread in between, as steps of one thread.
use adbfs_rust.Base.{
  ℕ, Str, Bool, if◌then◌else◌, true, false, Option, none, some, Result, ok, err, panicked, map_err,
  ◌≡◌, ◌≢◌, refl, sym, ap, ◌∙◌, subst, arith, nat_eq, text_eq,
}
use adbfs_rust.Base.Exec.{pure, continue, ◌>>=◌}
use adbfs_rust.Adb.{AdbDevice, AdbError}
use adbfs_rust.Ops.Messages.{to_errno, adb}
use adbfs_rust.Ops.Device.{push, sync_device}
use adbfs_rust.Fs.State.{AdbFs, FsState, LocalCopy, Ptr, device, attempt}
use adbfs_rust.Fs.Inodes.{get_path}
use adbfs_rust.Fs.Metadata.{cache_invalidate}
use adbfs_rust.Fs.Copies.{
  load, store, set_dirty, push_and_sync, after_push, push_cleared, push_if_dirty,
}
use adbfs_rust.Fs.Threads.View.{load-store}
use adbfs_rust.Fs.Pushes.{
  Place, resting, cleared, pushed, failed, Shared, Move, skip, clear, lost, begin, deliver, break,
  sync, unsynced, mark_again,
}

-- Steps of one thread, one after the other.
pub data Moves {C : Type 0} : Shared C → Place → Shared C → Place → Type 0 where
  done : {m : Shared C} {x : Place} → Moves m x m x
  and_then : {m n o : Shared C} {x y z : Place} → Move m x n y → Moves n y o z → Moves m x o z

-- What the local files and the device hold in a world, and what `push` and `sync` do to it: a push
-- that succeeds leaves on the device what the local file holds, and neither changes a local file.
pub record PushesWhole {W C : Type 0} (adb : AdbDevice W) (local_at device_at : Str → W → C)
    : Type 0 where
  pub sent :
      (local remote : Str) (w v : W)
      → adb.push local remote w ≡ (ok tt, v)
      → device_at remote v ≡ local_at local w
  pub local_kept :
      (local remote file : Str) (w : W)
      → local_at file (adb.push local remote w).1 ≡ local_at file w
  pub local_synced : (file : Str) (w : W) → local_at file (adb.sync_device w).1 ≡ local_at file w
  pub device_synced : (file : Str) (w : W) → device_at file (adb.sync_device w).1 ≡ device_at file w

module _ {W F C : Type 0} (fs : AdbFs W F) (local_at device_at : Str → W → C) (p : Ptr) (path : Str)
    (version : ℕ) where
  -- What the threads share of one copy, in a state of the file system.
  abbrev pub shared : FsState W F → Shared C
  shared s = record {
    local = local_at (load p s).path s.device.world;
    version = version;
    device = device_at path s.device.world;
    dirty = (load p s).dirty;
  }

  load-set_dirty :
      (b : Bool) (s : FsState W F) → load p (set_dirty p b s).1 ≡ record (load p s) { dirty = b }
  unfolding set_dirty store
  load-set_dirty b s = ground (arith, load-store p p (record (load p s) { dirty = b }) s)

  shared-set_dirty :
      (b : Bool) (s : FsState W F) → shared (set_dirty p b s).1 ≡ record (shared s) { dirty = b }
  unfolding set_dirty store
  shared-set_dirty b s =
      let at_p = load-set_dirty b s in
      λ i. record {
        local = local_at (at_p i).path s.device.world;
        version = version;
        device = device_at path s.device.world;
        dirty = (at_p i).dirty;
      }

  -- The error path marks the copy again.
  failed_again :
      (e : ℕ) (s t : FsState W F) (r : Result ℕ (Unit {0}))
      → after_push fs path p (err e) s ≡ (r, t)
      → Moves (shared s) failed (shared t) resting
  unfolding after_push
  failed_again e s t r h =
      subst (λ m. Moves (shared s) failed m resting)
        (sym (shared-set_dirty true s) ∙ ap (λ o. shared o.1) h) (and_then mark_again done)

  -- The state with another world.
  abbrev in_world : W → FsState W F → FsState W F
  in_world w s = record s { device = record s.device { world = w } }

  -- A world in which the local file is the same.
  shared-in_world :
      (w : W) (s : FsState W F)
      → local_at (load p s).path w ≡ local_at (load p s).path s.device.world
      → shared (in_world w s) ≡ record (shared s) { device = device_at path w }
  unfolding load
  shared-in_world w s same = λ i. record {
    local = same i;
    version = version;
    device = device_at path w;
    dirty = (load p s).dirty;
  }

  synced_run :
      (answer : Result AdbError (Unit {0})) (w : W) (u s t : FsState W F) (r : Result ℕ (Unit {0}))
      → local_at (load p s).path w ≡ local_at (load p s).path s.device.world
      → device_at path w ≡ device_at path s.device.world
      → (attempt (λ _. (map_err to_errno (map_err adb answer), in_world w s))
            >>= after_push fs path p)
          u
        ≡ (r, t)
      → r ≢ panicked
      → Moves (shared s) pushed (shared t) resting
  unfolding attempt after_push cache_invalidate
  synced_run (ok _) w u s t r same there h calm =
      subst (λ m. Moves (shared s) pushed m resting)
        (sym (shared-in_world w s same ∙ ap (λ d. record (shared s) { device = d }) there)
          ∙ ap (λ o. shared o.1) h)
        (and_then sync done)
  synced_run (err e) w u s t r same there h calm = and_then unsynced (
      subst (λ m. Moves m failed (shared t) resting)
        (shared-in_world w s same ∙ ap (λ d. record (shared s) { device = d }) there)
        (failed_again (to_errno (adb e)) (in_world w s) t r h))
  synced_run panicked w u s t r same there h calm = absurd (calm (sym (ap (λ o. o.0) h)))

  module _ (laws : PushesWhole fs.ops.device local_at device_at) where
    -- What `push_and_sync` comes to behind the answer to its push.
    abbrev synced_from :
        Result AdbError (Unit {0}) → FsState W F → Result ℕ (Unit {0}) × FsState W F
    synced_from answer s =
        continue (map_err to_errno (map_err adb answer)) (λ _. device (sync_device fs.ops)) s

    sent_run :
        (answer : Result AdbError (Unit {0})) (w : W) (u s t : FsState W F)
        (r : Result ℕ (Unit {0}))
        → fs.ops.device.push (load p s).path path s.device.world ≡ (answer, w)
        → (attempt (λ _. synced_from answer (in_world w s)) >>= after_push fs path p) u ≡ (r, t)
        → r ≢ panicked
        → Moves (shared s) cleared (shared t) resting
    unfolding attempt device sync_device load
    sent_run (ok _) w u s t r answered h calm =
        let kept = laws.local_kept (load p s).path path (load p s).path s.device.world in
        let same : local_at (load p s).path w ≡ local_at (load p s).path s.device.world =
          sym (ap (λ o. local_at (load p s).path o.1) answered) ∙ kept in
        and_then begin (
          and_then
            (deliver version (device_at path w)
              (λ _. laws.sent (load p s).path path s.device.world w answered))
            (subst (λ m. Moves m pushed (shared t) resting) (shared-in_world w s same)
              (synced_run (fs.ops.device.sync_device w).0 (fs.ops.device.sync_device w).1 u
                (in_world w s) t r (laws.local_synced (load p s).path w) (laws.device_synced path w)
                h calm)))
    sent_run (err e) w u s t r answered h calm =
        let kept = laws.local_kept (load p s).path path (load p s).path s.device.world in
        let same : local_at (load p s).path w ≡ local_at (load p s).path s.device.world =
          sym (ap (λ o. local_at (load p s).path o.1) answered) ∙ kept in
        and_then begin (
          and_then (break version (device_at path w)) (
            subst (λ m. Moves m failed (shared t) resting) (shared-in_world w s same)
              (failed_again (to_errno (adb e)) (in_world w s) t r h)))
    sent_run panicked w u s t r answered h calm = absurd (calm (sym (ap (λ o. o.0) h)))

    cleared_run :
        (found : Option Str) (c : LocalCopy) (s t : FsState W F) (r : Result ℕ (Unit {0}))
        → ((q : Str) → found ≡ some q → q ≡ path)
        → c.path ≡ (load p s).path
        → push_cleared fs p c found s ≡ (r, t)
        → r ≢ panicked
        → Moves (shared s) cleared (shared t) resting
    unfolding push_cleared push_and_sync attempt device push sync_device
    cleared_run none c s t r at_path same h calm =
        subst (λ m. Moves (shared s) cleared m resting)
          (sym (shared-set_dirty true s) ∙ ap (λ o. shared o.1) h)
          (and_then lost (and_then mark_again done))
    cleared_run (some q) c s t r at_path same h calm =
        let call = fs.ops.device.push (load p s).path path s.device.world in
        sent_run call.0 call.1 s s t r refl
          (subst (λ o. (attempt (push_and_sync fs o path) >>= after_push fs path p) s ≡ (r, t)) same
            (subst (λ o. (attempt (push_and_sync fs c.path o) >>= after_push fs o p) s ≡ (r, t))
              (at_path q refl) h))
          calm

    swapped_run :
        (b : Bool) (ino : ℕ) (s t : FsState W F) (r : Result ℕ (Unit {0}))
        → (load p s).dirty ≡ b
        → ((q : Str) → get_path ino s ≡ some q → q ≡ path)
        → (if b then push_cleared fs p (load p s) (get_path ino s) else pure tt)
            (set_dirty p false s).1
          ≡ (r, t)
        → r ≢ panicked
        → Moves (shared s) resting (shared t) resting
    swapped_run true ino s t r is_dirty at_path h calm = and_then (clear is_dirty) (
        subst (λ m. Moves m cleared (shared t) resting) (shared-set_dirty false s)
          (cleared_run (get_path ino s) (load p s) (set_dirty p false s).1 t r at_path
            (sym (ap (λ c. c.path) (load-set_dirty false s))) h calm))
    swapped_run false ino s t r is_clean at_path h calm =
        subst (λ m. Moves (shared s) resting m resting)
          (ap (λ b. record (shared s) { dirty = b }) is_clean
            ∙ sym (shared-set_dirty false s)
            ∙ ap (λ o. shared o.1) h)
          (and_then (skip is_clean) done)

    -- A call of `push_if_dirty` that does not panic, whatever it returns, takes a thread through the
    -- steps of the race model from rest to rest; where a push that succeeds leaves on the device what
    -- the local file holds, and neither a push nor a sync changes a local file.
    pub push_if_dirty-Moves :
        (ino : ℕ) (s t : FsState W F) (r : Result ℕ (Unit {0}))
        → ((q : Str) → get_path ino s ≡ some q → q ≡ path)
        → push_if_dirty fs ino p s ≡ (r, t)
        → r ≢ panicked
        → Moves (shared s) resting (shared t) resting
    unfolding push_if_dirty set_dirty store get_path
    push_if_dirty-Moves ino s t r at_path h calm =
        swapped_run (load p s).dirty ino s t r refl at_path h calm
