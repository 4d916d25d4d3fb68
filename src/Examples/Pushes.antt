-- ===== src/Examples/Pushes.antt =====
-- Two threads on one copy of a text: the second one writes while the first one pushes.
use adbfs_rust.Base.{ℕ, Str, codes, true, false, ◌≡◌, refl, arith}
use adbfs_rust.Base.{[], ◌∷◌, pos, Result, ok, ap, sym, nat_eq, text_eq}
use adbfs_rust.Base.Exec.{pure}
use adbfs_rust.Base.Map
use adbfs_rust.Adb.{AdbDevice}
use adbfs_rust.MountOpts.{default}
use adbfs_rust.Ops.Device.{push, sync_device}
use adbfs_rust.Fs.State.{Local, AdbFs, FsState, new, new_copy}
use adbfs_rust.Fs.Inodes.{get_path}
use adbfs_rust.Fs.Copies.{push_if_dirty}
use adbfs_rust.Fs.Pushes.Alone.{Moves, PushesWhole, shared, push_if_dirty-Moves}
use adbfs_rust.Examples.World.{silent, utc_noon}
use adbfs_rust.Base.Family.{update}
use adbfs_rust.Fs.Pushes.{
  Place, resting, written, cleared, sending, pushed, Shared, Move, writing, write, mark, clear,
  begin, deliver, sync, Threads, is_pushing, Reach, start, step, turn,
}
use adbfs_rust.Fs.Pushes.Races.{clean-synced, overlap-IsStale, IsStale}

abbrev at : Str → Str → ℕ → Shared Str
at device local version = record {
  local = local;
  version = version;
  device = device;
  dirty = false;
}

abbrev x0 : Threads
x0 i = resting

-- A step of thread `i` of a serial run.
then_serially :
    {m m' : Shared Str} {x : Threads} (i : ℕ) (place : Place)
    → Reach true m x
    → Move m (x i) m' place
    → (is_pushing (x i) ≡ false → is_pushing place ≡ true → (j : ℕ) → is_pushing (x j) ≡ false)
    → Reach true m' (update x i place)
then_serially i place reach move first = step reach (turn i place move refl (λ _. first))

abbrev sending_new : Threads
sending_new = update (update (update (update x0 0 written) 0 resting) 0 cleared) 0 (sending 1)

-- Thread 0 has written and begins to push.
new_begun : Reach true (at (codes "old") (codes "new") 1) sending_new
new_begun =
    let begun : Reach true (at (codes "old") (codes "old") 0) x0 =
      start (record { synced = refl; at_rest = λ i. refl }) in
    let wrote : Reach true (at (codes "old") (codes "new") 1) (update x0 0 written) =
      then_serially 0 written begun (writing (write (codes "new"))) (λ e p. cc) in
    let noted : Reach true (record (at (codes "old") (codes "new") 1) { dirty = true })
        (update (update x0 0 written) 0 resting) =
      then_serially 0 resting wrote (writing mark) (λ e p. cc) in
    let taken = then_serially 0 cleared noted (clear refl) (λ e p j. ground arith) in
    then_serially 0 (sending 1) taken begin (λ e. cc)

abbrev torn_pushed : Threads
torn_pushed = update (update (update (update sending_new 1 written) 0 pushed) 0 resting) 1 resting

-- Thread 1 writes, the push of thread 0 ends with a mixture, and thread 1 sets the mark.
torn_noted : Reach true (record (at (codes "torn") (codes "newer") 2) { dirty = true }) torn_pushed
torn_noted =
    let wrote : Reach true (at (codes "old") (codes "newer") 2) (update sending_new 1 written) =
      then_serially 1 written new_begun (writing (write (codes "newer"))) (λ e p. cc) in
    let torn : Reach true (at (codes "torn") (codes "newer") 2)
        (update (update sending_new 1 written) 0 pushed) =
      then_serially 0 pushed wrote (deliver 1 (codes "torn") (λ e. absurd (omega (arith, e))))
        (λ e. cc) in
    let synced : Reach true (at (codes "torn") (codes "newer") 2)
        (update (update (update sending_new 1 written) 0 pushed) 0 resting) =
      then_serially 0 resting torn sync (λ e p. cc) in
    then_serially 1 resting synced (writing mark) (λ e p. cc)

abbrev all_done : Threads
all_done = update (update (update (update torn_pushed 1 cleared) 1 (sending 2)) 1 pushed) 1 resting

-- Thread 1 pushes.
newer_pushed : Reach true (at (codes "newer") (codes "newer") 2) all_done
newer_pushed =
    let taken = then_serially 1 cleared torn_noted (clear refl) (λ e p j. ground arith) in
    let sent = then_serially 1 (sending 2) taken begin (λ e. cc) in
    let there : Reach true (at (codes "newer") (codes "newer") 2)
        (update (update (update torn_pushed 1 cleared) 1 (sending 2)) 1 pushed) =
      then_serially 1 pushed sent (deliver 2 (codes "newer") (λ e. refl)) (λ e. cc) in
    then_serially 1 resting there sync (λ e p. cc)

clean-synced_example : codes "newer" ≡ codes "newer"
clean-synced_example =
    clean-synced (at (codes "newer") (codes "newer") 2) all_done newer_pushed (λ i. ground arith)
      refl

overlap-IsStale_example :
    (m : Shared Str) × (x : Threads) × Reach false m x
    × IsStale m x
    × (m.device ≡ codes "")
    × (m.local ≡ codes "new")
overlap-IsStale_example = overlap-IsStale (codes "") (codes "new") (λ e. cc)

-- A world of one local file and one file on the device.
abbrev TwoFiles : Type 0
TwoFiles = Str × Str

abbrev copying_device : AdbDevice TwoFiles
copying_device = record {
  shell = λ cmd w. (ok [], w);
  shell_with_stderr = λ cmd w. (ok silent, w);
  pull = λ remote local w. (ok tt, (w.1, w.1));
  push = λ local remote w. (ok tt, (w.0, w.0));
  sync_device = λ w. (ok tt, w);
}

copying_laws : PushesWhole copying_device (λ file w. w.0) (λ file w. w.1)
copying_laws = record {
  sent = λ local remote w v e. ap (λ o. o.1.1) (sym e);
  local_kept = λ local remote file w. refl;
  local_synced = λ file w. refl;
  device_synced = λ file w. refl;
}

abbrev still_files : Local TwoFiles (Unit {0})
still_files = record {
  create = λ path. pure tt;
  open_read_write = λ path. pure tt;
  open_write = λ path. pure tt;
  set_len = λ f n. pure tt;
  seek = λ f n. pure tt;
  read = λ f n. pure [];
  write = λ f bytes. pure 0;
  remove_file = λ path. pure tt;
  new_temp_dir = λ dir. pure dir;
  drop_temp_dir = λ dir w. w;
  mknod = λ path mode rdev. pure tt;
  instant_now = λ w. 0;
  system_time_now = λ w. record { secs = pos 0; nanos = 0 };
}

abbrev copying_fs : AdbFs TwoFiles (Unit {0})
copying_fs = record {
  ops = record { device = copying_device; libc = utc_noon; rescan = false };
  local = still_files;
  tmp_dir = codes "/tmp";
  opts = default;
}

-- The root's copy has a change.
abbrev changed : FsState TwoFiles (Unit {0})
changed = record (new (record { world = (codes "new", codes "old"); touch_gnu_mode = false }) 30) {
  copies = (0, record (new_copy (codes "/tmp/1")) { dirty = true; refs = 1 }) ∷ [];
}

abbrev flushed : Result ℕ (Unit {0}) × FsState TwoFiles (Unit {0})
flushed = push_if_dirty copying_fs 1 0 changed

push_if_dirty-Moves_example :
    Moves
      (shared copying_fs (λ file w. w.0) (λ file w. w.1) 0 (codes "/") 1 changed)
      resting
      (shared copying_fs (λ file w. w.0) (λ file w. w.1) 0 (codes "/") 1 flushed.1)
      resting
unfolding push_if_dirty get_path Map.get Map.insert new push sync_device
push_if_dirty-Moves_example =
    push_if_dirty-Moves copying_fs (λ file w. w.0) (λ file w. w.1) 0 (codes "/") 1 copying_laws 1
      changed flushed.1 flushed.0 (λ q e. cc) refl (λ e. cc)
