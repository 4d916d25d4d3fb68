-- ===== src/UnitTests/Filesystem.antt =====
-- src/fs.rs: its tests, on the test double of a device and on local files that are a map.
use adbfs_rust.Base.{
  ℕ, zero, suc, Str, codes, str_eq, ◌==◌, leb, if◌then◌else◌, Bool, true, false, not, ◌&&◌, List,
  [], ◌∷◌, Option, none, some, pos, Result, ok, err, panicked, ◌≡◌, refl, length, ◌++◌, text_eq,
  nat_eq, rfind, drop, show,
}
use adbfs_rust.Base.Exec.{Exec, pure, raise, gets, ◌>>=◌, ◌>>◌}
use adbfs_rust.Base.Map
use adbfs_rust.Base.Map.{Map}
use adbfs_rust.Errno.{enoent, enosys}
use adbfs_rust.Adb.Mock
use adbfs_rust.Adb.Mock.{MockAdb, mock_adb, with_content, with_failing_pull}
use adbfs_rust.MountOpts.{default}
use adbfs_rust.Ops.Device
use adbfs_rust.Ops.Device.{DeviceOps, OpsState, pull, push, sync_device}
use adbfs_rust.Fs.State.{AdbFs, FsState, Fs, Local, Ptr, attempt}
use adbfs_rust.Fs.State
use adbfs_rust.Fs.Inodes.{get_or_assign_ino, get_path, rekey_paths, move_path, renamed}
use adbfs_rust.Fs.Copies.{
  pull_contents, load, set_dirty, local_path_for, acquire_copy, release_copy, push_if_dirty,
}
use adbfs_rust.UnitTests.Support.{all_pass, utc_noon}

-- The local files and what they hold.
abbrev Files : Type 0
Files = Map Str (List ℕ)

abbrev World : Type 0
World = MockAdb Files

abbrev write_file : Str → List ℕ → Exec Files ℕ (Unit {0})
write_file path bytes files = (ok tt, Map.insert path bytes files)

abbrev exists_in : Str → Files → Bool
exists_in path files = elim (Map.get path files) [ none ↦ false | some bytes ↦ true ]

abbrev on_files : {A : Type 0} → (Files → Result ℕ A × Files) → Exec World ℕ A
on_files call mock = let (r, files) = call mock.world in (r, record mock { world = files })

abbrev open_existing : Str → Exec World ℕ Str
open_existing path =
    on_files (λ files. (if exists_in path files then ok path else err enoent, files))

-- The calls that the tests make; the others are not there.
abbrev map_files : Local World Str
map_files = record {
  create = λ path. on_files (write_file path []);
  open_read_write = open_existing;
  open_write = open_existing;
  set_len = λ f n. raise enosys;
  seek = λ f n. raise enosys;
  read = λ f n. raise enosys;
  write = λ f bytes. raise enosys;
  remove_file = λ path.
      on_files
        (λ files. (if exists_in path files then ok tt else err enoent, Map.remove path files));
  new_temp_dir = λ dir. raise enosys;
  drop_temp_dir = λ dir w. w;
  mknod = λ path mode rdev. raise enosys;
  instant_now = λ w. 0;
  system_time_now = λ w. record { secs = pos 0; nanos = 0 };
}

-- `test_fs`, with the double that it is given and the directory that it makes.
test_fs : MockAdb Files → AdbFs World Str × FsState World Str
test_fs adb =
    let (ops, s) = Device.new (mock_adb write_file) utc_noon adb in
    (
      record { ops = ops; local = map_files; tmp_dir = codes "/tmp/adbfs"; opts = default },
      State.new s 30_000_000_000,
    )

-- A test returns whether what it asserts holds, or fails on the way.
verdict : Result ℕ Bool → Bool
verdict (ok b) = b
verdict (err e) = false
verdict panicked = false

passes : MockAdb Files → (AdbFs World Str → Fs World Str Bool) → Bool
passes adb test = let (fs, s) = test_fs adb in verdict (test fs s).0

abbrev silent : MockAdb Files
silent = Mock.silent []

-- `Path::exists`, and whether a local file holds something.
abbrev exists : Str → FsState World Str → Bool
exists path s = exists_in path s.device.world.world

abbrev holds : Str → Str → FsState World Str → Bool
holds path bytes s = elim (Map.get path s.device.world.world) [
  | none ↦ false
  | some found ↦ str_eq found bytes
]

abbrev is_empty_map : Map ℕ Ptr → Bool
is_empty_map [] = true
is_empty_map (e ∷ m) = false

concurrent_opens_share_one_local_copy : Bool
concurrent_opens_share_one_local_copy =
    passes (with_content (codes "device contents") silent) (λ fs. (do
      ino ← get_or_assign_ino (codes "/sdcard/a.txt")
      first ← acquire_copy fs ino (codes "/sdcard/a.txt") pull_contents
      second ← acquire_copy fs ino (codes "/sdcard/a.txt") pull_contents
      path ← gets (λ s. (load first s).path)
      filled ← gets (holds path (codes "device contents"))
      release_copy fs ino first
      there ← gets (exists path)
      release_copy fs ino second
      still_there ← gets (exists path)
      unused ← gets (λ s. is_empty_map s.open_copies)
      pure (first == second && filled && there && not still_there && unused)))

abbrev repeated : ℕ → Str → Str
repeated zero s = []
repeated (suc n) s = s ++ repeated n s

-- What follows the last slash.
abbrev file_name : Str → Str
file_name path = elim (rfind path b'/') [ none ↦ path | some (dir, from_slash) ↦ drop 1 from_slash ]

local_paths_do_not_collide : Bool
local_paths_do_not_collide = passes silent (λ fs. (do
  i ← get_or_assign_ino (codes "/a/b")
  j ← get_or_assign_ino (codes "/a_b")
  k ← get_or_assign_ino (codes "/sdcard/" ++ repeated 200 (codes "x/"))
  let p = local_path_for fs i
  let q = local_path_for fs j
  let r = local_path_for fs k
  pure (
      not (str_eq p q)
      && not (str_eq p r)
      && not (str_eq q r)
      && leb (length (file_name p)) 255
      && leb (length (file_name q)) 255
      && leb (length (file_name r)) 255)))

abbrev is_err : {A : Type 0} → Result ℕ A → Bool
is_err (ok a) = false
is_err (err e) = true
is_err panicked = false

failed_pull_leaves_no_copy_behind : Bool
failed_pull_leaves_no_copy_behind = passes (with_failing_pull silent) (λ fs. (do
  ino ← get_or_assign_ino (codes "/sdcard/a.txt")
  acquired ← attempt (acquire_copy fs ino (codes "/sdcard/a.txt") pull_contents)
  unused ← gets (λ s. is_empty_map s.open_copies)
  there ← gets (exists (local_path_for fs ino))
  pure (is_err acquired && unused && not there)))

abbrev path_is : Option Str → Str → Bool
path_is none path = false
path_is (some found) path = str_eq found path

abbrev has_path : ℕ → Str → FsState World Str → Bool
has_path ino path s = path_is (get_path ino s) path

rename_remaps_the_inode : Bool
rename_remaps_the_inode = passes silent (λ fs. (do
  ino ← get_or_assign_ino (codes "/sdcard/old.txt")
  rekey_paths (codes "/sdcard/old.txt") (codes "/sdcard/new.txt")
  moved ← gets (has_path ino (codes "/sdcard/new.txt"))
  at_new ← get_or_assign_ino (codes "/sdcard/new.txt")
  at_old ← get_or_assign_ino (codes "/sdcard/old.txt")
  pure (moved && at_new == ino && not (at_old == ino))))

abbrev last_push : List (Str × Str) → Option (Str × Str)
last_push [] = none
last_push (p ∷ []) = some p
last_push (p ∷ q ∷ ps) = last_push (q ∷ ps)

abbrev was_pushed : Str → Str → FsState World Str → Bool
was_pushed local remote s = elim (last_push s.device.world.pushes) [
  | none ↦ false
  | some (l, r) ↦ str_eq l local && str_eq r remote
]

dirty_copy_pushes_to_the_renamed_path : Bool
dirty_copy_pushes_to_the_renamed_path = passes (with_content (codes "x") silent) (λ fs. (do
  ino ← get_or_assign_ino (codes "/sdcard/old.txt")
  copy ← acquire_copy fs ino (codes "/sdcard/old.txt") pull_contents
  set_dirty copy true
  rekey_paths (codes "/sdcard/old.txt") (codes "/sdcard/new.txt")
  push_if_dirty fs ino copy
  c ← gets (load copy)
  at_new ← gets (was_pushed c.path (codes "/sdcard/new.txt"))
  release_copy fs ino copy
  pure (at_new && not c.dirty)))

rename_remaps_descendants_but_not_siblings : Bool
rename_remaps_descendants_but_not_siblings = passes silent (λ fs. (do
  child ← get_or_assign_ino (codes "/sdcard/dir/deep/file.txt")
  sibling ← get_or_assign_ino (codes "/sdcard/dirtyfile")
  rekey_paths (codes "/sdcard/dir") (codes "/sdcard/moved")
  moved ← gets (has_path child (codes "/sdcard/moved/deep/file.txt"))
  stayed ← gets (has_path sibling (codes "/sdcard/dirtyfile"))
  pure (moved && stayed)))

abbrev has_no_path : ℕ → FsState World Str → Bool
has_no_path ino s = elim (get_path ino s) [ none ↦ true | some path ↦ false ]

rename_over_existing_drops_the_replaced_inode : Bool
rename_over_existing_drops_the_replaced_inode = passes silent (λ fs. (do
  source ← get_or_assign_ino (codes "/sdcard/a.txt")
  replaced ← get_or_assign_ino (codes "/sdcard/b.txt")
  rekey_paths (codes "/sdcard/a.txt") (codes "/sdcard/b.txt")
  moved ← gets (has_path source (codes "/sdcard/b.txt"))
  dropped ← gets (has_no_path replaced)
  pure (moved && dropped)))

-- Each test passes.
filesystem_tests_lem :
    all_pass (
      concurrent_opens_share_one_local_copy ∷ local_paths_do_not_collide
      ∷ failed_pull_leaves_no_copy_behind ∷ rename_remaps_the_inode
      ∷ dirty_copy_pushes_to_the_renamed_path ∷ rename_remaps_descendants_but_not_siblings
      ∷ rename_over_existing_drops_the_replaced_inode ∷ [])
    ≡ true
unfolding concurrent_opens_share_one_local_copy local_paths_do_not_collide
    failed_pull_leaves_no_copy_behind rename_remaps_the_inode dirty_copy_pushes_to_the_renamed_path
    rename_remaps_descendants_but_not_siblings rename_over_existing_drops_the_replaced_inode passes
    test_fs verdict State.new Device.new mock_adb Mock.silent with_content with_failing_pull
    get_or_assign_ino get_path rekey_paths acquire_copy release_copy push_if_dirty set_dirty load
    local_path_for pull push sync_device attempt Map.get Map.insert Map.remove show move_path
    renamed
filesystem_tests_lem = refl
