-- ===== src/Examples/Requests.antt =====
-- Requests on a device that answers silently: the root is opened twice, one handle writes and is
-- flushed, and handles are released.
use adbfs_rust.Base.{nat_eq, ℕ, false, List, [], ◌∷◌, Option, none, some, ◌≡◌, ◌≢◌, refl, arith}
use adbfs_rust.Base.Map
use adbfs_rust.Ops.Device.{OpsState, pull, push, sync_device}
use adbfs_rust.Fs.State.{FsState, OpenFile, new}
use adbfs_rust.Fs.Copies.{load, acquire_copy, release_copy, push_if_dirty}
use adbfs_rust.Fs.Handlers.Files
use adbfs_rust.Fs.Handlers.Files.Last.{release_last}
use adbfs_rust.Base.{panicked}
use adbfs_rust.Fs.Sound.Tables.{tables, nothing, IsSound, IsOpened, locals_of}
use adbfs_rust.Fs.Sound.Requests.{Request, open_file, write, flush, release, serve_all}
use adbfs_rust.Fs.Sound.Requests.Served.{serve_all-IsSound, serve_all-none_left, serve_all-share}
use adbfs_rust.Examples.World.{World, quiet_fs, start}

abbrev some_requests : List Request
some_requests = open_file 1 ∷ open_file 1 ∷ write 2 0 (65 ∷ []) ∷ flush 2 ∷ release 1 ∷ []

abbrev state_of : Option (FsState World (Unit {0})) → FsState World (Unit {0})
state_of none = start
state_of (some t) = t

abbrev two_handles : List Request
two_handles = open_file 1 ∷ open_file 1 ∷ write 2 0 (65 ∷ []) ∷ []

abbrev to_the_end : List Request
to_the_end = open_file 1 ∷ write 1 0 (65 ∷ []) ∷ flush 1 ∷ release 1 ∷ []

abbrev device_state : OpsState World
device_state = record { world = []; touch_gnu_mode = false }

abbrev behind : List Request → FsState World (Unit {0})
behind requests = state_of (serve_all quiet_fs requests start)

serve_all-IsSound_example : IsSound (locals_of quiet_fs) nothing 0 (tables (behind some_requests))
unfolding serve_all Files.open_file Map.get new acquire_copy Map.insert pull Files.write Files.flush
    push_if_dirty push sync_device Files.release release_copy
serve_all-IsSound_example =
    serve_all-IsSound quiet_fs device_state 30 some_requests (behind some_requests) (omega arith)
      refl

serve_all-none_left_example : Map.get 1 (behind to_the_end).open_copies ≡ none
unfolding serve_all Files.open_file Map.get new acquire_copy Map.insert pull Files.write Files.flush
    push_if_dirty push sync_device Files.release release_copy Map.remove
serve_all-none_left_example =
    serve_all-none_left quiet_fs device_state 30 to_the_end (behind to_the_end) 1 (omega arith) refl
      refl

abbrev handle_on_root : OpenFile (Unit {0})
handle_on_root = record { ino = 1; copy = 0; file = tt }

serve_all-share_example :
    IsOpened quiet_fs (load 0 (behind two_handles)).path tt
    × IsOpened quiet_fs (load 0 (behind two_handles)).path tt
    × (◌≡◌ {A = ℕ} 1 1 → ◌≡◌ {A = ℕ} 0 0)
    × (◌≢◌ {A = ℕ} 1 1 → (load 0 (behind two_handles)).path ≢ (load 0 (behind two_handles)).path)
unfolding serve_all Files.open_file Map.get new acquire_copy Map.insert pull Files.write Files.flush
    push_if_dirty push sync_device Files.release release_copy
serve_all-share_example =
    serve_all-share quiet_fs device_state 30 two_handles (behind two_handles) 1 2 handle_on_root
      handle_on_root (omega arith) refl refl refl

abbrev just_written : List Request
just_written = open_file 1 ∷ write 1 0 (65 ∷ []) ∷ []

abbrev unpushed : FsState World (Unit {0})
unpushed = behind just_written

release_last_example :
    ((Files.release quiet_fs 1 unpushed).1.device ≡ record unpushed.device {
      world = (quiet_fs.local.remove_file (load 0 unpushed).path unpushed.device.world).1;
    })
    × ((quiet_fs.local.remove_file (load 0 unpushed).path unpushed.device.world).0 ≢ panicked
        → Map.get 1 unpushed.open_copies ≡ some 0
        → Map.get 1 (Files.release quiet_fs 1 unpushed).1.open_copies ≡ none)
unfolding serve_all Files.open_file Map.get new acquire_copy Map.insert pull Files.write load
release_last_example = release_last quiet_fs 1 handle_on_root unpushed refl refl
