-- ===== src/Fs/State.antt =====
-- src/fs.rs: the state of `AdbFs`, and the parts of the operating system that it calls. Requests are
-- served one after the other here: each handler runs from its first line to its reply.
use adbfs_rust.Base.{
  ℕ, Str, codes, [], ◌∷◌, Bool, false, List, Result, ok, err, panicked, map_err, text_eq,
}
use adbfs_rust.Base.Map.{Map}
use adbfs_rust.Base.Exec.{Exec}
use adbfs_rust.Cache.{MetadataCache}
use adbfs_rust.Cache
use adbfs_rust.MountOpts.{FsOptions}
use adbfs_rust.Ops.Messages.{DeviceError, to_errno}
use adbfs_rust.Ops.Device.{DeviceOps, OpsState}
use adbfs_rust.Parse.Meta.{SystemTime}

-- The local file system, the clocks and `mknod` of the operating system, over a type of worlds and one
-- of open files. An error is the errno that `fuser` gives for the `std::io::Error`.
pub record Local (W F : Type 0) : Type 0 where
  -- `File::create`, its file closed again
  pub create : Str → Exec W ℕ (Unit {0})
  -- `OpenOptions::new().read(true).write(true).open`
  pub open_read_write : Str → Exec W ℕ F
  -- `OpenOptions::new().write(true).open`
  pub open_write : Str → Exec W ℕ F
  pub set_len : F → ℕ → Exec W ℕ (Unit {0})
  pub seek : F → ℕ → Exec W ℕ (Unit {0})
  pub read : F → ℕ → Exec W ℕ (List ℕ)
  pub write : F → List ℕ → Exec W ℕ ℕ
  pub remove_file : Str → Exec W ℕ (Unit {0})
  -- `TempDir::new_in`, and the removal of the directory when the value is dropped
  pub new_temp_dir : Str → Exec W ℕ Str
  pub drop_temp_dir : Str → W → W
  pub mknod : Str → ℕ → ℕ → Exec W ℕ (Unit {0})
  pub instant_now : W → ℕ
  pub system_time_now : W → SystemTime

-- What an `AdbFs` is made of and never changes.
pub record AdbFs (W F : Type 0) : Type 0 where
  pub ops : DeviceOps W
  pub local : Local W F
  pub tmp_dir : Str
  pub opts : FsOptions

-- A `LocalCopy` with its `CopyState`.
pub record LocalCopy : Type 0 where
  pub path : Str
  pub dirty : Bool
  pub refs : ℕ
  pub pulled : Bool
  pub evicted : Bool

abbrev pub new_copy : Str → LocalCopy
new_copy path = record { path = path; dirty = false; refs = 0; pulled = false; evicted = false }

-- An `Arc<LocalCopy>` is an address in `copies`.
abbrev pub Ptr : Type 0
Ptr = ℕ

pub record OpenFile (F : Type 0) : Type 0 where
  pub ino : ℕ
  pub copy : Ptr
  pub file : F

pub data FileType : Type 0 where
  directory symlink block_device char_device named_pipe socket regular_file : FileType

-- One entry of an `OpenDir`.
abbrev pub DirEntry : Type 0
DirEntry = ℕ × FileType × Str

pub record FsState (W F : Type 0) : Type 0 where
  pub device : OpsState W
  pub cache : MetadataCache
  pub open_files : Map ℕ (OpenFile F)
  pub open_copies : Map ℕ Ptr
  pub open_dirs : Map ℕ (List DirEntry)
  pub next_fh : ℕ
  pub path_to_ino : Map Str ℕ
  pub ino_to_path : Map ℕ Str
  pub next_ino : ℕ
  pub copies : Map Ptr LocalCopy
  pub next_ptr : ℕ

abbrev pub fuse_root_ino : ℕ
fuse_root_ino = 1

-- `AdbFs::new`, over the state that the operations on the device start from.
unfoldable pub new : {W F : Type 0} → OpsState W → ℕ → FsState W F
new device cache_ttl = record {
  device = device;
  cache = Cache.new cache_ttl;
  open_files = [];
  open_copies = [];
  open_dirs = [];
  next_fh = 1;
  path_to_ino = (codes "/", fuse_root_ino) ∷ [];
  ino_to_path = (fuse_root_ino, codes "/") ∷ [];
  next_ino = 2;
  copies = [];
  next_ptr = 0;
}

-- A handler replies with a value, or with an errno.
abbrev pub Fs : Type 0 → Type 0 → Type 0 → Type 0
Fs W F A = Exec (FsState W F) ℕ A

module _ {W F : Type 0} where
  -- An operation on the device, its error kept.
  unfoldable pub on_device :
      {A : Type 0} → Exec (OpsState W) DeviceError A → Fs W F (Result DeviceError A)
  on_device m s =
      let (r, d) = m s.device in
      let s' : FsState W F = record s { device = d } in
      elim r [ ok a ↦ (ok (ok a), s') | err e ↦ (ok (err e), s') | panicked ↦ (panicked, s') ]

  -- An operation on the device, its error made an errno.
  unfoldable pub device : {A : Type 0} → Exec (OpsState W) DeviceError A → Fs W F A
  device m s = let (r, d) = m s.device in (map_err to_errno r, record s { device = d })

  -- A call of the operating system.
  unfoldable pub system : {A : Type 0} → Exec W ℕ A → Fs W F A
  system m s =
      let (r, w) = m s.device.world in (r, record s { device = record s.device { world = w } })

  -- The error of a call as a value, for the code that handles it.
  unfoldable pub attempt : {A : Type 0} → Fs W F A → Fs W F (Result ℕ A)
  attempt m s =
      let (r, s') = m s in
      elim r [ ok a ↦ (ok (ok a), s') | err e ↦ (ok (err e), s') | panicked ↦ (panicked, s') ]
