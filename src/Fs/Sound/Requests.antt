-- ===== src/Fs/Sound/Requests.antt =====
-- src/fs.rs: the requests of the kernel, served one after the other by the handlers of `Filesystem`.
pub mod Served
use adbfs_rust.Base.{ℕ, Str, Bool, List, [], ◌∷◌, Option, none, some, Result, ok, err, panicked}
use adbfs_rust.Fs.State.{AdbFs, FsState, Fs, DirEntry}
use adbfs_rust.Fs.Handlers.Entries
use adbfs_rust.Fs.Handlers.Directories
use adbfs_rust.Fs.Handlers.Files
use adbfs_rust.Fs.Handlers.Changes
use adbfs_rust.Fs.Handlers.Changes.{TimeOrNow}

-- A request with the arguments that its handler reads; that of `readdir` says when the reply is full.
pub data Request : Type 0 where
  getattr : ℕ → Request
  lookup : ℕ → Str → Request
  opendir : ℕ → Request
  readdir : (List (ℕ × DirEntry) → ℕ × DirEntry → Bool) → ℕ → ℕ → Request
  releasedir : ℕ → Request
  open_file : ℕ → Request
  read : ℕ → ℕ → ℕ → Request
  write : ℕ → ℕ → List ℕ → Request
  flush : ℕ → Request
  release : ℕ → Request
  create : ℕ → Str → Request
  mkdir : ℕ → Str → Request
  unlink : ℕ → Str → Request
  rmdir : ℕ → Str → Request
  rename : ℕ → Str → ℕ → Str → Request
  readlink : ℕ → Request
  setattr : ℕ → Option ℕ → Option TimeOrNow → Option TimeOrNow → Request
  access : ℕ → ℕ → Request
  mknod : ℕ → Str → ℕ → ℕ → Request

-- The state behind a reply, errors included; there is none behind a panic.
unfoldable pub replied : {A S : Type 0} → Result ℕ A → S → Option S
replied (ok a) s = some s
replied (err e) s = some s
replied panicked s = none

module _ {W F : Type 0} (fs : AdbFs W F) where
  unfoldable pub after : {A : Type 0} → Fs W F A → FsState W F → Option (FsState W F)
  unfolding replied
  after m s = let (r, t) = m s in replied r t

  unfoldable pub serve : Request → FsState W F → Option (FsState W F)
  unfolding after
  serve (getattr ino) = after (Entries.getattr fs ino)
  serve (lookup parent name) = after (Entries.lookup fs parent name)
  serve (opendir ino) = after (Directories.opendir fs ino)
  serve (readdir full fh offset) = after (Directories.readdir fs full fh offset)
  serve (releasedir fh) = after (Directories.releasedir fs fh)
  serve (open_file ino) = after (Files.open_file fs ino)
  serve (read fh offset size) = after (Files.read fs fh offset size)
  serve (write fh offset bytes) = after (Files.write fs fh offset bytes)
  serve (flush fh) = after (Files.flush fs fh)
  serve (release fh) = after (Files.release fs fh)
  serve (create parent name) = after (Files.create fs parent name)
  serve (mkdir parent name) = after (Changes.mkdir fs parent name)
  serve (unlink parent name) = after (Changes.unlink fs parent name)
  serve (rmdir parent name) = after (Changes.rmdir fs parent name)
  serve (rename parent name newparent newname) =
      after (Changes.rename fs parent name newparent newname)
  serve (readlink ino) = after (Entries.readlink fs ino)
  serve (setattr ino size atime mtime) = after (Changes.setattr fs ino size atime mtime)
  serve (access ino mask) = after (Entries.access fs ino mask)
  serve (mknod parent name mode rdev) = after (Changes.mknod fs parent name mode rdev)

  -- Until a handler panics.
  unfoldable pub serve_all : List Request → FsState W F → Option (FsState W F)
  unfolding serve
  serve_all [] s = some s
  serve_all (request ∷ requests) s = elim (serve request s) [
    | none ↦ none
    | some t ↦ serve_all requests t
  ]
