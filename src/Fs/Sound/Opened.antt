-- ===== src/Fs/Sound/Opened.antt =====
-- src/fs.rs: `open` and `create` between the reference that they take and the handle that they make.
use adbfs_rust.Base.{ℕ, suc, Str, Result, ok, err, panicked, ◌≡◌, refl, ap, ◌∙◌, subst}
use adbfs_rust.Base.Exec.{◌>>=◌}
use adbfs_rust.Base.Triples.{
  Outcome, returns, raises, panics, Triple, bind_lem, pure_lem, raise_lem, gets_lem, returned,
  raised,
}
use adbfs_rust.Ops.Listing.{get_metadata}
use adbfs_rust.Fs.State.{AdbFs, FsState, Fs, LocalCopy, Ptr, system, attempt}
use adbfs_rust.Fs.Copies.{load, local_path_for}
use adbfs_rust.Fs.Handlers.Entries.{fresh_fh}
use adbfs_rust.Fs.Handlers.Files.{or_release, add_handle, create_on_device}
use adbfs_rust.Fs.Sound.Tables.{tables, nothing, holding, IsSound, IsOpened, locals_of, copy_at}
use adbfs_rust.Fs.Sound.Handles.{added}
use adbfs_rust.Fs.Sound.Calls.{attempt_lem, device-Keeps}
use adbfs_rust.Fs.Sound.Acquire.{Good}
use adbfs_rust.Fs.Sound.Release.{push_if_dirty-Keeps, release_copy-Sound}

-- What is known besides the state is known after the call.
pub knowing :
    {S E A X : Type 0} {P : S → Type 0} {m : S → Result E A × S} {Q : A → S → Type 0}
    {R : S → Type 0}
    → (X → Triple P m Q R)
    → Triple (λ s. P s × X) m Q R
knowing f = record { run = λ s h. (f h.1).run s h.0 }

module _ {W F : Type 0} (fs : AdbFs W F) (n ino : ℕ) (p : Ptr) where
  -- A file that was opened at the local path of the inode.
  abbrev pub OwnFile : F → Type 0
  OwnFile = IsOpened fs (local_path_for fs ino)

  opened_by :
      (path : Str) (r : Result ℕ F) (w' : W) (s : FsState W F)
      → path ≡ local_path_for fs ino
      → fs.local.open_read_write path s.device.world ≡ (r, w')
      → Good fs (holding ino p) n s
      → Outcome
          (λ file u. Good fs (holding ino p) n u × OwnFile file)
          (Good fs (holding ino p) n)
          r
          (record s { device = record s.device { world = w' } })
  opened_by path (ok file) w' s at_own e h = returns (
    h,
    subst (λ q. IsOpened fs q file) at_own
        (record { before = s.device.world; after = w'; call = e }),
  )
  opened_by path (err e') w' s at_own e h = raises h
  opened_by path panicked w' s at_own e h = panics

  own_path-load :
      (s : FsState W F) → Good fs (holding ino p) n s → (load p s).path ≡ local_path_for fs ino
  unfolding load copy_at
  own_path-load s h = (h.backed ino p h.held_mapped).own_path

  -- The local file of a copy that the handler holds is the one of the inode.
  pub open_own-Sound :
      (c : LocalCopy)
      → Triple
          (λ s. Good fs (holding ino p) n s × (c ≡ load p s))
          (system (fs.local.open_read_write c.path))
          (λ file s. Good fs (holding ino p) n s × OwnFile file)
          (Good fs (holding ino p) n)
  unfolding system
  open_own-Sound c = record {
    run = λ s h.
        opened_by c.path (fs.local.open_read_write c.path s.device.world).0
          (fs.local.open_read_write c.path s.device.world).1 s
          (ap (λ (x : LocalCopy). x.path) h.1 ∙ own_path-load s h.0) refl h.0;
  }

  pub create_on_device-Sound :
      (path : Str)
      → Triple
          (Good fs (holding ino p) n)
          (create_on_device fs ino path p)
          (λ made s. Good fs (holding ino p) n s × OwnFile made.0)
          (Good fs (holding ino p) n)
  unfolding create_on_device
  create_on_device-Sound path = bind_lem (gets_lem (load p)) (λ c.
      bind_lem (open_own-Sound c) (λ file. knowing (λ own.
        bind_lem (push_if_dirty-Keeps fs (holding ino p) n ino p) (λ _.
          bind_lem
            (device-Keeps (IsSound (locals_of fs) (holding ino p) n) (get_metadata fs.ops path))
            (λ meta. pure_lem (file, meta) (λ s h. (h, own)))))))

  or_release-Sound :
      {A : Type 0} {Q : A → Type 0} (r : Result ℕ A)
      → Triple
          (Outcome {E = ℕ} (λ a s. Good fs (holding ino p) n s × Q a) (Good fs (holding ino p) n) r)
          (or_release fs ino p r)
          (λ a s. Good fs (holding ino p) n s × Q a)
          (Good fs nothing n)
  unfolding or_release
  or_release-Sound (ok a) = record { run = λ s o. returns (returned o) }
  or_release-Sound (err e) = record {
    run = λ s o.
        (bind_lem (release_copy-Sound fs n ino p) (λ _. raise_lem e (λ s h. h))).run s (raised o);
  }
  or_release-Sound panicked = record { run = λ s o. panics }

  -- A call that may fail, and what follows where it does not: `open` and `create` once they have a
  -- reference.
  pub opened-Sound :
      {A B : Type 0} {P : FsState W F → Type 0} {Q : A → Type 0} {T : B → FsState W F → Type 0}
      (m : Fs W F A) (f : A → Fs W F B)
      → Triple P m (λ a s. Good fs (holding ino p) n s × Q a) (Good fs (holding ino p) n)
      → ((a : A) → Q a → Triple (Good fs (holding ino p) n) (f a) T (Good fs nothing n))
      → Triple P (attempt m >>= λ r. or_release fs ino p r >>= f) T (Good fs nothing n)
  opened-Sound m f hm hf =
      bind_lem (attempt_lem hm) (λ r. bind_lem (or_release-Sound r) (λ a. knowing (hf a)))

module _ {W F : Type 0} (fs : AdbFs W F) (n : ℕ) where
  pub add_handle-Sound :
      {R : FsState W F → Type 0} (ino : ℕ) (p : Ptr) (file : F)
      → IsOpened fs (local_path_for fs ino) file
      → Triple (Good fs (holding ino p) (suc n)) (add_handle ino p file) (λ _. Good fs nothing n) R
  unfolding add_handle fresh_fh
  add_handle-Sound ino p file own = record {
    run = λ s h. returns (added (locals_of fs) n (tables s) ino p file own h);
  }
