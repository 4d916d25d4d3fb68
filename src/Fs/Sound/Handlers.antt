-- ===== src/Fs/Sound/Handlers.antt =====
-- src/fs.rs: the handlers that change the tables of handles and local copies.
use adbfs_rust.Base.{
  ℕ, suc, Str, true, ◌==◌, if◌then◌else◌, List, Option, none, some, ◌≡◌, sym, nat_eq,
}
use adbfs_rust.Base.Map
use adbfs_rust.Base.Triples.{
  returns, Triple, Keeps, bind_lem, pure_lem, gets_lem, gets_any, any_outcome, weaken,
}
use adbfs_rust.Parse.Meta.{FileMeta}
use adbfs_rust.Ops.Listing.{list_dir, get_metadata}
use adbfs_rust.Fs.State.{AdbFs, FsState, Fs, OpenFile, Ptr, system}
use adbfs_rust.Fs.Attr.{meta_to_attr}
use adbfs_rust.Fs.Inodes.{child_path}
use adbfs_rust.Fs.Metadata.{cache_insert}
use adbfs_rust.Fs.Copies.{pull_contents, empty, load}
use adbfs_rust.Fs.Handlers.Entries.{fresh_fh}
use adbfs_rust.Fs.Handlers.Directories.{opendir}
use adbfs_rust.Fs.Handlers.Files.{
  open_file, file_open_flags, write, flush, release, release_found, create, create_on_device,
}
use adbfs_rust.Fs.Handlers.Changes.{set_length, truncate, setattr, TimeOrNow}
use adbfs_rust.Fs.Sound.Tables.{Tables, tables, Held, nothing, holding, IsSound, locals_of}
use adbfs_rust.Fs.Sound.Handles.{removed, numbered, spared}
use adbfs_rust.Fs.Sound.Calls.{
  attempt_any, lift_lem, device-Keeps, system-Keeps, get_or_assign_ino-Keeps, path_of_ino-Keeps,
}
use adbfs_rust.Fs.Sound.Frames.{file_of_fh-Keeps, list_entries-Keeps}
use adbfs_rust.Fs.Sound.Changes.{resolve_time-Keeps, set_times-Keeps}
use adbfs_rust.Fs.Sound.Opened.{
  open_own-Sound, create_on_device-Sound, opened-Sound, add_handle-Sound,
}
use adbfs_rust.Fs.Sound.Acquire.{Good, set_dirty-Keeps, acquire_copy-Sound}
use adbfs_rust.Fs.Sound.Release.{push_if_dirty-Keeps, release_copy-Sound}

module _ {W F : Type 0} (fs : AdbFs W F) where
  -- A handler that keeps the agreement of the tables and makes at most one handle.
  abbrev pub Serves : {A : Type 0} → ℕ → Fs W F A → Type 0
  Serves n m = Triple (Good fs nothing (suc n)) m (λ _. Good fs nothing n) (Good fs nothing n)

  abbrev Agrees : Held → ℕ → Tables F → Type 0
  Agrees = IsSound (locals_of fs)

  module _ (n : ℕ) where
    spare : (s : FsState W F) → Good fs nothing (suc n) s → Good fs nothing n s
    spare s h = spared (locals_of fs) n (tables s) h

    -- A handler that makes no handle.
    pub Serves-Keeps : {A : Type 0} {m : Fs W F A} → Keeps (Good fs nothing (suc n)) m → Serves n m
    Serves-Keeps h = weaken (λ s g. g) h (λ _. spare) spare

  module _ (n : ℕ) where
    pub open_file-Serves : (ino : ℕ) → Serves n (open_file fs ino)
    unfolding open_file
    open_file-Serves ino =
        weaken (λ s g. g)
          (bind_lem (path_of_ino-Keeps (Agrees nothing (suc n)) ino) (λ path.
            bind_lem (acquire_copy-Sound fs (suc n) ino path pull_contents) (λ p.
              bind_lem (gets_lem (load p)) (λ c.
                opened-Sound fs (suc n) ino p (system (fs.local.open_read_write c.path)) _
                  (open_own-Sound fs (suc n) ino p c)
                  (λ file own.
                    bind_lem (add_handle-Sound fs n ino p file own)
                      (λ fh. pure_lem (fh, file_open_flags fs) (λ s h. h)))))))
          (λ _ s h. h) (spare n)

    pub write-Serves : (fh offset : ℕ) (bytes : List ℕ) → Serves n (write fs fh offset bytes)
    unfolding write
    write-Serves fh offset bytes = Serves-Keeps n (
        bind_lem (file_of_fh-Keeps fs (Agrees nothing (suc n)) fh) (λ f.
          bind_lem (system-Keeps (Agrees nothing (suc n)) (fs.local.seek f.file offset)) (λ _.
            bind_lem (system-Keeps (Agrees nothing (suc n)) (fs.local.write f.file bytes))
              (λ written.
                bind_lem (set_dirty-Keeps fs nothing (suc n) f.copy true)
                  (λ _. pure_lem _ (λ s h. h))))))

    pub flush-Serves : (fh : ℕ) → Serves n (flush fs fh)
    unfolding flush
    flush-Serves fh = Serves-Keeps n (
        bind_lem (file_of_fh-Keeps fs (Agrees nothing (suc n)) fh)
          (λ f. push_if_dirty-Keeps fs nothing (suc n) f.ino f.copy))

    found-Sound :
        (fh : ℕ) (found : Option (OpenFile F))
        → Triple
            (λ s. Good fs nothing n s × (found ≡ Map.get fh s.open_files))
            (release_found fs fh found)
            (λ _. Good fs nothing n)
            (Good fs nothing n)
    unfolding release_found
    found-Sound fh none = pure_lem tt (λ s h. h.0)
    found-Sound fh (some f) = record {
      run = λ s h.
          (release_copy-Sound fs n f.ino f.copy).run
            (record s { open_files = Map.remove fh s.open_files })
            (removed (locals_of fs) n (tables s) fh f (sym h.1) h.0);
    }

    pub release-Keeps : (fh : ℕ) → Keeps (Good fs nothing n) (release fs fh)
    unfolding release
    release-Keeps fh = bind_lem (gets_lem (λ s. Map.get fh s.open_files)) (found-Sound fh)

    cache_insert_any :
        {R : FsState W F → Type 0} (held : Held) (path : Str) (meta : Option FileMeta)
        → Triple (Good fs held n) (cache_insert fs path meta) (λ _. Good fs held n) R
    unfolding cache_insert
    cache_insert_any held path meta = record { run = λ s h. returns h }

    set_length-Keeps :
        (held : Held) (ino : ℕ) (p : Ptr) (size : ℕ)
        → Keeps (Good fs held n) (set_length fs ino p size)
    unfolding set_length
    set_length-Keeps held ino p size = bind_lem (gets_any (load p)) (λ c.
        bind_lem (system-Keeps (Agrees held n) (fs.local.open_write c.path)) (λ file.
          bind_lem (system-Keeps (Agrees held n) (fs.local.set_len file size)) (λ _.
            bind_lem (set_dirty-Keeps fs held n p true)
              (λ _. push_if_dirty-Keeps fs held n ino p))))

    truncate-Keeps :
        (ino : ℕ) (path : Str) (size : Option ℕ)
        → Keeps (Good fs nothing n) (truncate fs ino path size)
    unfolding truncate
    truncate-Keeps ino path none = pure_lem tt (λ s h. h)
    truncate-Keeps ino path (some size) =
        bind_lem (acquire_copy-Sound fs n ino path (if size == 0 then empty else pull_contents))
          (λ p. bind_lem (attempt_any (set_length-Keeps (holding ino p) ino p size)) (λ truncated.
            bind_lem (release_copy-Sound fs n ino p)
              (λ _. lift_lem truncated (any_outcome truncated))))

    pub setattr-Keeps :
        (ino : ℕ) (size : Option ℕ) (atime mtime : Option TimeOrNow)
        → Keeps (Good fs nothing n) (setattr fs ino size atime mtime)
    unfolding setattr
    setattr-Keeps ino size atime mtime =
        bind_lem (path_of_ino-Keeps (Agrees nothing n) ino) (λ path.
          bind_lem (truncate-Keeps ino path size) (λ _.
            bind_lem (resolve_time-Keeps fs (Agrees nothing n) atime) (λ at.
              bind_lem (resolve_time-Keeps fs (Agrees nothing n) mtime) (λ mt.
                bind_lem (set_times-Keeps fs (Agrees nothing n) path at mt) (λ _.
                  bind_lem (device-Keeps (Agrees nothing n) (get_metadata fs.ops path)) (λ meta.
                    bind_lem (cache_insert_any nothing path (some meta)) (λ _.
                      pure_lem (fs.opts.attr_timeout, meta_to_attr fs.opts ino meta)
                        (λ s h. h))))))))

  module _ (n : ℕ) where
    pub create-Serves : (parent : ℕ) (name : Str) → Serves n (create fs parent name)
    unfolding create
    create-Serves parent name =
        weaken (λ s g. g)
          (bind_lem (path_of_ino-Keeps (Agrees nothing (suc n)) parent) (λ parent_path.
            let path = child_path parent_path name in
            bind_lem (get_or_assign_ino-Keeps (Agrees nothing (suc n)) path) (λ ino.
              bind_lem (acquire_copy-Sound fs (suc n) ino path empty) (λ p.
                opened-Sound fs (suc n) ino p (create_on_device fs ino path p) _
                  (create_on_device-Sound fs (suc n) ino p path)
                  (λ made own.
                    bind_lem (cache_insert_any (suc n) (holding ino p) path (some made.1)) (λ _.
                      bind_lem (add_handle-Sound fs n ino p made.0 own) (λ fh.
                        pure_lem
                          (
                            fs.opts.entry_timeout,
                            meta_to_attr fs.opts ino made.1,
                            fh,
                            file_open_flags fs,
                          )
                          (λ s h. h))))))))
          (λ _ s h. h) (spare n)

    -- The number of a new directory handle is used up.
    pub opendir-Serves : (ino : ℕ) → Serves n (opendir fs ino)
    unfolding opendir fresh_fh
    opendir-Serves ino =
        weaken (λ s g. g)
          (bind_lem (path_of_ino-Keeps (Agrees nothing (suc n)) ino) (λ path.
            bind_lem (device-Keeps (Agrees nothing (suc n)) (list_dir fs.ops path)) (λ entries.
              bind_lem (list_entries-Keeps fs (Agrees nothing (suc n)) path entries) (λ listed.
                record { run = λ s h. returns (numbered (locals_of fs) n (tables s) h) }))))
          (λ _ s h. h) (spare n)
