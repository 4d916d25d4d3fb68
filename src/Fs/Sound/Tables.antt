-- ===== src/Fs/Sound/Tables.antt =====
-- src/fs.rs: the tables of handles and local copies, and when they agree.
use adbfs_rust.Base.{
  ℕ, suc, ◌+◌, ◌<◌, ◌≤◌, ◌^◌, Str, codes, ◌==◌, if◌then◌else◌, false, [], ◌∷◌, none, some, ok, ◌≡◌,
  ◌≢◌, refl, arith, nat_eq, length, All, All-zip, Bool-cases, inl, inr,
}
use adbfs_rust.Base.Map
use adbfs_rust.Base.Map.{
  Map, Unique, Unique-insert, Unique-remove, get-insert, get-remove, get-cons, get-entries,
}
use adbfs_rust.Fs.State.{AdbFs, FsState, OpenFile, LocalCopy, Ptr, new_copy}
use adbfs_rust.Fs.Copies.{load, local_path_for}

pub record Tables (F : Type 0) : Type 0 where
  pub files : Map ℕ (OpenFile F)
  pub mapped : Map ℕ Ptr
  pub copies : Map Ptr LocalCopy
  pub next_ptr : ℕ
  pub next_fh : ℕ

abbrev pub tables : {W F : Type 0} → FsState W F → Tables F
tables s = record {
  files = s.open_files;
  mapped = s.open_copies;
  copies = s.copies;
  next_ptr = s.next_ptr;
  next_fh = s.next_fh;
}

-- `load` on the tables.
unfoldable pub copy_at : Ptr → Map Ptr LocalCopy → LocalCopy
copy_at ptr copies = elim (Map.get ptr copies) [ none ↦ new_copy (codes "") | some c ↦ c ]

-- The local path of each inode, and which open files were opened at a path.
pub record Locals (F : Type 0) : Type 1 where
  pub path_of : ℕ → Str
  pub Opens : Str → F → Type 0

-- The file was opened for reading and writing at the path.
pub record IsOpened {W F : Type 0} (fs : AdbFs W F) (path : Str) (file : F) : Type 0 where
  pub before : W
  pub after : W
  pub call : fs.local.open_read_write path before ≡ (ok file, after)

abbrev pub locals_of : {W F : Type 0} → AdbFs W F → Locals F
locals_of fs = record { path_of = local_path_for fs; Opens = IsOpened fs }

-- What a handler has in its hands between its calls: nothing, a copy from the map that it has no
-- reference on yet, or a reference that no handle keeps.
pub data Held : Type 0 where
  nothing : Held
  entering : ℕ → Ptr → Held
  holding : ℕ → Ptr → Held

-- The references that the handler itself has on a copy.
abbrev pub held_refs : Held → Ptr → ℕ
held_refs nothing p = 0
held_refs (entering ino q) p = 0
held_refs (holding ino q) p = if q == p then 1 else 0

-- A copy that the handler is about to take may be without a reference.
abbrev pub excused : Held → Ptr → ℕ
excused nothing p = 0
excused (entering ino q) p = if q == p then 1 else 0
excused (holding ino q) p = 0

-- The copy in the handler's hands is the one that is mapped.
abbrev pub IsMapped : Held → Map ℕ Ptr → Type 0
IsMapped nothing mapped = Unit
IsMapped (entering ino q) mapped = Map.get ino mapped ≡ some q
IsMapped (holding ino q) mapped = Map.get ino mapped ≡ some q

module _ {F : Type 0} where
  -- The number of open handles on a copy.
  pub handles : Ptr → Map ℕ (OpenFile F) → ℕ
  handles p [] = 0
  handles p ((fh, f) ∷ files) = handles p files + (if f.copy == p then 1 else 0)

  -- The copy that an inode is mapped to is on its own local path, is not evicted, and counts the
  -- handles on it, of which there is one.
  pub record IsBacked (path_of : ℕ → Str) (held : Held) (t : Tables F) (ino p : ℕ) : Type 0 where
    pub allocated : p < t.next_ptr
    pub kept : (copy_at p t.copies).evicted ≡ false
    pub counted : (copy_at p t.copies).refs ≡ handles p t.files + held_refs held p
    pub used : (copy_at p t.copies).refs + excused held p ≢ 0
    pub own_path : (copy_at p t.copies).path ≡ path_of ino

  -- The tables agree, and `spare` more handles can be made.
  pub record IsSound (locals : Locals F) (held : Held) (spare : ℕ) (t : Tables F) : Type 0 where
    pub unique : Unique t.files
    pub fresh : (fh : ℕ) (f : OpenFile F) → Map.get fh t.files ≡ some f → fh < t.next_fh
    pub on_mapped :
        (fh : ℕ) (f : OpenFile F)
        → Map.get fh t.files ≡ some f
        → Map.get f.ino t.mapped ≡ some f.copy
    pub opened :
        (fh : ℕ) (f : OpenFile F)
        → Map.get fh t.files ≡ some f
        → locals.Opens (locals.path_of f.ino) f.file
    pub backed : (ino p : ℕ) → Map.get ino t.mapped ≡ some p → IsBacked locals.path_of held t ino p
    pub apart : (i j p : ℕ) → Map.get i t.mapped ≡ some p → Map.get j t.mapped ≡ some p → i ≡ j
    pub held_mapped : IsMapped held t.mapped
    pub few : length t.files < t.next_fh
    pub room : t.next_fh + spare < 2 ^ 64

  pub load-copy_at : {W : Type 0} (p : Ptr) (s : FsState W F) → load p s ≡ copy_at p s.copies
  unfolding load copy_at
  load-copy_at p s = refl

  pub handles-le : (p : Ptr) (files : Map ℕ (OpenFile F)) → handles p files ≤ length files
  unfolding handles
  handles-le p [] = omega arith
  handles-le p ((fh, f) ∷ files) = ground (arith, handles-le p files)

  pub length-remove :
      (fh : ℕ) (files : Map ℕ (OpenFile F)) → length (Map.remove fh files) ≤ length files
  unfolding Map.remove
  length-remove fh [] = omega arith
  length-remove fh ((k, f) ∷ files) = ground (arith, length-remove fh files)

  pub length-insert :
      (fh : ℕ) (f : OpenFile F) (files : Map ℕ (OpenFile F))
      → length (Map.insert fh f files) ≤ suc (length files)
  unfolding Map.insert
  length-insert fh f files = omega (arith, length-remove fh files)

  pub remove_absent :
      (fh : ℕ) (files : Map ℕ (OpenFile F)) → Map.get fh files ≡ none → Map.remove fh files ≡ files
  unfolding Map.remove Map.get
  remove_absent fh [] h = refl
  remove_absent fh ((k, f) ∷ files) h = ground (arith, remove_absent fh files)

  pub handles-cons :
      (p : Ptr) (fh : ℕ) (f : OpenFile F) (files : Map ℕ (OpenFile F))
      → handles p ((fh, f) ∷ files) ≡ handles p files + (if f.copy == p then 1 else 0)
  unfolding handles
  handles-cons p fh f files = refl

  pub handles-insert :
      (p : Ptr) (fh : ℕ) (f : OpenFile F) (files : Map ℕ (OpenFile F))
      → Map.get fh files ≡ none
      → handles p (Map.insert fh f files) ≡ handles p files + (if f.copy == p then 1 else 0)
  unfolding handles Map.insert
  handles-insert p fh f files h = rw (remove_absent fh files h) refl

  handles_absent :
      (p : Ptr) (fh : ℕ) (files : Map ℕ (OpenFile F))
      → All (λ e. e.0 ≢ fh) files
      → handles p (Map.remove fh files) ≡ handles p files
  unfolding Map.remove handles
  handles_absent p fh [] h = refl
  handles_absent p fh ((k, f) ∷ files) (h, hs) = ground (arith, handles_absent p fh files hs)

  pub handles-remove :
      (p : Ptr) (fh : ℕ) (f : OpenFile F) (files : Map ℕ (OpenFile F))
      → Unique files
      → Map.get fh files ≡ some f
      → handles p files ≡ handles p (Map.remove fh files) + (if f.copy == p then 1 else 0)
  unfolding handles Map.remove Map.get
  handles-remove p fh f [] u h = cc
  handles-remove p fh f ((k, g) ∷ files) (new, u) h = elim (Bool-cases (k == fh)) [
    | inl e ↦ ground (arith, handles_absent p k files new)
    | inr e ↦ ground (arith, handles-remove p fh f files u)
  ]

  handles_other :
      (p : Ptr) (files : Map ℕ (OpenFile F)) → All (λ e. e.1.copy ≢ p) files → handles p files ≡ 0
  unfolding handles
  handles_other p [] h = refl
  handles_other p ((k, f) ∷ files) (h, hs) = ground (arith, handles_other p files hs)

  pub handles_of_nobody :
      (p : Ptr) (files : Map ℕ (OpenFile F))
      → Unique files
      → ((fh : ℕ) (f : OpenFile F) → Map.get fh files ≡ some f → f.copy ≢ p)
      → handles p files ≡ 0
  handles_of_nobody p files u h = handles_other p files (
      All-zip (λ e. Map.get e.0 files ≡ some e.1) (λ e. Map.get e.0 files ≡ some e.1)
        (λ e. e.1.copy ≢ p) (λ e g _. h e.0 e.1 g) files (get-entries files u)
        (get-entries files u))

  pub handles_of_entry :
      (fh : ℕ) (f : OpenFile F) (files : Map ℕ (OpenFile F))
      → Map.get fh files ≡ some f
      → handles f.copy files ≢ 0
  unfolding handles Map.get
  handles_of_entry fh f [] h = cc
  handles_of_entry fh f ((k, g) ∷ files) h = ground (arith, handles_of_entry fh f files)

pub copy_at-insert :
    (p q : Ptr) (c : LocalCopy) (copies : Map Ptr LocalCopy)
    → copy_at q (Map.insert p c copies) ≡ (if p == q then c else copy_at q copies)
unfolding copy_at
copy_at-insert p q c copies = ground (arith, get-insert p q c copies)
