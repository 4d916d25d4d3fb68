-- ===== src/Fs/Threads/Protocol.antt =====
-- What the threads do to the counts, the marks of eviction and the map of copies, without the files
-- and the device: an abstract view of `acquire_copy` and `release_copy`.
use adbfs_rust.Base.{ℕ, ◌+◌, ◌-◌, ◌%◌, ◌^◌, Str, Bool, true, false, Option, none, some, ◌≡◌, ◌≢◌}
use adbfs_rust.Base.Family.{update}
use adbfs_rust.Fs.State.{Ptr}
use adbfs_rust.Fs.Copies.{CopyInit}
use adbfs_rust.Fs.Threads.Program.{
  Pc, idle, starting, waiting, filling, filled, held, closing, deleting, unmapping,
}

pub record Shared : Type 0 where
  pub refs : Ptr → ℕ
  pub evicted : Ptr → Bool
  pub mapped : ℕ → Option Ptr
  pub next : Ptr

-- The owners of the locks.
abbrev pub Owners : Type 0
Owners = Ptr → Option ℕ

abbrev pub with_copy : Shared → ℕ → Shared
with_copy m ino = record {
  refs = update m.refs m.next 0;
  evicted = update m.evicted m.next false;
  mapped = update m.mapped ino (some m.next);
  next = m.next + 1;
}

abbrev pub left : Shared → Ptr → ℕ
left m p = (m.refs p + (2 ^ 64 - 1)) % 2 ^ 64

-- A step of thread `i`.
pub data Move (i : ℕ) (m : Shared) (o : Owners) : Pc → Shared → Owners → Pc → Type 0 where
  request : (ino : ℕ) (path : Str) (init : CopyInit) → Move i m o idle m o (starting ino path init)
  join :
      (ino : ℕ) (path : Str) (init : CopyInit) (p : Ptr)
      → m.mapped ino ≡ some p
      → Move i m o (starting ino path init) m o (waiting ino path init p)
  add :
      (ino : ℕ) (path : Str) (init : CopyInit)
      → m.mapped ino ≡ none
      → Move i m o (starting ino path init) (with_copy m ino) o (waiting ino path init m.next)
  again :
      (ino : ℕ) (path : Str) (init : CopyInit) (p : Ptr)
      → o p ≡ none
      → m.evicted p ≡ true
      → Move i m o (waiting ino path init p) m o (starting ino path init)
  lock :
      (ino : ℕ) (path : Str) (init : CopyInit) (p : Ptr)
      → o p ≡ none
      → m.evicted p ≡ false
      → Move i m o (waiting ino path init p) m (update o p (some i)) (filling ino path init p)
  fill :
      (ino : ℕ) (path : Str) (init : CopyInit) (p : Ptr) (r : Option ℕ)
      → Move i m o (filling ino path init p) m o (filled ino p r)
  take :
      (ino : ℕ) (p : Ptr)
      → Move i m o
          (filled ino p none)
          (record m { refs = update m.refs p ((m.refs p + 1) % 2 ^ 64) })
          (update o p none)
          (held ino p)
  fail :
      (ino : ℕ) (p : Ptr) (e : ℕ)
      → m.refs p ≢ 0
      → Move i m o (filled ino p (some e)) m (update o p none) idle
  evict :
      (ino : ℕ) (p : Ptr) (e : ℕ)
      → m.refs p ≡ 0
      → Move i m o
          (filled ino p (some e))
          (record m { evicted = update m.evicted p true })
          o
          (unmapping ino p)
  close : (ino : ℕ) (p : Ptr) → Move i m o (held ino p) m o (closing ino p)
  give_back :
      (ino : ℕ) (p : Ptr)
      → o p ≡ none
      → left m p ≢ 0
      → Move i m o (closing ino p) (record m { refs = update m.refs p (left m p) }) o idle
  give_last :
      (ino : ℕ) (p : Ptr)
      → o p ≡ none
      → left m p ≡ 0
      → Move i m o
          (closing ino p)
          (record m { refs = update m.refs p 0; evicted = update m.evicted p true })
          (update o p (some i))
          (deleting ino p)
  delete : (ino : ℕ) (p : Ptr) → Move i m o (deleting ino p) m o (unmapping ino p)
  unmap :
      (ino : ℕ) (p : Ptr)
      → m.mapped ino ≡ some p
      → Move i m o
          (unmapping ino p)
          (record m { mapped = update m.mapped ino none })
          (update o p none)
          idle
  keep :
      (ino : ℕ) (p : Ptr)
      → m.mapped ino ≢ some p
      → Move i m o (unmapping ino p) m (update o p none) idle
