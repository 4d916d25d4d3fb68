-- ===== src/Fs/Inodes/Interleaved.antt =====
-- src/fs.rs: `get_or_assign_ino` on two threads at once. Its lookup and its three changes are each
-- atomic, and another thread may come between any two of them.
use adbfs_rust.Base.{
  str_eq_iff, subst, sym, ℕ, ◌+◌, ◌%◌, ◌^◌, ◌<◌, Str, none, some, ◌≡◌, ◌≢◌, arith, text_eq, nat_eq,
}
use adbfs_rust.Base.Map
use adbfs_rust.Base.Map.{get-insert, beq_refl}
use adbfs_rust.Fs.Inodes.{Inodes, assign}

-- `next_ino.fetch_add(1)`
abbrev pub take_number : Inodes → ℕ × Inodes
take_number t = (t.next_ino, record t { next_ino = (t.next_ino + 1) % 2 ^ 64 })

-- `path_to_ino.insert(path, ino)`
abbrev pub insert_path : Str → ℕ → Inodes → Inodes
insert_path path ino t = record t { path_to_ino = Map.insert path ino t.path_to_ino }

-- `ino_to_path.insert(ino, path)`
abbrev pub insert_ino : Str → ℕ → Inodes → Inodes
insert_ino path ino t = record t { ino_to_path = Map.insert ino path t.ino_to_path }

-- What a thread does once its lookup has found nothing.
unfoldable pub assign_missing : Str → Inodes → ℕ × Inodes
assign_missing path t =
    let (ino, numbered) = take_number t in
    (ino, insert_ino path ino (insert_path path ino numbered))

-- Alone, that is what `get_or_assign_ino` does for a path without an inode.
pub assign-assign_missing :
    (path : Str) (t : Inodes)
    → Map.get path t.path_to_ino ≡ none
    → assign path t ≡ assign_missing path t
unfolding assign_missing assign
assign-assign_missing path t missing = ground arith

-- Two threads ask for the inode of one path that has none, and each looks it up before the other has
-- assigned one. Then they are given different inodes: both lead to the path, and the path leads to
-- the second alone, so that the calls on the two replies work on different local copies.
pub assigned_twice :
    (path : Str) (t : Inodes)
    → Map.get path t.path_to_ino ≡ none
    → t.next_ino < 2 ^ 64
    → ((assign path t).0 ≢ (assign_missing path (assign path t).1).0)
      × (Map.get (assign path t).0 (assign_missing path (assign path t).1).1.ino_to_path
          ≡ some path)
      × (Map.get
            (assign_missing path (assign path t).1).0
            (assign_missing path (assign path t).1).1.ino_to_path
          ≡ some path)
      × (Map.get path (assign_missing path (assign path t).1).1.path_to_ino
          ≡ some (assign_missing path (assign path t).1).0)
unfolding assign_missing
assigned_twice path t missing few =
    subst
      (λ (x : ℕ × Inodes).
        (x.0 ≢ (assign_missing path x.1).0)
        × (Map.get x.0 (assign_missing path x.1).1.ino_to_path ≡ some path)
        × (Map.get (assign_missing path x.1).0 (assign_missing path x.1).1.ino_to_path ≡ some path)
        × (Map.get path (assign_missing path x.1).1.path_to_ino ≡ some (assign_missing path x.1).0))
      (sym (assign-assign_missing path t missing))
      (
        (λ e. omega arith),
        ground (
          arith,
          get-insert ((t.next_ino + 1) % 2 ^ 64) t.next_ino path
              (Map.insert t.next_ino path t.ino_to_path),
          get-insert t.next_ino t.next_ino path t.ino_to_path,
        ),
        ground (
          arith,
          get-insert ((t.next_ino + 1) % 2 ^ 64) ((t.next_ino + 1) % 2 ^ 64) path
              (Map.insert t.next_ino path t.ino_to_path),
        ),
        ground (
          arith,
          get-insert path path ((t.next_ino + 1) % 2 ^ 64)
              (Map.insert path t.next_ino t.path_to_ino),
          str_eq_iff path path,
        ),
      )
