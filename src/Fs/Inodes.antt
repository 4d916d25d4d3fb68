-- ===== src/Fs/Inodes.antt =====
-- src/fs.rs: the mapping between inodes and device paths.
pub mod Consistent
pub mod Rename
pub mod Interleaved
pub mod Tree
use adbfs_rust.Base.{
  ℕ, ◌+◌, ◌%◌, ◌^◌, Str, codes, str_eq, if◌then◌else◌, Bool, true, false, ◌||◌, List, [], ◌∷◌, ◌++◌,
  Option, none, some, ok, err, starts_with, strip_prefix, text_eq, nat_eq,
}
use adbfs_rust.Base.Map
use adbfs_rust.Base.Map.{Map}
use adbfs_rust.Fs.State.{FsState, Fs}

-- `child_path`; a name is given as the text that `to_string_lossy` makes of it.
unfoldable pub child_path : Str → Str → Str
child_path parent name =
    if str_eq parent (codes "/") then codes "/" ++ name else parent ++ codes "/" ++ name

-- The two maps and the counter.
pub record Inodes : Type 0 where
  pub path_to_ino : Map Str ℕ
  pub ino_to_path : Map ℕ Str
  pub next_ino : ℕ

-- `get_or_assign_ino` on the maps, for what `path_to_ino` holds for the path.
assign_found : Str → Inodes → Option ℕ → ℕ × Inodes
assign_found path t (some ino) = (ino, t)
assign_found path t none = (
  t.next_ino,
  record {
    path_to_ino = Map.insert path t.next_ino t.path_to_ino;
    ino_to_path = Map.insert t.next_ino path t.ino_to_path;
    next_ino = (t.next_ino + 1) % 2 ^ 64;
  },
)

unfoldable pub assign : Str → Inodes → ℕ × Inodes
unfolding assign_found
assign path t = assign_found path t (Map.get path t.path_to_ino)

-- The pairs that `rekey_paths` collects, in the order of the map.
unfoldable pub moved_paths : Str → Map Str ℕ → List (Str × ℕ)
moved_paths from [] = []
moved_paths from ((path, ino) ∷ m) =
    let rest = moved_paths from m in
    if str_eq path from || starts_with path (from ++ codes "/") then (path, ino) ∷ rest else rest

-- `old.strip_prefix(&dir)` and the new path that it gives.
unfoldable pub renamed : Str → Str → Str → Str
renamed from to old = elim (strip_prefix old (from ++ codes "/")) [
  | some rest ↦ to ++ codes "/" ++ rest
  | none ↦ to
]

-- `if let Some((_, replaced)) = path_to_ino.remove(&new)`
drop_replaced : Option ℕ → Map ℕ Str → Map ℕ Str
drop_replaced none m = m
drop_replaced (some replaced) m = Map.remove replaced m

-- One round of the loop of `rekey_paths`.
unfoldable pub move_path : Str → Str → Str → ℕ → Inodes → Inodes
unfolding drop_replaced
move_path from to old ino t =
    let new = renamed from to old in
    let without_old = Map.remove old t.path_to_ino in
    record t {
      path_to_ino = Map.insert new ino (Map.remove new without_old);
      ino_to_path = Map.insert ino new (drop_replaced (Map.get new without_old) t.ino_to_path);
    }

unfoldable pub move_paths : Str → Str → List (Str × ℕ) → Inodes → Inodes
move_paths from to [] t = t
move_paths from to ((old, ino) ∷ moved) t = move_paths from to moved (move_path from to old ino t)

unfoldable pub rekey : Str → Str → Inodes → Inodes
unfolding moved_paths move_paths
rekey from to t = move_paths from to (moved_paths from t.path_to_ino) t

module _ {W F : Type 0} where
  abbrev pub inodes : FsState W F → Inodes
  inodes s = record {
    path_to_ino = s.path_to_ino;
    ino_to_path = s.ino_to_path;
    next_ino = s.next_ino;
  }

  abbrev pub with_inodes : Inodes → FsState W F → FsState W F
  with_inodes t s = record s {
    path_to_ino = t.path_to_ino;
    ino_to_path = t.ino_to_path;
    next_ino = t.next_ino;
  }

  unfoldable pub get_or_assign_ino : Str → Fs W F ℕ
  unfolding assign
  get_or_assign_ino path s = let (ino, t) = assign path (inodes s) in (ok ino, with_inodes t s)

  unfoldable pub get_path : ℕ → FsState W F → Option Str
  get_path ino s = Map.get ino s.ino_to_path

  unfoldable pub rekey_paths : Str → Str → Fs W F (Unit {0})
  unfolding rekey
  rekey_paths from to s = (ok tt, with_inodes (rekey from to (inodes s)) s)
