-- ===== src/Fs/Inodes/Consistent.antt =====
-- src/fs.rs: when the two maps of inodes are consistent, and single changes of them.
use adbfs_rust.Base.{
  ℕ, ◌+◌, ◌^◌, ◌<◌, Str, str_eq, str_eq_iff, ◌==◌, if◌then◌else◌, Option, none, some, ◌≡◌, ◌≢◌,
  refl, arith, text_eq, nat_eq, Option-cases, inl, inr, ◌⊎◌,
}
use adbfs_rust.Base.Map
use adbfs_rust.Base.Map.{Map, Unique, get-insert, get-remove, get-nil, Unique-insert, Unique-remove}
use adbfs_rust.Fs.Inodes.{Inodes, assign, assign_found, move_path, renamed, drop_replaced}

pub record IsConsistent (t : Inodes) : Type 0 where
  pub unique : Unique t.path_to_ino
  pub forward :
      (p : Str) (i : ℕ) → Map.get p t.path_to_ino ≡ some i → Map.get i t.ino_to_path ≡ some p
  pub backward :
      (i : ℕ) (p : Str) → Map.get i t.ino_to_path ≡ some p → Map.get p t.path_to_ino ≡ some i
  pub issued : (i : ℕ) (p : Str) → Map.get i t.ino_to_path ≡ some p → i < t.next_ino

assign_found-IsConsistent :
    (path : Str) (t : Inodes) (found : Option ℕ)
    → IsConsistent t
    → t.next_ino + 1 < 2 ^ 64
    → Map.get path t.path_to_ino ≡ found
    → IsConsistent (assign_found path t found).1
unfolding assign_found
assign_found-IsConsistent path t (some ino) c room e = c
assign_found-IsConsistent path t none c room e = record {
  unique = Unique-insert path t.next_ino t.path_to_ino c.unique;
  forward = λ p i h. ground (
    arith,
    get-insert path p t.next_ino t.path_to_ino,
    get-insert t.next_ino i path t.ino_to_path,
    str_eq_iff path p,
    c.forward p i,
    c.issued i p,
  );
  backward = λ i p h. ground (
    arith,
    get-insert path p t.next_ino t.path_to_ino,
    get-insert t.next_ino i path t.ino_to_path,
    str_eq_iff path p,
    c.backward i p,
  );
  issued = λ i p h. ground (arith, get-insert t.next_ino i path t.ino_to_path, c.issued i p);
}

-- Handing out an inode keeps the two maps inverse to one another, as long as the counter has room.
pub assign-IsConsistent :
    (path : Str) (t : Inodes)
    → IsConsistent t
    → t.next_ino + 1 < 2 ^ 64
    → IsConsistent (assign path t).1
unfolding assign assign_found
assign-IsConsistent path t c room =
    assign_found-IsConsistent path t (Map.get path t.path_to_ino) c room refl

-- The inode that is handed out stands for the path.
pub get-assign :
    (path : Str) (t : Inodes)
    → IsConsistent t
    → Map.get (assign path t).0 (assign path t).1.ino_to_path ≡ some path
unfolding assign assign_found
get-assign path t c = get-assign_found path t (Map.get path t.path_to_ino) c refl
  where
    get-assign_found :
        (path : Str) (t : Inodes) (found : Option ℕ)
        → IsConsistent t
        → Map.get path t.path_to_ino ≡ found
        → Map.get (assign_found path t found).0 (assign_found path t found).1.ino_to_path
          ≡ some path
    get-assign_found path t (some ino) c e = c.forward path ino e
    get-assign_found path t none c e =
        ground (arith, get-insert t.next_ino t.next_ino path t.ino_to_path)

-- An inode that stood for a path still does after another one was handed out.
pub get-assign_other :
    (path : Str) (t : Inodes) (i : ℕ) (p : Str)
    → IsConsistent t
    → Map.get i t.ino_to_path ≡ some p
    → Map.get i (assign path t).1.ino_to_path ≡ some p
unfolding assign assign_found
get-assign_other path t i p c h = get-assign_found path t i p (Map.get path t.path_to_ino) c h
  where
    get-assign_found :
        (path : Str) (t : Inodes) (i : ℕ) (p : Str) (found : Option ℕ)
        → IsConsistent t
        → Map.get i t.ino_to_path ≡ some p
        → Map.get i (assign_found path t found).1.ino_to_path ≡ some p
    get-assign_found path t i p (some ino) c h = h
    get-assign_found path t i p none c h =
        ground (arith, get-insert t.next_ino i path t.ino_to_path, c.issued i p h)

-- What is left of the second map once a replaced inode is removed.
abbrev unless_replaced : Option ℕ → ℕ → Map ℕ Str → Option Str
unless_replaced none i m = Map.get i m
unless_replaced (some r) i m = if r == i then none else Map.get i m

get-drop_replaced :
    (found : Option ℕ) (i : ℕ) (m : Map ℕ Str)
    → Map.get i (drop_replaced found m) ≡ unless_replaced found i m
unfolding drop_replaced
get-drop_replaced none i m = refl
get-drop_replaced (some r) i m = get-remove r i m

-- Moving one path keeps the maps inverse to one another, whether the new path was taken or not.
module _ (from to old : Str) (ino : ℕ) (t : Inodes) (c : IsConsistent t)
    (here : Map.get old t.path_to_ino ≡ some ino) where
  abbrev pub target : Str
  target = renamed from to old

  abbrev pub after : Inodes
  after = move_path from to old ino t

  abbrev pub remaining : Map Str ℕ
  remaining = Map.remove old t.path_to_ino

  -- What the new maps hold.
  pub get-path_to_ino :
      (p : Str)
      → Map.get p after.path_to_ino ≡ (
          if str_eq target p
          then some ino
          else if str_eq old p
          then none
          else Map.get p t.path_to_ino)
  unfolding move_path
  get-path_to_ino p = ground (
    arith,
    get-insert target p ino (Map.remove target remaining),
    get-remove target p remaining,
    get-remove old p t.path_to_ino,
  )

  get_raw :
      (i : ℕ)
      → Map.get i after.ino_to_path ≡ (
          if i == ino
          then some target
          else unless_replaced (Map.get target remaining) i t.ino_to_path)
  unfolding move_path
  get_raw i = ground (
    arith,
    get-insert ino i target (drop_replaced (Map.get target remaining) t.ino_to_path),
    get-drop_replaced (Map.get target remaining) i t.ino_to_path,
  )

  -- The inode of the path that is written over is forgotten.
  pub get-ino_to_path :
      (i : ℕ) (p : Str)
      → Map.get i t.ino_to_path ≡ some p
      → Map.get i after.ino_to_path
        ≡ (if i == ino then some target else if str_eq target p then none else some p)
  get-ino_to_path i p h = elim (Option-cases (Map.get target remaining)) [
    | inl free ↦
        rw (get_raw i, free)
          (ground (
            arith,
            c.backward i p h,
            get-remove old target t.path_to_ino,
            str_eq_iff target p,
            str_eq_iff old target,
          ))
    | inr (r, taken) ↦
        rw (get_raw i, taken)
          (ground (
            arith,
            c.backward i p h,
            c.forward target r,
            get-remove old target t.path_to_ino,
            str_eq_iff target p,
            str_eq_iff old target,
          ))
  ]

  forward_after :
      (p : Str) (i : ℕ)
      → Map.get p after.path_to_ino ≡ some i
      → Map.get i after.ino_to_path ≡ some p
  forward_after p i h = ground (
    arith,
    get-path_to_ino p,
    str_eq_iff target p,
    str_eq_iff old p,
    c.forward p i,
    c.forward old ino here,
    get-ino_to_path i p,
    get_raw i,
  )

  -- An inode that stands for a path afterwards is the moved one, or stood for the same path before,
  -- and that path is neither the old nor the new one.
  origin :
      (i : ℕ) (p : Str)
      → Map.get i after.ino_to_path ≡ some p
      → ((i ≡ ino) × (p ≡ target)) ⊎ ((i ≢ ino) × (Map.get i t.ino_to_path ≡ some p) × (p ≢ target))
  origin i p h = elim (Option-cases (Map.get i t.ino_to_path)) [
    | inl no_path ↦ elim (Option-cases (Map.get target remaining)) [
      | inl free ↦ ground (arith, get_raw i)
      | inr (r, taken) ↦ ground (arith, get_raw i)
    ]
    | inr (q, stood) ↦ ground (arith, get-ino_to_path i q stood, str_eq_iff target q)
  ]

  backward_after :
      (i : ℕ) (p : Str)
      → Map.get i after.ino_to_path ≡ some p
      → Map.get p after.path_to_ino ≡ some i
  backward_after i p h = ground (
    arith,
    origin i p h,
    get-path_to_ino p,
    str_eq_iff target p,
    str_eq_iff old p,
    c.backward i p,
  )

  issued_after : (i : ℕ) (p : Str) → Map.get i after.ino_to_path ≡ some p → i < after.next_ino
  unfolding move_path
  issued_after i p h =
      ground (arith, origin i p h, c.issued i p, c.issued ino old, c.forward old ino here)

  pub move_path-IsConsistent : IsConsistent after
  unfolding move_path
  move_path-IsConsistent = record {
    unique =
        Unique-insert target ino (Map.remove target remaining)
          (Unique-remove target remaining (Unique-remove old t.path_to_ino c.unique));
    forward = forward_after;
    backward = backward_after;
    issued = issued_after;
  }
