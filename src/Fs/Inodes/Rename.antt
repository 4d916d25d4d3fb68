-- ===== src/Fs/Inodes/Rename.antt =====
-- src/fs.rs: the whole loop of `rekey_paths`, over the paths that it collected at its start.
use mathlib.Core.Bool.{false≢true}
use adbfs_rust.Base.{
  Bool-cases, ℕ, Str, str_eq_iff, true, false, List, [], ◌∷◌, ◌++◌, some, ◌≡◌, ◌≢◌, sym, ap, ◌∙◌,
  arith, text_eq, nat_eq, Option-cases, inl, inr, ◌⊎◌, All, All-zip, strip_prefix,
  strip_prefix-append, strip_prefix_sound, append-cancel, append-ne_self, append_assoc,
}
use adbfs_rust.Base.Map
use adbfs_rust.Base.Map.{Map, Unique, get-entries}
use adbfs_rust.Paths.{is_under, slash}
use adbfs_rust.Fs.Inodes.{Inodes, moved_paths, move_path, move_paths, renamed, rekey}
use adbfs_rust.Fs.Inodes.Consistent.{
  IsConsistent, move_path-IsConsistent, get-path_to_ino, get-ino_to_path,
}

module _ (from to : Str) where
  -- A path under `from` is `from` and becomes `to`, or what follows the separator is kept.
  renamed-cases :
      (p : Str)
      → is_under p from ≡ true
      → ((p ≡ from) × (renamed from to p ≡ to))
        ⊎ ((r : Str) × (p ≡ from ++ slash ∷ [] ++ r) × (renamed from to p ≡ to ++ slash ∷ [] ++ r))
  unfolding renamed
  renamed-cases p h = elim (Option-cases (strip_prefix p (from ++ slash ∷ []))) [
    | inl other ↦ inl (ground (arith, str_eq_iff p from), ground arith)
    | inr (r, e) ↦ inr (r, strip_prefix_sound p (from ++ slash ∷ []) e, ground arith)
  ]

  pub renamed-is_under : (p : Str) → is_under p from ≡ true → is_under (renamed from to p) to ≡ true
  renamed-is_under p h = elim (renamed-cases p h) [
    | inl (e, e') ↦ rw e' (ground (arith, str_eq_iff to to))
    | inr (r, e, e') ↦ rw e' (ground (arith, strip_prefix-append (to ++ slash ∷ []) r))
  ]

  behind-ne : (r : Str) → to ++ slash ∷ [] ++ r ≢ to
  behind-ne r h = append-ne_self to slash r (sym (append_assoc to (slash ∷ []) r) ∙ h)

  renamed-injective :
      (p q : Str)
      → is_under p from ≡ true
      → is_under q from ≡ true
      → renamed from to p ≡ renamed from to q
      → p ≡ q
  renamed-injective p q hp hq e = elim (renamed-cases p hp) [
    | inl (ep, np) ↦ elim (renamed-cases q hq) [
      | inl (eq, nq) ↦ cc
      | inr (r, eq, nq) ↦ absurd (behind-ne r (sym nq ∙ sym e ∙ np))
    ]
    | inr (r, ep, np) ↦ elim (renamed-cases q hq) [
      | inl (eq, nq) ↦ absurd (behind-ne r (sym np ∙ e ∙ nq))
      | inr (r', eq, nq) ↦
          ep
          ∙ ap (λ t. from ++ slash ∷ [] ++ t) (append-cancel (to ++ slash ∷ []) (sym np ∙ e ∙ nq))
          ∙ sym eq
    ]
  ]

-- The paths that are still to be moved are mapped as they were collected, and lie under `from`.
module _ (from to : Str) (t : Inodes) where
  abbrev Waits : Str × ℕ → Type 0
  Waits e = (Map.get e.0 t.path_to_ino ≡ some e.1) × (is_under e.0 from ≡ true)

-- No path lies under both: neither path is the other or lies below it.
abbrev pub Apart : Str → Str → Type 0
Apart from to = (p : Str) → is_under p from ≡ true → is_under p to ≡ false

module _ (from to : Str) (apart : Apart from to) where
  -- A move leaves the other collected paths waiting.
  Waits-move_path :
      (old : Str) (ino : ℕ) (t : Inodes) (c : IsConsistent t)
      → Waits from to t (old, ino)
      → (ms : List (Str × ℕ)) → All (λ e. e.0 ≢ old) ms
      → All (Waits from to t) ms
      → All (Waits from to (move_path from to old ino t)) ms
  Waits-move_path old ino t c (here, under) =
      All-zip (λ e. e.0 ≢ old) (Waits from to t) (Waits from to (move_path from to old ino t))
        λ e ne (found, under'). (
          ground (
            arith,
            get-path_to_ino from to old ino t c here e.0,
            str_eq_iff (renamed from to old) e.0,
            str_eq_iff old e.0,
            apart e.0 under',
            renamed-is_under from to old under,
          ),
          under',
        )

  -- The loop keeps the maps inverse to one another.
  move_paths-IsConsistent :
      (ms : List (Str × ℕ)) (t : Inodes)
      → IsConsistent t
      → Unique ms
      → All (Waits from to t) ms
      → IsConsistent (move_paths from to ms t)
  unfolding move_paths
  move_paths-IsConsistent [] t c u w = c
  move_paths-IsConsistent ((old, ino) ∷ ms) t c (fresh, u) (w, ws) =
      move_paths-IsConsistent ms (move_path from to old ino t)
        (move_path-IsConsistent from to old ino t c w.0) u
        (Waits-move_path old ino t c w ms fresh ws)

  -- A path that neither lies under `from` nor is written over keeps its inode.
  keeps :
      (ms : List (Str × ℕ)) (t : Inodes) (i : ℕ) (p : Str)
      → IsConsistent t
      → Unique ms
      → All (Waits from to t) ms
      → is_under p from ≡ false
      → All (λ e. renamed from to e.0 ≢ p) ms
      → Map.get i t.ino_to_path ≡ some p
      → Map.get i (move_paths from to ms t).ino_to_path ≡ some p
  unfolding move_paths
  keeps [] t i p c u w out free h = h
  keeps ((old, ino) ∷ ms) t i p c (fresh, u) (w, ws) out (free, frees) h =
      keeps ms (move_path from to old ino t) i p (move_path-IsConsistent from to old ino t c w.0) u
        (Waits-move_path old ino t c w ms fresh ws) out frees
        (ground (
          arith,
          get-ino_to_path from to old ino t c w.0 i p h,
          str_eq_iff (renamed from to old) p,
          c.forward old ino w.0,
        ))

  target-out : (old : Str) → is_under old from ≡ true → is_under (renamed from to old) from ≡ false
  target-out old under = elim (Bool-cases (is_under (renamed from to old) from)) [
    | inl inside ↦
        absurd (
          false≢true
            (sym (apart (renamed from to old) inside) ∙ renamed-is_under from to old under))
    | inr outside ↦ outside
  ]

  -- Each collected inode stands for its renamed path.
  moves :
      (ms : List (Str × ℕ)) (t : Inodes)
      → IsConsistent t
      → Unique ms
      → All (Waits from to t) ms
      → All (λ e. Map.get e.1 (move_paths from to ms t).ino_to_path ≡ some (renamed from to e.0)) ms
  unfolding move_paths
  moves [] t c u w = tt
  moves ((old, ino) ∷ ms) t c (fresh, u) (w, ws) =
      let c' = move_path-IsConsistent from to old ino t c w.0 in
      let ws' = Waits-move_path old ino t c w ms fresh ws in
      let frees =
        All-zip (λ e. e.0 ≢ old) (Waits from to t) (λ e. renamed from to e.0 ≢ renamed from to old)
          (λ e ne v same. ne (renamed-injective from to e.0 old v.1 w.1 same)) ms fresh ws in
      (
        keeps ms (move_path from to old ino t) ino (renamed from to old) c' u ws'
            (target-out old w.1) frees
            (ground
              (arith, get-ino_to_path from to old ino t c w.0 ino old (c.forward old ino w.0))),
        moves ms (move_path from to old ino t) c' u ws',
      )

moved_paths-All :
    (P : Str × ℕ → Type 0) (from : Str) (m : Map Str ℕ) → All P m → All P (moved_paths from m)
unfolding moved_paths
moved_paths-All P from [] _ = tt
moved_paths-All P from ((p, i) ∷ m) (h, hs) = ground (arith, moved_paths-All P from m hs)

moved_paths-is_under :
    (from : Str) (m : Map Str ℕ) → All (λ e. is_under e.0 from ≡ true) (moved_paths from m)
unfolding moved_paths
moved_paths-is_under from [] = tt
moved_paths-is_under from ((p, i) ∷ m) = ground (arith, moved_paths-is_under from m)

moved_paths-Unique : (from : Str) (m : Map Str ℕ) → Unique m → Unique (moved_paths from m)
unfolding moved_paths
moved_paths-Unique from [] _ = tt
moved_paths-Unique from ((p, i) ∷ m) (fresh, u) =
    ground (arith, moved_paths-Unique from m u, moved_paths-All (λ e. e.0 ≢ p) from m fresh)

-- A path under `from` is among the collected ones: what holds of their inodes holds of its inode.
moved_paths-get :
    (f : Str → Str) (after : Map ℕ Str) (from : Str) (m : Map Str ℕ) (p : Str) (i : ℕ)
    → All (λ e. Map.get e.1 after ≡ some (f e.0)) (moved_paths from m)
    → Map.get p m ≡ some i
    → is_under p from ≡ true
    → Map.get i after ≡ some (f p)
unfolding moved_paths
moved_paths-get f after from [] p i all h under = cc (Map.get-nil p)
moved_paths-get f after from ((q, j) ∷ m) p i all h under =
    ground (arith, str_eq_iff q p, Map.get-cons p q j m, moved_paths-get f after from m p i)

module _ (from to : Str) (apart : Apart from to) (t : Inodes) (c : IsConsistent t) where
  waiting : All (Waits from to t) (moved_paths from t.path_to_ino)
  waiting =
      All-zip (λ e. Map.get e.0 t.path_to_ino ≡ some e.1) (λ e. is_under e.0 from ≡ true)
        (Waits from to t) (λ e found under. (found, under)) (moved_paths from t.path_to_ino)
        (moved_paths-All (λ e. Map.get e.0 t.path_to_ino ≡ some e.1) from t.path_to_ino
          (get-entries t.path_to_ino c.unique))
        (moved_paths-is_under from t.path_to_ino)

  distinct : Unique (moved_paths from t.path_to_ino)
  distinct = moved_paths-Unique from t.path_to_ino c.unique

  pub rekey-IsConsistent : IsConsistent (rekey from to t)
  unfolding rekey
  rekey-IsConsistent =
      move_paths-IsConsistent from to apart (moved_paths from t.path_to_ino) t c distinct waiting

  -- An inode of a path under `from` stands for the renamed path.
  pub get-rekey_moved :
      (i : ℕ) (p : Str)
      → Map.get i t.ino_to_path ≡ some p
      → is_under p from ≡ true
      → Map.get i (rekey from to t).ino_to_path ≡ some (renamed from to p)
  unfolding rekey
  get-rekey_moved i p h under =
      moved_paths-get (renamed from to) (rekey from to t).ino_to_path from t.path_to_ino p i
        (moves from to apart (moved_paths from t.path_to_ino) t c distinct waiting)
        (c.backward i p h) under

  -- An inode of a path that lies under neither keeps its path.
  pub get-rekey_other :
      (i : ℕ) (p : Str)
      → Map.get i t.ino_to_path ≡ some p
      → is_under p from ≡ false
      → is_under p to ≡ false
      → Map.get i (rekey from to t).ino_to_path ≡ some p
  unfolding rekey
  get-rekey_other i p h out out' =
      keeps from to apart (moved_paths from t.path_to_ino) t i p c distinct waiting out
        (All-zip (λ e. is_under e.0 from ≡ true) (λ e. is_under e.0 from ≡ true)
          (λ e. renamed from to e.0 ≢ p)
          (λ e under _ same. absurd (
            false≢true
              (sym out' ∙ ap (λ x. is_under x to) (sym same) ∙ renamed-is_under from to e.0 under)))
          (moved_paths from t.path_to_ino) (moved_paths-is_under from t.path_to_ino)
          (moved_paths-is_under from t.path_to_ino))
        h
