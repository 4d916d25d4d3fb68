-- ===== src/Fs/Threads/Settled.antt =====
-- A second invariant of the protocol: copies in the map are wanted, and stay there until they are
-- taken out by the thread that evicted them.
use adbfs_rust.Base.{
  ℕ, ◌≤◌, ◌<◌, false, some, ◌≡◌, ◌≢◌, ◌⊎◌, ◌∙◌, refl, arith, ◌==◌, subst, Bool-cases, inl, inr,
}
use adbfs_rust.Base.Family.{update, weigh, weigh-update, weight-le-weigh, weigh_mono}
use adbfs_rust.Fs.State.{Ptr}
use adbfs_rust.Fs.Threads.Program.{
  Pc, idle, starting, waiting, filling, filled, held, closing, deleting, unmapping, locked, holds,
  wants,
}
use adbfs_rust.Fs.Threads.Protocol.{
  Shared, Owners, Move, request, join, add, again, lock, fill, take, fail, evict, close, give_back,
  give_last, delete, unmap, keep,
}
use adbfs_rust.Fs.Threads.Invariant.{Inv, Knows, All-update}

-- A copy that a thread is about to take out of the map is in it.
abbrev pub Leaves : Shared → Pc → Type 0
Leaves m (deleting ino p) = m.mapped ino ≡ some p
Leaves m (unmapping ino p) = m.mapped ino ≡ some p
Leaves m _ = Unit

pub record Settled (n : ℕ) (m : Shared) (pc : ℕ → Pc) : Type 0 where
  pub beyond : (i : ℕ) → n ≤ i → pc i ≡ idle
  pub leaves : (i : ℕ) → Leaves m (pc i)
  pub claimed : (p : Ptr) → p < m.next → m.evicted p ≡ false → 1 ≤ weigh (wants p) pc n

holds-le-wants : (q : Ptr) (x : Pc) → holds q x ≤ wants q x
holds-le-wants q (waiting _ _ _ _) = omega arith
holds-le-wants q (filling _ _ _ _) = omega arith
holds-le-wants q (filled _ _ _) = omega arith
holds-le-wants q _ = omega arith

-- The map keeps the copies that other threads are about to take out.
Leaves-change :
    (m m' : Shared) (x : Pc)
    → ((ino p : ℕ) → locked x ≡ some p → m.mapped ino ≡ some p → m'.mapped ino ≡ some p)
    → Leaves m x
    → Leaves m' x
Leaves-change m m' (deleting ino p) h e = h ino p refl e
Leaves-change m m' (unmapping ino p) h e = h ino p refl e
Leaves-change m m' idle h e = tt
Leaves-change m m' (starting _ _ _) h e = tt
Leaves-change m m' (waiting _ _ _ _) h e = tt
Leaves-change m m' (filling _ _ _ _) h e = tt
Leaves-change m m' (filled _ _ _) h e = tt
Leaves-change m m' (held _ _) h e = tt
Leaves-change m m' (closing _ _) h e = tt

module _ (n i : ℕ) (m m' : Shared) (o o' : Owners) (pc : ℕ → Pc) (x : Pc) (lt : i < n)
    (inv : Inv n m o pc) (inv' : Inv n m' o' (update pc i x)) (set : Settled n m pc) where
  -- A step that leaves the map alone.
  in_place :
      m'.next ≡ m.next
      → ((ino : ℕ) → m'.mapped ino ≡ m.mapped ino)
      → Leaves m x
      → ((q : Ptr)
          → q < m.next
          → m'.evicted q ≡ false
          → (m.evicted q ≡ false) × ((wants q (pc i) ≤ wants q x) ⊎ (m'.refs q ≢ 0)))
      → Settled n m' (update pc i x)
  in_place same fixed here kept = record {
    beyond = λ j above. ground (arith, set.beyond j above);
    leaves = λ j.
        All-update (Leaves m') pc i x (Leaves-change m m' x (λ ino p e h. fixed ino ∙ h) here) j
          (λ _. Leaves-change m m' (pc j) (λ ino p e h. fixed ino ∙ h) (set.leaves j));
    claimed = λ q f e.
        let (fresh, how) = kept q (omega arith) e in
        elim how [
          | inl more ↦
              omega (arith, set.claimed q (omega arith) fresh, weigh-update (wants q) pc n i x lt)
          | inr used ↦ omega (
            arith,
            inv'.counted q f,
            weigh_mono (holds q) (wants q) (update pc i x) (holds-le-wants q) n,
          )
        ];
  }

module _ (n i : ℕ) (m : Shared) (o : Owners) (pc : ℕ → Pc) (lt : i < n) (inv : Inv n m o pc)
    (set : Settled n m pc) where
  -- A copy that the thread has a reference on is not evicted.
  counted_fresh : (p : Ptr) → p < m.next → holds p (pc i) ≡ 1 → m.evicted p ≡ false
  counted_fresh p old one = elim (Bool-cases (m.evicted p)) [
    | inl gone ↦
        absurd (
          omega
            (arith, inv.dead p old gone, inv.counted p old, weight-le-weigh (holds p) pc n i lt))
    | inr fresh ↦ fresh
  ]

  -- Every step of a thread keeps the second invariant.
  pub Move-Settled :
      (m' : Shared) (o' : Owners) (y x : Pc)
      → pc i ≡ y
      → Move i m o y m' o' x
      → Inv n m' o' (update pc i x)
      → Settled n m' (update pc i x)
  Move-Settled m' o' y x here (request ino path c) inv' =
      in_place n i m m' o o' pc x lt inv inv' set refl (λ _. refl) tt
        (λ q f e. (e, inl (ground arith)))
  Move-Settled m' o' y x here (join ino path c p e) inv' =
      in_place n i m m' o o' pc x lt inv inv' set refl (λ _. refl) tt
        (λ q f e. (e, inl (ground arith)))
  Move-Settled m' o' y x here (add ino path c free) inv' = record {
    beyond = λ j above. ground (arith, set.beyond j above);
    leaves = λ j.
        All-update (Leaves m') pc i x tt j
          (λ _. Leaves-change m m' (pc j) (λ ino' p e h. ground arith) (set.leaves j));
    claimed = λ q f e. elim (Bool-cases (m.next == q)) [
      | inl new ↦ ground (arith, weight-le-weigh (wants q) (update pc i x) n i lt)
      | inr old ↦ ground (arith, set.claimed q, weigh-update (wants q) pc n i x lt)
    ];
  }
  Move-Settled m' o' y x here (again ino path c p free gone) inv' =
      in_place n i m m' o o' pc x lt inv inv' set refl (λ _. refl) tt
        (λ q f e. (e, inl (ground arith)))
  Move-Settled m' o' y x here (lock ino path c p free fresh) inv' =
      in_place n i m m' o o' pc x lt inv inv' set refl (λ _. refl) tt
        (λ q f e. (e, inl (ground arith)))
  Move-Settled m' o' y x here (fill ino path c p r) inv' =
      in_place n i m m' o o' pc x lt inv inv' set refl (λ _. refl) tt
        (λ q f e. (e, inl (ground arith)))
  Move-Settled m' o' y x here (take ino p) inv' =
      in_place n i m m' o o' pc x lt inv inv' set refl (λ _. refl) tt
        (λ q f e. (e, inl (ground arith)))
  Move-Settled m' o' y x here (fail ino p b used) inv' =
      in_place n i m m' o o' pc x lt inv inv' set refl (λ _. refl) tt
        (λ q f e. (
          e,
          elim (Bool-cases (p == q)) [
            | inl same ↦ inr (ground arith)
            | inr other ↦ inl (ground arith)
          ],
        ))
  Move-Settled m' o' y x here (evict ino p b unused) inv' =
      let (at_home, old, fresh) = subst (Knows inv.home m) here (inv.knows i) in
      in_place n i m m' o o' pc x lt inv inv' set refl (λ _. refl)
        (ground (arith, inv.live p old fresh)) (λ q f e. (ground arith, inl (ground arith)))
  Move-Settled m' o' y x here (close ino p) inv' =
      in_place n i m m' o o' pc x lt inv inv' set refl (λ _. refl) tt
        (λ q f e. (e, inl (ground arith)))
  Move-Settled m' o' y x here (give_back ino p free more) inv' =
      in_place n i m m' o o' pc x lt inv inv' set refl (λ _. refl) tt
        (λ q f e. (
          e,
          elim (Bool-cases (p == q)) [
            | inl same ↦ inr (ground arith)
            | inr other ↦ inl (ground arith)
          ],
        ))
  Move-Settled m' o' y x here (give_last ino p free last) inv' =
      let (at_home, old) = subst (Knows inv.home m) here (inv.knows i) in
      let fresh : m.evicted p ≡ false = counted_fresh p old (ground arith) in
      in_place n i m m' o o' pc x lt inv inv' set refl (λ _. refl)
        (ground (arith, inv.live p old fresh)) (λ q f e. (ground arith, inl (ground arith)))
  Move-Settled m' o' y x here (delete ino p) inv' =
      in_place n i m m' o o' pc x lt inv inv' set refl (λ _. refl)
        (subst (Leaves m) here (set.leaves i)) (λ q f e. (e, inl (ground arith)))
  Move-Settled m' o' y x here (unmap ino p hit) inv' = record {
    beyond = λ j above. ground (arith, set.beyond j above);
    leaves = λ j. All-update (Leaves m') pc i x tt j (λ ne.
        Leaves-change m m' (pc j) (λ ino' q e h. ground (arith, inv.locks i p, inv.locks j q))
          (set.leaves j));
    claimed = λ q f e. ground (arith, set.claimed q f e, weigh-update (wants q) pc n i x lt);
  }
  Move-Settled m' o' y x here (keep ino p miss) inv' =
      in_place n i m m' o o' pc x lt inv inv' set refl (λ _. refl) tt
        (λ q f e. (e, inl (ground arith)))
