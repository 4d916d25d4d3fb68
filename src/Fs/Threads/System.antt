-- ===== src/Fs/Threads/System.antt =====
-- src/fs.rs: `n` threads that take and give back local copies, interleaved in any order.
use adbfs_rust.Base.{ℕ, ◌^◌, ◌<◌, false, none, some, ◌≡◌, refl, arith}
use adbfs_rust.Base.Family.{update}
use adbfs_rust.Fs.Threads.Program.{Pc, idle}
use adbfs_rust.Fs.Threads.Protocol.{
  Shared, Owners, Move, request, join, add, again, lock, fill, take, fail, evict, close, give_back,
  give_last, delete, unmap, keep,
}
use adbfs_rust.Fs.Threads.Invariant.{Inv}
use adbfs_rust.Fs.Threads.Settled.{Settled, Move-Settled}
use adbfs_rust.Fs.Threads.Moves.{going_on, locking, known, adding, taking, failing}
use adbfs_rust.Fs.Threads.Evictions.{
  evicting, giving_back, giving_last, unmapping_hit, unmapping_miss,
}

pub record System : Type 0 where
  pub shared : Shared
  pub owner : Owners
  pub place : ℕ → Pc

pub data Step (n : ℕ) (s : System) : System → Type 0 where
  advance :
      (i : ℕ) {m : Shared} {o : Owners} {x : Pc}
      → i < n
      → Move i s.shared s.owner (s.place i) m o x
      → Step n s (record { shared = m; owner = o; place = update s.place i x })

-- No copy has been made, and no thread has a reference.
abbrev pub init : System
init = record {
  shared = record { refs = λ _. 0; evicted = λ _. false; mapped = λ _. none; next = 0 };
  owner = λ _. none;
  place = λ _. idle;
}

pub data Reach (n : ℕ) : System → Type 0 where
  start : Reach n init
  later : {s t : System} → Reach n s → Step n s t → Reach n t

init-Inv : (n : ℕ) → n < 2 ^ 64 → Inv n init.shared init.owner init.place
init-Inv n few = record {
  home = λ _. 0;
  few = few;
  mapped_home = λ ino p e. cc;
  knows = λ i. tt;
  live = λ p fresh. absurd (omega arith);
  counted = λ p fresh. omega arith;
  dead = λ p fresh. omega arith;
  unlocked = λ p above. refl;
  locks = λ i p e. ground arith;
  owners = λ i p e. ground arith;
  doomed = λ ino p e d. ground arith;
}

Move-Inv :
    (n i : ℕ) (m m' : Shared) (o o' : Owners) (pc : ℕ → Pc) (y x : Pc)
    → i < n
    → pc i ≡ y
    → Move i m o y m' o' x
    → Inv n m o pc
    → Inv n m' o' (update pc i x)
Move-Inv n i m m' o o' pc y x lt here (request ino path c) inv =
    going_on n i m o pc lt inv x (ground arith) tt (λ q. ground arith)
Move-Inv n i m m' o o' pc y x lt here (join ino path c p e) inv =
    going_on n i m o pc lt inv x (ground arith) (inv.mapped_home ino p e) (λ q. ground arith)
Move-Inv n i m m' o o' pc y x lt here (add ino path c free) inv =
    adding n i m o pc lt inv ino path c here free
Move-Inv n i m m' o o' pc y x lt here (again ino path c p free gone) inv =
    going_on n i m o pc lt inv x (ground arith) tt (λ q. ground arith)
Move-Inv n i m m' o o' pc y x lt here (lock ino path c p free fresh) inv =
    let (at_home, old) = known n i m o pc lt inv _ here in
    locking n i m o pc lt inv x p (ground arith) refl free (at_home, old, fresh) old
      (λ q. ground arith)
Move-Inv n i m m' o o' pc y x lt here (fill ino path c p r) inv =
    going_on n i m o pc lt inv x (ground arith) (known n i m o pc lt inv _ here) (λ q. ground arith)
Move-Inv n i m m' o o' pc y x lt here (take ino p) inv = taking n i m o pc lt inv ino p none here
Move-Inv n i m m' o o' pc y x lt here (fail ino p e used) inv =
    failing n i m o pc lt inv ino p (some e) here
Move-Inv n i m m' o o' pc y x lt here (evict ino p e unused) inv =
    evicting n i m o pc lt inv ino p (some e) here unused
Move-Inv n i m m' o o' pc y x lt here (close ino p) inv =
    going_on n i m o pc lt inv x (ground arith) (known n i m o pc lt inv _ here) (λ q. ground arith)
Move-Inv n i m m' o o' pc y x lt here (give_back ino p free more) inv =
    giving_back n i m o pc lt inv ino p here free more
Move-Inv n i m m' o o' pc y x lt here (give_last ino p free last) inv =
    giving_last n i m o pc lt inv ino p here free last
Move-Inv n i m m' o o' pc y x lt here (delete ino p) inv =
    going_on n i m o pc lt inv x (ground arith) (known n i m o pc lt inv _ here) (λ q. ground arith)
Move-Inv n i m m' o o' pc y x lt here (unmap ino p hit) inv =
    unmapping_hit n i m o pc lt inv ino p here hit
Move-Inv n i m m' o o' pc y x lt here (keep ino p miss) inv =
    unmapping_miss n i m o pc lt inv ino p here miss

pub Reach-Inv : {n : ℕ} {s : System} → n < 2 ^ 64 → Reach n s → Inv n s.shared s.owner s.place
Reach-Inv {n} few start = init-Inv n few
Reach-Inv {n} few (later {s = s} r (advance i lt mv)) =
    Move-Inv n i s.shared _ s.owner _ s.place (s.place i) _ lt refl mv (Reach-Inv few r)

init-Settled : (n : ℕ) → Settled n init.shared init.place
init-Settled n = record {
  beyond = λ i above. refl;
  leaves = λ i. tt;
  claimed = λ p fresh. absurd (omega arith);
}

pub Reach-Settled : {n : ℕ} {s : System} → n < 2 ^ 64 → Reach n s → Settled n s.shared s.place
Reach-Settled {n} few start = init-Settled n
Reach-Settled {n} few (later {s = s} r (advance i lt mv)) =
    let inv = Reach-Inv few r in
    Move-Settled n i s.shared s.owner s.place lt inv (Reach-Settled few r) _ _ (s.place i) _ refl mv
      (Move-Inv n i s.shared _ s.owner _ s.place (s.place i) _ lt refl mv inv)
