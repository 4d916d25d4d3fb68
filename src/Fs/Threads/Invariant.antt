-- ===== src/Fs/Threads/Invariant.antt =====
-- The invariant of the protocol: counts, locks and the map agree.
use adbfs_rust.Base.{
  ℕ, ◌^◌, ◌<◌, ◌≤◌, true, false, if◌then◌else◌, none, some, ◌≡◌, ◌≢◌, refl, arith, ◌∙◌, ◌==◌,
}
use adbfs_rust.Base.Family.{update, weigh}
use adbfs_rust.Fs.State.{Ptr}
use adbfs_rust.Fs.Threads.Program.{
  Pc, idle, starting, waiting, filling, filled, held, closing, deleting, unmapping, locked, holds,
}
use adbfs_rust.Fs.Threads.Protocol.{Shared, Owners}

-- What a thread's place says of its copy: whose it is, that it exists, and whether it is evicted.
abbrev pub Knows : (Ptr → ℕ) → Shared → Pc → Type 0
Knows home m idle = Unit
Knows home m (starting ino _ _) = Unit
Knows home m (waiting ino _ _ p) = (home p ≡ ino) × (p < m.next)
Knows home m (filling ino _ _ p) = (home p ≡ ino) × (p < m.next) × (m.evicted p ≡ false)
Knows home m (filled ino p _) = (home p ≡ ino) × (p < m.next) × (m.evicted p ≡ false)
Knows home m (held ino p) = (home p ≡ ino) × (p < m.next)
Knows home m (closing ino p) = (home p ≡ ino) × (p < m.next)
Knows home m (deleting ino p) = (home p ≡ ino) × (p < m.next) × (m.evicted p ≡ true)
Knows home m (unmapping ino p) = (home p ≡ ino) × (p < m.next) × (m.evicted p ≡ true)

-- `n` threads; `home` is the inode that a copy was made for.
pub record Inv (n : ℕ) (m : Shared) (o : Owners) (pc : ℕ → Pc) : Type 0 where
  pub home : Ptr → ℕ
  pub few : n < 2 ^ 64
  pub mapped_home : (ino p : ℕ) → m.mapped ino ≡ some p → (home p ≡ ino) × (p < m.next)
  pub knows : (i : ℕ) → Knows home m (pc i)
  pub live : (p : Ptr) → p < m.next → m.evicted p ≡ false → m.mapped (home p) ≡ some p
  pub counted : (p : Ptr) → p < m.next → m.refs p ≡ weigh (holds p) pc n
  pub dead : (p : Ptr) → p < m.next → m.evicted p ≡ true → m.refs p ≡ 0
  pub unlocked : (p : Ptr) → m.next ≤ p → o p ≡ none
  pub locks : (i : ℕ) (p : Ptr) → locked (pc i) ≡ some p → o p ≡ some i
  pub owners : (i : ℕ) (p : Ptr) → o p ≡ some i → locked (pc i) ≡ some p
  pub doomed : (ino p : ℕ) → m.mapped ino ≡ some p → m.evicted p ≡ true → o p ≢ none

-- The knowledge of a place outlives a change that leaves the marks of locked copies alone.
pub Knows-change :
    (home home' : Ptr → ℕ) (m m' : Shared) (x : Pc)
    → m.next ≤ m'.next
    → ((q : Ptr) → q < m.next → home' q ≡ home q)
    → ((q : Ptr) → q < m.next → locked x ≡ some q → m'.evicted q ≡ m.evicted q)
    → Knows home m x
    → Knows home' m' x
Knows-change home home' m m' idle le h e k = tt
Knows-change home home' m m' (starting _ _ _) le h e k = tt
Knows-change home home' m m' (waiting _ _ _ p) le h e (k, lt) = (h p lt ∙ k, omega arith)
Knows-change home home' m m' (filling _ _ _ p) le h e (k, lt, b) =
    (h p lt ∙ k, omega arith, e p lt refl ∙ b)
Knows-change home home' m m' (filled _ p _) le h e (k, lt, b) =
    (h p lt ∙ k, omega arith, e p lt refl ∙ b)
Knows-change home home' m m' (held _ p) le h e (k, lt) = (h p lt ∙ k, omega arith)
Knows-change home home' m m' (closing _ p) le h e (k, lt) = (h p lt ∙ k, omega arith)
Knows-change home home' m m' (deleting _ p) le h e (k, lt, b) =
    (h p lt ∙ k, omega arith, e p lt refl ∙ b)
Knows-change home home' m m' (unmapping _ p) le h e (k, lt, b) =
    (h p lt ∙ k, omega arith, e p lt refl ∙ b)

-- A family changed at one index has a property where the new member and the others have it.
pub All-update :
    {A : Type 0} (P : A → Type 0) (f : ℕ → A) (i : ℕ) (a : A)
    → P a
    → (j : ℕ) → ((i == j) ≡ false → P (f j))
    → P (update f i a j)
All-update P f i a here j other =
    elim (i == j) as (λ b. ((b ≡ false) → P (f j)) → P (if b then a else f j)) [
      | true ↦ λ h. here
      | false ↦ λ h. h refl
    ]
      other
