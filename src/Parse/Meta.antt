-- ===== src/Parse/Meta.antt =====
-- src/parse.rs: the metadata of one file, and results of code that may panic.
use adbfs_rust.Base.{ℕ, Str, Option, none, some, ℤ, Result, ok, err}

-- A point in time, in seconds and nanoseconds from the epoch.
pub record SystemTime : Type 0 where
  pub secs : ℤ
  pub nanos : ℕ

pub record FileMeta : Type 0 where
  pub mode : ℕ
  pub nlink : ℕ
  pub uid : ℕ
  pub gid : ℕ
  pub size : ℕ
  pub rdev : ℕ
  pub mtime : SystemTime
  pub raw_line : Str

-- An `Option` of code that may panic: `none` is `err tt`.
abbrev pub Partial : Type 0 → Type 0
Partial A = Result (Unit {0}) A

-- `o?`
abbrev pub try : {A : Type 0} → Option A → Partial A
try none = err tt
try (some a) = ok a
