-- ===== src/MountOpts.antt =====
-- src/mount_opts.rs: the `-o` options that the file system handles itself.
pub mod Split
pub mod Debug
use adbfs_rust.Base.{
  ℕ, ◌-◌, ◌^◌, Str, codes, str_eq, if◌then◌else◌, Bool, true, false, List, [], ◌∷◌, ◌++◌, Option,
  none, some, Result, ok, err, ◌>>=◌, find, drop, parse_unsigned, bit_and, bit_or, bit_xor,
}
use adbfs_rust.Parse.Mode.{s_ifmt}

-- Durations are nanoseconds.
pub record FsOptions : Type 0 where
  pub entry_timeout : ℕ
  pub attr_timeout : ℕ
  pub negative_timeout : ℕ
  pub uid : Option ℕ
  pub gid : Option ℕ
  pub umask : Option ℕ
  pub direct_io : Bool
  pub kernel_cache : Bool
  pub debug : Bool

abbrev pub default : FsOptions
default = record {
  entry_timeout = 1_000_000_000;
  attr_timeout = 1_000_000_000;
  negative_timeout = 0;
  uid = none;
  gid = none;
  umask = none;
  direct_io = false;
  kernel_cache = false;
  debug = false;
}

pub record OptionError : Type 0 where
  pub key : Str
  pub value : Str

abbrev pub invalid : Str → Str → OptionError
invalid key value = record { key = key; value = value }

-- `opt.split_once('=')`
abbrev pub split_once : Str → Str × Option Str
split_once opt = elim (find opt (codes "=")) [
  | none ↦ (opt, none)
  | some (k, from_eq) ↦ (k, some (drop 1 from_eq))
]

or_invalid : {A : Type 0} → Str → Str → Option A → Result OptionError A
or_invalid key value none = err (invalid key value)
or_invalid key value (some a) = ok a

unfoldable pub number : Str → Str → ℕ → Result OptionError ℕ
unfolding or_invalid
number key value radix = or_invalid key value (parse_unsigned 32 radix value)

-- There are no floats here: `parse_secs` is `value.parse::<f64>()` followed by
-- `Duration::try_from_secs_f64`, in nanoseconds, and `none` where either fails.
module _ (parse_secs : Str → Option ℕ) where
  unfoldable pub seconds : Str → Str → Result OptionError ℕ
  unfolding or_invalid
  seconds key value = or_invalid key value (parse_secs value)

  abbrev pub applied :
      {A : Type 0} → Result OptionError A → (A → FsOptions) → Result OptionError (Bool × FsOptions)
  applied r set = do a ← r; ok (true, set a)

  -- An option with a value.
  consume_value : Str → Str → FsOptions → Result OptionError (Bool × FsOptions)
  unfolding seconds number
  consume_value key v fs =
      if str_eq key (codes "entry_timeout")
      then applied (seconds key v) (λ d. record fs { entry_timeout = d })
      else if str_eq key (codes "attr_timeout")
      then applied (seconds key v) (λ d. record fs { attr_timeout = d })
      else if str_eq key (codes "negative_timeout")
      then applied (seconds key v) (λ d. record fs { negative_timeout = d })
      else if str_eq key (codes "uid")
      then applied (number key v 10) (λ n. record fs { uid = some n })
      else if str_eq key (codes "gid")
      then applied (number key v 10) (λ n. record fs { gid = some n })
      else if str_eq key (codes "umask")
      then applied (number key v 8) (λ n. record fs { umask = some n })
      else ok (false, fs)

  -- An option without a value.
  consume_flag : Str → FsOptions → Bool × FsOptions
  consume_flag key fs =
      if str_eq key (codes "direct_io")
      then (true, record fs { direct_io = true })
      else if str_eq key (codes "kernel_cache")
      then (true, record fs { kernel_cache = true })
      else if str_eq key (codes "debug")
      then (true, record fs { debug = true })
      else (false, fs)

  -- Whether the option was recognised, and the options with it applied.
  unfoldable pub consume : Str → FsOptions → Result OptionError (Bool × FsOptions)
  unfolding consume_value consume_flag
  consume opt fs = elim (split_once opt).1 [
    | none ↦ ok (consume_flag (split_once opt).0 fs)
    | some v ↦ consume_value (split_once opt).0 v fs
  ]

  split_loop : List Str → FsOptions → List Str → Result OptionError (FsOptions × List Str)
  unfolding consume
  split_loop [] fs mount = ok (fs, mount)
  split_loop (opt ∷ options) fs mount = do
    applied ← consume opt fs
    split_loop options applied.1 (if applied.0 then mount else mount ++ opt ∷ [])

  unfoldable pub split : List Str → Result OptionError (FsOptions × List Str)
  unfolding split_loop
  split options = split_loop options default []

-- `!mask` of a `u32`.
abbrev pub complement : ℕ → ℕ
complement mask = bit_xor mask (2 ^ 32 - 1)

-- The mode, and the new user and group.
unfoldable pub apply_ownership : FsOptions → ℕ → ℕ → ℕ → ℕ × ℕ × ℕ
apply_ownership fs mode uid gid = (
  elim fs.umask [
    | some mask ↦ bit_or (bit_and mode s_ifmt) (bit_and 0o777 (complement mask))
    | none ↦ mode
  ],
  elim fs.uid [ some u ↦ u | none ↦ uid ],
  elim fs.gid [ some g ↦ g | none ↦ gid ],
)
