-- ===== src/MountOpts/Split.antt =====
-- src/mount_opts.rs: what `FsOptions::split` hands on to fuse.
use adbfs_rust.Base.{
  ℕ, Str, codes, str_eq, if◌then◌else◌, Bool, true, false, ◌||◌, List, [], ◌∷◌, ◌++◌, Option, none,
  some, Result, ok, err, ◌≡◌, refl, arith, append-nil, append_assoc, ◌>>=◌, panicked,
}
use adbfs_rust.MountOpts.{
  FsOptions, OptionError, default, split_once, consume, consume_value, consume_flag, split_loop,
  split,
}

-- The options of this file system, after the list in the documentation.
abbrev pub is_own : Str → Bool
is_own opt = elim (split_once opt).1 [
  | some _ ↦
      str_eq (split_once opt).0 (codes "entry_timeout")
      || str_eq (split_once opt).0 (codes "attr_timeout")
      || str_eq (split_once opt).0 (codes "negative_timeout")
      || str_eq (split_once opt).0 (codes "uid")
      || str_eq (split_once opt).0 (codes "gid")
      || str_eq (split_once opt).0 (codes "umask")
  | none ↦
      str_eq (split_once opt).0 (codes "direct_io")
      || str_eq (split_once opt).0 (codes "kernel_cache")
      || str_eq (split_once opt).0 (codes "debug")
]

-- The options that are not the file system's own, in order.
abbrev pub foreign : List Str → List Str
foreign [] = []
foreign (opt ∷ options) = if is_own opt then foreign options else opt ∷ foreign options

module _ (parse_secs : Str → Option ℕ) where
  own_flag :
      (key : Str) (fs : FsOptions)
      → (consume_flag parse_secs key fs).0 ≡ (
          str_eq key (codes "direct_io")
          || str_eq key (codes "kernel_cache")
          || str_eq key (codes "debug"))
  unfolding consume_flag
  own_flag key fs = ground arith

  own_value :
      (key v : Str) (fs : FsOptions) (r : Bool × FsOptions)
      → consume_value parse_secs key v fs ≡ ok r
      → r.0 ≡ (
          str_eq key (codes "entry_timeout")
          || str_eq key (codes "attr_timeout")
          || str_eq key (codes "negative_timeout")
          || str_eq key (codes "uid")
          || str_eq key (codes "gid")
          || str_eq key (codes "umask"))
  unfolding consume_value
  own_value key v fs r h = ground arith

  own :
      (opt : Str) (fs : FsOptions) (r : Bool × FsOptions)
      → consume parse_secs opt fs ≡ ok r
      → r.0 ≡ is_own opt
  unfolding consume
  own opt fs r h =
      elim (split_once opt).1 as (λ v. (split_once opt).1 ≡ v → r.0 ≡ is_own opt) [
        | none ↦ λ e. ground (arith, own_flag (split_once opt).0 fs)
        | some v ↦ λ e. ground (arith, own_value (split_once opt).0 v fs r)
      ]
        refl

  -- A step of the loop, for what `consume` makes of the option and what holds of the loop's rest.
  step_foreign :
      (opt : Str) (options mount : List Str) (r : FsOptions × List Str)
      (c : Result OptionError (Bool × FsOptions))
      → ((p : Bool × FsOptions) → c ≡ ok p → p.0 ≡ is_own opt)
      → ((fs : FsOptions) (passed : List Str)
          → split_loop parse_secs options fs passed ≡ ok r
          → r.1 ≡ passed ++ foreign options)
      → (c >>= λ a. split_loop parse_secs options a.1 (if a.0 then mount else mount ++ opt ∷ []))
        ≡ ok r
      → r.1 ≡ mount ++ foreign (opt ∷ options)
  step_foreign opt options mount r (err e) is_own_eq rest h = cc
  step_foreign opt options mount r panicked is_own_eq rest h = cc
  step_foreign opt options mount r (ok (true, fs)) is_own_eq rest h =
      ground (arith, is_own_eq (true, fs) refl, rest fs mount h)
  step_foreign opt options mount r (ok (false, fs)) is_own_eq rest h = ground (
    arith,
    is_own_eq (false, fs) refl,
    rest fs (mount ++ opt ∷ []) h,
    append_assoc mount (opt ∷ []) (foreign options),
  )

  loop_foreign :
      (options : List Str) (fs : FsOptions) (mount : List Str) (r : FsOptions × List Str)
      → split_loop parse_secs options fs mount ≡ ok r
      → r.1 ≡ mount ++ foreign options
  unfolding split_loop
  loop_foreign [] fs mount r h = ground (arith, append-nil mount)
  loop_foreign (opt ∷ options) fs mount r h =
      step_foreign opt options mount r (consume parse_secs opt fs) (own opt fs)
        (λ fs' passed. loop_foreign options fs' passed r) h

  -- What `split` hands on to fuse are the options that are not the file system's own, in their order,
  -- none of them lost and none repeated.
  pub split-foreign :
      (options : List Str) (fs : FsOptions) (mount : List Str)
      → split parse_secs options ≡ ok (fs, mount)
      → mount ≡ foreign options
  unfolding split
  split-foreign options fs mount h = loop_foreign options default [] (fs, mount) h
