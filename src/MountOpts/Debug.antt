-- ===== src/MountOpts/Debug.antt =====
-- src/mount_opts.rs: the option `debug` among those that `FsOptions::split` is given.
use adbfs_rust.Base.{
  ℕ, Str, codes, str_eq, str_eq_iff, Bool-cases, if◌then◌else◌, Bool, false, ◌||◌, List, [], ◌∷◌,
  ◌++◌, Option, none, some, Result, ok, err, ◌≡◌, subst, refl, arith, ◌>>=◌, panicked, find, drop,
  inl, inr,
}
use adbfs_rust.MountOpts.{
  FsOptions, OptionError, default, consume, consume_value, consume_flag, split_loop, split,
}

-- Whether `debug` is one of the options.
abbrev pub has_debug : List Str → Bool
has_debug [] = false
has_debug (opt ∷ options) = str_eq opt (codes "debug") || has_debug options

module _ (parse_secs : Str → Option ℕ) where
  flag_debug :
      (opt : Str) (fs : FsOptions)
      → (consume_flag parse_secs opt fs).1.debug ≡ (fs.debug || str_eq opt (codes "debug"))
  unfolding consume_flag
  flag_debug opt fs =
      ground (arith, str_eq_iff opt (codes "direct_io"), str_eq_iff opt (codes "kernel_cache"))

  value_debug :
      (key v : Str) (fs : FsOptions) (r : Bool × FsOptions)
      → consume_value parse_secs key v fs ≡ ok r
      → r.1.debug ≡ fs.debug
  unfolding consume_value
  value_debug key v fs r h = ground arith

  valued :
      (opt : Str) (p : Str × Str)
      → find opt (codes "=") ≡ some p
      → str_eq opt (codes "debug") ≡ false
  valued opt p e = elim (Bool-cases (str_eq opt (codes "debug"))) [
    | inl same ↦
        let is_debug : opt ≡ codes "debug" = ground (arith, str_eq_iff opt (codes "debug"), same) in
        let found : find (codes "debug") (codes "=") ≡ some p =
          subst (λ x. find x (codes "=") ≡ some p) is_debug e in
        cc
    | inr other ↦ other
  ]

  consume_debug :
      (opt : Str) (fs : FsOptions) (r : Bool × FsOptions)
      → consume parse_secs opt fs ≡ ok r
      → r.1.debug ≡ (fs.debug || str_eq opt (codes "debug"))
  unfolding consume
  consume_debug opt fs r h = by_find (find opt (codes "=")) refl
    where
      by_find :
          (x : Option (Str × Str))
          → find opt (codes "=") ≡ x
          → r.1.debug ≡ (fs.debug || str_eq opt (codes "debug"))
      by_find none e = ground (arith, e, flag_debug opt fs)
      by_find (some (k, from_eq)) e =
          ground (arith, e, valued opt (k, from_eq) e, value_debug k (drop 1 from_eq) fs r)

  loop_step :
      (opt : Str) (options mount : List Str) (fs : FsOptions) (r : FsOptions × List Str)
      (c : Result OptionError (Bool × FsOptions))
      → ((p : Bool × FsOptions) → c ≡ ok p → p.1.debug ≡ (fs.debug || str_eq opt (codes "debug")))
      → ((fs' : FsOptions) (passed : List Str)
          → split_loop parse_secs options fs' passed ≡ ok r
          → r.0.debug ≡ (fs'.debug || has_debug options))
      → (c >>= λ a. split_loop parse_secs options a.1 (if a.0 then mount else mount ++ opt ∷ []))
        ≡ ok r
      → r.0.debug ≡ (fs.debug || has_debug (opt ∷ options))
  loop_step opt options mount fs r (err e) now rest h = cc
  loop_step opt options mount fs r panicked now rest h = cc
  loop_step opt options mount fs r (ok (b, fs')) now rest h =
      ground (arith, now (b, fs') refl, rest fs' (if b then mount else mount ++ opt ∷ []) h)

  loop_debug :
      (options : List Str) (fs : FsOptions) (mount : List Str) (r : FsOptions × List Str)
      → split_loop parse_secs options fs mount ≡ ok r
      → r.0.debug ≡ (fs.debug || has_debug options)
  unfolding split_loop
  loop_debug [] fs mount r h = ground arith
  loop_debug (opt ∷ options) fs mount r h =
      loop_step opt options mount fs r (consume parse_secs opt fs) (consume_debug opt fs)
        (λ fs' passed. loop_debug options fs' passed r) h

  -- `split` sets `debug` where the option is among those given, and nowhere else.
  pub split-has_debug :
      (options : List Str) (r : FsOptions × List Str)
      → split parse_secs options ≡ ok r
      → r.0.debug ≡ has_debug options
  unfolding split
  split-has_debug options r h = loop_debug options default [] r h
