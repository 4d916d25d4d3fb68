-- ===== src/Startup/Switches.antt =====
-- src/main.rs: what the command line decides about a session.
use adbfs_rust.Base.{
  ℕ, Str, codes, if◌then◌else◌, ◌||◌, List, ◌∷◌, map, Option, Result, ok, err, panicked, ◌≡◌, ap,
  subst, refl, ◌>>=◌,
}
use adbfs_rust.MountOpts.{FsOptions, OptionError, split}
use adbfs_rust.MountOpts.Debug.{has_debug, split-has_debug}
use adbfs_rust.MountOpts.Split.{foreign, split-foreign}
use adbfs_rust.Startup.{Cli, Startup, started, startup, mount_config, auto_unmount, fs_name, custom}

-- What the command line asks for, after its documentation.
abbrev pub Follows : Cli → Startup → Type 0
Follows cli s =
    (s.foreground ≡ (cli.foreground || (cli.debug || has_debug cli.options)))
    × (s.default_filter
        ≡ (if cli.debug || has_debug cli.options then codes "adbfs=debug" else codes "adbfs=warn"))
    × (s.config.mount_options
        ≡ auto_unmount ∷ fs_name (codes "adbfs") ∷ map custom (foreign cli.options))

module _ (parse_secs : Str → Option ℕ) (available : Option ℕ) where
  -- Where the options are valid, the program stays in the foreground if one of `-f`, `-d` and `-o debug`
  -- is given; the log filter that it falls back to is the one of debug messages if `-d` or
  -- `-o debug` is given and that of warnings otherwise, whether or not `-f` is; and fuse is given all
  -- the `-o` options that are not the file system's own, in their order, after the two of the
  -- program.
  pub startup_switches :
      (cli : Cli) (s : Startup)
      → startup parse_secs available cli ≡ ok s
      → (s.foreground ≡ (cli.foreground || (cli.debug || has_debug cli.options)))
        × (s.default_filter ≡ (
            if cli.debug || has_debug cli.options then codes "adbfs=debug" else codes "adbfs=warn"))
        × (s.config.mount_options
            ≡ auto_unmount ∷ fs_name (codes "adbfs") ∷ map custom (foreign cli.options))
  unfolding startup started mount_config
  startup_switches cli s h = by_split (split parse_secs cli.options) refl h
    where
      by_split :
          (c : Result OptionError (FsOptions × List Str))
          → split parse_secs cli.options ≡ c
          → (c >>= λ parsed. ok (started parse_secs available cli parsed)) ≡ ok s
          → Follows cli s
      by_split (err e) parsed h' = cc
      by_split panicked parsed h' = cc
      by_split (ok (opts, rest)) parsed h' =
          let same : started parse_secs available cli (opts, rest) ≡ s = cc in
          let debug = split-has_debug parse_secs cli.options (opts, rest) parsed in
          let passed = split-foreign parse_secs cli.options opts rest parsed in
          subst (Follows cli) same (
            ap (λ d. cli.foreground || (cli.debug || d)) debug,
            ap (λ d. if cli.debug || d then codes "adbfs=debug" else codes "adbfs=warn") debug,
            ap (λ r. auto_unmount ∷ fs_name (codes "adbfs") ∷ map custom r) passed,
          )
