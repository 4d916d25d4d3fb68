-- ===== src/Startup.antt =====
-- src/main.rs and `mount` of src/fs.rs: what the command line makes of the file system and of the
-- session that serves it. `clap`, the logging and the session itself are not modelled.
pub mod Daemon
pub mod Mount
pub mod Switches
use adbfs_rust.Base.{
  ℕ, ◌*◌, Str, codes, Bool, true, false, if◌then◌else◌, ◌||◌, List, [], ◌∷◌, map, Option, none,
  some, Result, ok, err, ◌>>=◌,
}
use adbfs_rust.MountOpts.{FsOptions, OptionError, split}

-- The arguments, as `clap` parses them; its `cache_ttl` is in seconds.
pub record Cli : Type 0 where
  pub mountpoint : Str
  pub foreground : Bool
  pub debug : Bool
  pub single_threaded : Bool
  pub rescan : Bool
  pub cache_ttl : ℕ
  pub options : List Str

-- The options of `fuser` that are used.
pub data MountOption : Type 0 where
  auto_unmount : MountOption
  fs_name : Str → MountOption
  custom : Str → MountOption

-- The fields of `fuser`'s `Config` that are set, its `acl` aside, which is always `RootAndOwner`.
pub record Config : Type 0 where
  pub mount_options : List MountOption
  pub n_threads : ℕ
  pub clone_fd : Bool

-- `available` is `available_parallelism`, where the system tells.
unfoldable pub mount_config : Option ℕ → List Str → Bool → Config
mount_config available options single_threaded = record {
  mount_options = auto_unmount ∷ fs_name (codes "adbfs") ∷ map custom options;
  n_threads = if single_threaded then 1 else elim available [ some n ↦ n | none ↦ 4 ];
  clone_fd = true;
}

-- What `main` starts the session with.
pub record Startup : Type 0 where
  pub foreground : Bool
  pub default_filter : Str
  pub rescan : Bool
  pub cache_ttl : ℕ
  pub fs_opts : FsOptions
  pub mountpoint : Str
  pub config : Config

module _ (parse_secs : Str → Option ℕ) (available : Option ℕ) where
  started : Cli → FsOptions × List Str → Startup
  unfolding mount_config
  started cli (fs_opts, mount_options) =
      let debug = cli.debug || fs_opts.debug in
      record {
        foreground = cli.foreground || debug;
        default_filter = if debug then codes "adbfs=debug" else codes "adbfs=warn";
        rescan = cli.rescan;
        cache_ttl = cli.cache_ttl * 1_000_000_000;
        fs_opts = fs_opts;
        mountpoint = cli.mountpoint;
        config = mount_config available mount_options cli.single_threaded;
      }

  unfoldable pub startup : Cli → Result OptionError Startup
  unfolding started
  startup cli = do parsed ← split parse_secs cli.options; ok (started cli parsed)
