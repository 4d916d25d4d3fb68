-- ===== src/Startup/Daemon.antt =====
-- src/main.rs: `daemonize`, over the calls of the operating system that it makes.
use adbfs_rust.Base.{
  ℕ, Str, codes, Bool, true, false, not, if◌then◌else◌, ltb, ◌==◌, Option, none, some, ok,
}
use adbfs_rust.Base.Exec.{Exec, pure, modify, ◌>>=◌, ◌>>◌}

-- The calls of the operating system in `daemonize`: an error is its errno, and `fork` returns the
-- process it is asked about, 0 in the child.
pub record Processes (W : Type 0) : Type 0 where
  pub fork : Exec W ℕ ℕ
  pub exit : ℕ → W → W
  pub setsid : Exec W ℕ (Unit {0})
  pub chdir : Str → W → W
  pub open_null : W → Option ℕ × W
  pub dup2 : ℕ → ℕ → W → W
  pub close : ℕ → W → W

module _ {W : Type 0} (os : Processes W) where
  -- The standard streams on `/dev/null`, where it opens.
  redirect : Option ℕ → W → W
  redirect none w = w
  redirect (some null) w =
      let duplicated = os.dup2 null 2 (os.dup2 null 1 (os.dup2 null 0 w)) in
      if ltb 2 null then os.close null duplicated else duplicated

  -- Whether the process goes on: the parent exits.
  unfoldable pub daemonize : Exec W ℕ Bool
  unfolding redirect
  daemonize = do
    child ← os.fork
    if not (child == 0) then (λ w. (ok false, os.exit 0 w)) else (do
      os.setsid
      modify (os.chdir (codes "/"))
      null ← λ w. (let (fd, w') = os.open_null w in (ok fd, w'))
      modify (redirect null)
      pure true)
