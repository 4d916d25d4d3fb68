-- ===== src/Startup/Mount.antt =====
-- `mount` of src/fs.rs, with the end of `main` in src/main.rs. The session of `fuser` is a parameter.
use adbfs_rust.Base.{true, ℕ, Str, Bool, if◌then◌else◌}
use adbfs_rust.Base.Exec.{Exec, pure, ◌>>=◌}
use adbfs_rust.Startup.{Config, Startup}
use adbfs_rust.Startup.Daemon.{Processes, daemonize}

-- `Session::new`, `spawn` of a session and `join` of what it runs in the background.
pub record Session (W S B : Type 0) : Type 0 where
  pub open_session : Str → Config → Exec W ℕ S
  pub spawn : S → Exec W ℕ B
  pub join : B → Exec W ℕ (Unit {0})

module _ {W S B : Type 0} (fuse : Session W S B) where
  -- `on_mounted` tells whether this process goes on: the parent of a daemon does not.
  unfoldable pub mount : Str → Config → Exec W ℕ Bool → Exec W ℕ (Unit {0})
  mount mountpoint config on_mounted = do
    session ← fuse.open_session mountpoint config
    goes_on ← on_mounted
    if goes_on then (do background ← fuse.spawn session; fuse.join background) else pure tt

  unfoldable pub serve : Processes W → Startup → Exec W ℕ (Unit {0})
  unfolding mount
  serve os s = mount s.mountpoint s.config (if s.foreground then pure true else daemonize os)
