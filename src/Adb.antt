-- ===== src/Adb.antt =====
-- src/adb/mod.rs: the transport to a device. What the `adb` program does to the world is not code of
-- the repository: an `AdbDevice` is a parameter, over a type of worlds.
pub mod Cli
pub mod Mock
use adbfs_rust.Base.{ℕ, Str, List, ℤ}
use adbfs_rust.Base.Exec.{Exec}

pub record ShellOutput : Type 0 where
  pub stdout : List Str
  pub stderr : List Str
  pub exit_code : ℤ

-- `io` carries the errno that `fuser` gives for the `std::io::Error`.
pub data AdbError : Type 0 where
  device_not_found : AdbError
  permission_denied : Str → AdbError
  command_failed : ℤ → Str → AdbError
  io : ℕ → AdbError

-- The trait's methods; `pull` is given the remote and the local path, `push` the local and the remote.
pub record AdbDevice (W : Type 0) : Type 0 where
  pub shell : Str → Exec W AdbError (List Str)
  pub shell_with_stderr : Str → Exec W AdbError ShellOutput
  pub pull : Str → Str → Exec W AdbError (Unit {0})
  pub push : Str → Str → Exec W AdbError (Unit {0})
  pub sync_device : Exec W AdbError (Unit {0})
