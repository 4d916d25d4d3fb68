-- ===== src/Adb/Cli.antt =====
-- src/adb/cli.rs: the transport that runs the `adb` program. The program and its process are not code
-- of the repository: `Process` is a parameter.
pub mod Lines
use mathlib.Core.Option.{get_or}
use adbfs_rust.Base.{
  ℕ, Str, codes, is_empty, trim_end_matches, ◌==◌, if◌then◌else◌, Bool, true, false, not, ◌&&◌,
  List, [], ◌∷◌, ◌++◌, map, map_err, Option, none, some, ℤ, pos, negsuc,
}
use adbfs_rust.Base.Exec.{Exec, pure, raise, ◌>>=◌, continue, gets}
use adbfs_rust.Adb.{ShellOutput, AdbError, device_not_found, command_failed, io, AdbDevice}

-- What `Command::output` returns; a process that a signal ended has no exit code.
pub record Output : Type 0 where
  pub code : Option ℤ
  pub stdout : List ℕ
  pub stderr : List ℕ

-- `Command::new(program).args(args).output()`, its error the errno, and `String::from_utf8_lossy`.
pub record Process (W : Type 0) : Type 0 where
  pub output : Str → List Str → Exec W ℕ Output
  pub from_utf8_lossy : List ℕ → Str

-- One `\r` at the end, and the line break before it, belong to the end of a line.
unfoldable pub strip_cr : Str → Str
strip_cr [] = []
strip_cr (c ∷ []) = if c == b'\r' then [] else c ∷ []
strip_cr (c ∷ d ∷ s) = c ∷ strip_cr (d ∷ s)

-- `str::lines`, for the text after the beginning of a line.
lines_from : Str → Str → List Str
unfolding strip_cr
lines_from line [] = if is_empty line then [] else line ∷ []
lines_from line (c ∷ s) =
    let ended = lines_from [] s in
    let longer = lines_from (line ++ c ∷ []) s in
    if c == b'\n' then strip_cr line ∷ ended else longer

unfoldable pub lines : Str → List Str
unfolding lines_from
lines s = lines_from [] s

-- `ExitStatus::success`
unfoldable pub success : Output → Bool
success output = elim output.code [ none ↦ false | some (pos n) ↦ n == 0 | some (negsuc n) ↦ false ]

-- `status.code().unwrap_or(-1)`
unfoldable pub exit_code_of : Output → ℤ
exit_code_of output = get_or output.code (negsuc 0)

module _ {W : Type 0} (process : Process W) where
  unfoldable pub to_lines : List ℕ → List Str
  unfolding lines
  to_lines bytes = map (trim_end_matches b'\r') (lines (process.from_utf8_lossy bytes))

  -- The `?` on a `std::io::Error`.
  from_io : {A : Type 0} → Exec W ℕ A → Exec W AdbError A
  from_io m w = let (r, w') = m w in (map_err io r, w')

  module _ (serial : Option Str) where
    -- `AdbCli::run`
    unfoldable pub run : List Str → Exec W AdbError Output
    unfolding from_io
    run args = from_io (
        process.output (codes "adb") (elim serial [ none ↦ args | some s ↦ codes "-s" ∷ s ∷ args ]))

    unfoldable pub transfer : Str → Str → Str → Exec W AdbError (Unit {0})
    unfolding run success exit_code_of
    transfer verb from to = do
      output ← run (verb ∷ from ∷ to ∷ [])
      if not (success output)
          then raise (command_failed (exit_code_of output) (process.from_utf8_lossy output.stderr))
          else pure tt

    unfoldable pub shell : Str → Exec W AdbError (List Str)
    unfolding run success to_lines
    shell command = do
      output ← run (codes "shell" ∷ command ∷ [])
      let no_lines : Bool = elim (to_lines output.stdout) [ [] ↦ true | l ∷ ls ↦ false ]
      if no_lines && not (success output)
          then raise device_not_found
          else pure (to_lines output.stdout)

    unfoldable pub shell_with_stderr : Str → Exec W AdbError ShellOutput
    unfolding run exit_code_of to_lines
    shell_with_stderr command = do
      output ← run (codes "shell" ∷ command ∷ [])
      pure (record {
        stdout = to_lines output.stdout;
        stderr = to_lines output.stderr;
        exit_code = exit_code_of output;
      })

    unfoldable pub pull : Str → Str → Exec W AdbError (Unit {0})
    unfolding transfer
    pull remote local = transfer (codes "pull") remote local

    unfoldable pub push : Str → Str → Exec W AdbError (Unit {0})
    unfolding transfer
    push local remote = transfer (codes "push") local remote

    unfoldable pub sync_device : Exec W AdbError (Unit {0})
    unfolding shell
    sync_device = do printed ← shell (codes "sync"); pure tt

    -- `impl AdbDevice for AdbCli`
    unfoldable pub adb_cli : AdbDevice W
    unfolding shell shell_with_stderr pull push sync_device
    adb_cli = record {
      shell = shell;
      shell_with_stderr = shell_with_stderr;
      pull = pull;
      push = push;
      sync_device = sync_device;
    }
