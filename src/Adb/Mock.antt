-- ===== src/Adb/Mock.antt =====
-- src/adb/mock.rs: the test double of a device. Its shell answers from a queue and keeps the commands.
use adbfs_rust.Base.{
  ℕ, Str, codes, Bool, true, false, if◌then◌else◌, List, [], ◌∷◌, ◌++◌, pos, ℤ, Result, ok, err,
  map_err,
}
use adbfs_rust.Base.Exec.{Exec, pure, modify, ◌>>=◌}
use adbfs_rust.Adb.{ShellOutput, AdbError, command_failed, io, AdbDevice}

-- A command that printed these lines and exited with 0.
unfoldable pub out : List Str → Result AdbError ShellOutput
out printed = ok (record { stdout = printed; stderr = []; exit_code = pos 0 })

-- A command that failed with a message on stderr.
unfoldable pub failed : ℤ → List Str → Result AdbError ShellOutput
failed exit_code stderr = ok (record { stdout = []; stderr = stderr; exit_code = exit_code })

-- The answer to a command, and the queue behind it.
pop_front :
    List (Result AdbError ShellOutput)
    → Result AdbError ShellOutput × List (Result AdbError ShellOutput)
unfolding out
pop_front [] = (out [], [])
pop_front (r ∷ rs) = (r, rs)

-- The double, beside the rest of the world.
pub record MockAdb (W : Type 0) : Type 0 where
  pub responses : List (Result AdbError ShellOutput)
  pub commands : List Str
  pub pushes : List (Str × Str)
  pub pull_content : List ℕ
  pub pull_fails : Bool
  pub world : W

module _ {W : Type 0} where
  unfoldable pub new : List (Result AdbError ShellOutput) → W → MockAdb W
  new responses world = record {
    responses = responses;
    commands = [];
    pushes = [];
    pull_content = [];
    pull_fails = false;
    world = world;
  }

  -- A device that answers every command with silence.
  unfoldable pub silent : W → MockAdb W
  unfolding new
  silent world = new [] world

  unfoldable pub with_content : List ℕ → MockAdb W → MockAdb W
  with_content content mock = record mock { pull_content = content }

  unfoldable pub with_failing_pull : MockAdb W → MockAdb W
  with_failing_pull mock = record mock { pull_fails = true }

  unfoldable pub next : Str → Exec (MockAdb W) AdbError ShellOutput
  unfolding pop_front
  next command mock =
      let (answer, responses) = pop_front mock.responses in
      (answer, record mock { commands = mock.commands ++ command ∷ []; responses = responses })

  -- `std::fs::write`, its error the errno, is a parameter.
  module _ (write_file : Str → List ℕ → Exec W ℕ (Unit {0})) where
    unfoldable pub pull : Str → Str → Exec (MockAdb W) AdbError (Unit {0})
    pull remote local mock =
        if mock.pull_fails
        then (err (command_failed (pos 1) (codes "remote object does not exist")), mock)
        else (let (r, world) = write_file local mock.pull_content mock.world in
            (map_err io r, record mock { world = world }))

    -- `impl AdbDevice for MockAdb`
    unfoldable pub mock_adb : AdbDevice (MockAdb W)
    unfolding next pull
    mock_adb = record {
      shell = λ command. (do answer ← next command; pure answer.stdout);
      shell_with_stderr = next;
      pull = pull;
      push = λ local remote.
          modify (λ mock. record mock { pushes = mock.pushes ++ (local, remote) ∷ [] });
      sync_device = pure tt;
    }
