-- ===== src/Examples/Commands.antt =====
-- Commands, their messages and `touch` at concrete inputs.
use mathlib.Core.List.{flat_map}
use adbfs_rust.Base.{
  arith, List, utf8, Str, codes, [], ◌∷◌, none, some, ok, pos, ◌≡◌, refl, false, ◌↔◌,
}
use adbfs_rust.Errno.{eacces}
use adbfs_rust.Adb.{ShellOutput}
use adbfs_rust.Parse.Meta.{SystemTime}
use adbfs_rust.Escape.{shell_escape_path, shell_unquote}
use adbfs_rust.Escape.Path.{shell_unquote-shell_escape_path}
use adbfs_rust.Ops.Messages.{errno_for_message}
use adbfs_rust.Ops.Messages.Table.{errno_for_message_of_path}
use adbfs_rust.Ops.Device.{DeviceOps, OpsState, mutation_result}
use adbfs_rust.Ops.Mutations.{IsSilent, mutation_result-ok}
use adbfs_rust.Ops.Touch.{touch, touch_rounds}
use adbfs_rust.Ops.Touch.Laws.{touch_rounds-touch}
use adbfs_rust.Adb.Cli.{Process, to_lines}
use adbfs_rust.Adb.Cli.Lines.{printed, to_lines-printed}
use adbfs_rust.Examples.World.{World, silent, quiet_device, quiet_ops}

abbrev idle : OpsState World
idle = record { world = []; touch_gnu_mode = false }

-- A path with a quote and a semicolon in it.
abbrev odd_path : Str
odd_path = codes "/sdcard/it's; rm x"

shell_unquote-shell_escape_path_example :
    shell_unquote (codes "'/sdcard/it'\\''s; rm x'") ≡ some odd_path
unfolding shell_escape_path flat_map
shell_unquote-shell_escape_path_example = shell_unquote-shell_escape_path odd_path

mutation_result-ok_example : (mutation_result (codes "rm 'a'") silent ≡ ok tt) ↔ IsSilent silent
mutation_result-ok_example = mutation_result-ok (codes "rm 'a'") silent

errno_for_message_of_path_example :
    errno_for_message (codes "rm: /sdcard/permission denied: No such file or directory") ≡ eacces
errno_for_message_of_path_example =
    errno_for_message_of_path (codes "rm: /sdcard/") (codes ": No such file or directory")

touch_rounds-touch_example :
    touch_rounds quiet_ops 5 odd_path none none idle ≡ touch quiet_ops odd_path none none idle
touch_rounds-touch_example = touch_rounds-touch quiet_ops odd_path 3 none none idle

abbrev bad_date : ShellOutput
bad_date = record {
  stdout = [];
  stderr = codes "touch: bad '@0.000000000'" ∷ [];
  exit_code = pos 1;
}

abbrev old_ops : DeviceOps World
old_ops = record quiet_ops {
  device = record quiet_device { shell_with_stderr = λ cmd w. (ok bad_date, w) };
}

abbrev epoch : SystemTime
epoch = record { secs = pos 0; nanos = 0 }

-- A process that prints two lines, and a decoding that knows this output alone.
abbrev two_lines : List Str
two_lines = codes "a b" ∷ codes "c" ∷ []

abbrev lines_process : Process World
lines_process = record {
  output = λ program args w.
      (ok (record { code = some (pos 0); stdout = utf8 (printed 1 two_lines); stderr = [] }), w);
  from_utf8_lossy = λ bytes. printed 1 two_lines;
}

to_lines-printed_example : to_lines lines_process (utf8 (printed 1 two_lines)) ≡ two_lines
to_lines-printed_example =
    to_lines-printed lines_process 1 two_lines refl
      ((ground arith, refl), ((ground arith, refl), tt))
