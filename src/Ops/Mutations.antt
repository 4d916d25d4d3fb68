-- ===== src/Ops/Mutations.antt =====
-- src/ops.rs: the silent commands, when they succeed and what a shell on the device runs.
use adbfs_rust.Base.{
  Str, codes, true, List, [], ◌∷◌, ◌++◌, none, some, ℤ, pos, negsuc, ok, ◌≡◌, refl, arith, All,
  is_empty, trim, Bool-cases, Option-cases, inl, inr, ◌↔◌,
}
use adbfs_rust.Base.Exec.{pure, ◌>>=◌}
use adbfs_rust.Adb.{ShellOutput}
use adbfs_rust.Escape.{shell_escape_path}
use adbfs_rust.Escape.Words.{shell_words, lex-shell_escape_path, lex}
use adbfs_rust.Ops.Messages.{first_message, first_nonblank}
use adbfs_rust.Ops.Device.{DeviceOps, OpsState, transport, mutation_result, rescan_file, is_zero}

-- Nothing but blank lines on both streams, and the exit code 0.
pub record IsSilent (output : ShellOutput) : Type 0 where
  pub stderr : All (λ l. is_empty (trim l) ≡ true) output.stderr
  pub stdout : All (λ l. is_empty (trim l) ≡ true) output.stdout
  pub exit_code : output.exit_code ≡ pos 0

first_nonblank-none :
    (ls : List Str) → All (λ l. is_empty (trim l) ≡ true) ls ↔ (first_nonblank ls ≡ none)
unfolding first_nonblank
first_nonblank-none [] = (λ _. refl, λ _. tt)
first_nonblank-none (l ∷ ls) = elim (Bool-cases (is_empty (trim l))) [
  | inl blank ↦ (
    λ h. rw blank ((first_nonblank-none ls).0 h.1),
    λ h. (blank, (first_nonblank-none ls).1 (rw blank at h)),
  )
  | inr shown ↦ (λ h. ground arith, λ h. ground arith)
]

All-split {ℓ} :
    {A : Type ℓ} (P : A → Type 0) (xs ys : List A) → All P (xs ++ ys) ↔ (All P xs × All P ys)
All-split P [] ys = (λ h. (tt, h), λ h. h.1)
All-split P (x ∷ xs) ys = (
  λ h. ((h.0, ((All-split P xs ys).0 h.1).0), ((All-split P xs ys).0 h.1).1),
  λ h. (h.0.0, (All-split P xs ys).1 (h.0.1, h.1)),
)

is_zero-eq : (e : ℤ) → is_zero e ≡ true → e ≡ pos 0
unfolding is_zero
is_zero-eq (pos n) h = ground arith
is_zero-eq (negsuc n) h = cc

silent_lines :
    {output : ShellOutput}
    → IsSilent output
    → first_nonblank (output.stderr ++ output.stdout) ≡ none
silent_lines {output} s =
    (first_nonblank-none (output.stderr ++ output.stdout)).0
      ((All-split _ output.stderr output.stdout).1 (s.stderr, s.stdout))

-- A mutation's answer counts as success exactly if it is silent: any line that is not blank, on either
-- stream, and any other exit code is a failure.
pub mutation_result-ok :
    (cmd : Str) (output : ShellOutput) → (mutation_result cmd output ≡ ok tt) ↔ IsSilent output
unfolding mutation_result first_message
mutation_result-ok cmd output =
    elim (Option-cases (first_nonblank (output.stderr ++ output.stdout))) [
      | inr (message, said) ↦ (λ h. ground arith, λ silent. ground (arith, silent_lines silent))
      | inl quiet ↦ (
        λ h. record {
          stderr =
              ((All-split _ output.stderr output.stdout).0 ((first_nonblank-none _).1 quiet)).0;
          stdout =
              ((All-split _ output.stderr output.stdout).0 ((first_nonblank-none _).1 quiet)).1;
          exit_code = is_zero-eq output.exit_code (ground arith);
        },
        λ silent. ground (arith, silent.exit_code),
      )
    ]

-- A command text that a shell reads as these words.
abbrev pub Runs : List Str → (Str → Type 0) → Type 0
Runs words P = (cmd : Str) × (shell_words cmd ≡ some words) × P cmd

module _ {W : Type 0} (ops : DeviceOps W) (path : Str) (s : OpsState W) where
  -- The media scanner is told of the very file: its address is one word, the path behind `file://`.
  pub rescan_file_lem :
      Runs
        (codes "am"
          ∷ codes "broadcast"
          ∷ codes "-a"
          ∷ codes "android.intent.action.MEDIA_SCANNER_SCAN_FILE"
          ∷ codes "-d"
          ∷ (codes "file://" ++ path)
          ∷ [])
        (λ cmd. rescan_file ops path s ≡ (transport (ops.device.shell cmd) >>= λ lines. pure tt) s)
  unfolding rescan_file shell_words lex
  rescan_file_lem = (
    codes "am broadcast -a android.intent.action.MEDIA_SCANNER_SCAN_FILE -d 'file://"
        ++ shell_escape_path path
        ++ codes "'",
    lex-shell_escape_path path _ _ _,
    refl,
  )
