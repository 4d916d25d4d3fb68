-- ===== src/UnitTests/Options.antt =====
-- src/mount_opts.rs: its tests. The reading of a number of seconds is a parameter of each.
use adbfs_rust.Base.{
  ℕ, Str, codes, str_eq, ◌==◌, Bool, true, false, not, ◌&&◌, List, [], ◌∷◌, Option, none, some,
  Result, ok, err, panicked, ◌≡◌, refl, bit_or, if◌then◌else◌, parse_unsigned,
}
use adbfs_rust.Parse.Mode.{s_ifreg}
use adbfs_rust.MountOpts.{FsOptions, default, OptionError, split, apply_ownership}
use adbfs_rust.UnitTests.Support.{all_pass}

abbrev is_value : Option ℕ → Option ℕ → Bool
is_value none none = true
is_value (some a) (some b) = a == b
is_value none (some b) = false
is_value (some a) none = false

abbrev is_flag : Bool → Bool → Bool
is_flag a b = if a then b else not b

-- `==` of `FsOptions` and of lists of texts.
abbrev same_options : FsOptions → FsOptions → Bool
same_options a b =
    a.entry_timeout == b.entry_timeout
    && a.attr_timeout == b.attr_timeout
    && a.negative_timeout == b.negative_timeout
    && is_value a.uid b.uid
    && is_value a.gid b.gid
    && is_value a.umask b.umask
    && is_flag a.direct_io b.direct_io
    && is_flag a.kernel_cache b.kernel_cache
    && is_flag a.debug b.debug

abbrev same_texts : List Str → List Str → Bool
same_texts [] [] = true
same_texts (s ∷ ss) (t ∷ ts) = str_eq s t && same_texts ss ts
same_texts [] (t ∷ ts) = false
same_texts (s ∷ ss) [] = false

-- `unwrap`, and what is asserted of the options.
abbrev unwrapped : Result OptionError (FsOptions × List Str) → (FsOptions → List Str → Bool) → Bool
unwrapped (ok (fs, mount)) p = p fs mount
unwrapped (err e) p = false
unwrapped panicked p = false

abbrev is_err : Result OptionError (FsOptions × List Str) → Bool
is_err (ok r) = false
is_err (err e) = true
is_err panicked = false

module _ (parse_secs : Str → Option ℕ) where
  unknown_options_pass_through : Bool
  unknown_options_pass_through =
      unwrapped (split parse_secs (codes "allow_other" ∷ codes "max_read=65536" ∷ codes "ro" ∷ []))
        (λ fs mount.
          same_options fs default
          && same_texts mount (codes "allow_other" ∷ codes "max_read=65536" ∷ codes "ro" ∷ []))

  known_options_are_consumed : Bool
  known_options_are_consumed =
      unwrapped
        (split parse_secs (
          codes "allow_other"
          ∷ codes "direct_io"
          ∷ codes "uid=1000"
          ∷ codes "attr_timeout=2.5"
          ∷ []))
        (λ fs mount.
          same_texts mount (codes "allow_other" ∷ [])
          && fs.direct_io
          && is_value fs.uid (some 1000)
          && fs.attr_timeout == 2_500_000_000)

  umask_is_octal : Bool
  umask_is_octal = unwrapped (split parse_secs (codes "umask=022" ∷ [])) (λ fs mount.
      is_value fs.umask (some 0o22)
      && (apply_ownership fs (bit_or s_ifreg 0o600) 0 0).0 == bit_or s_ifreg 0o755)

  ownership_defaults_to_device_values : Bool
  ownership_defaults_to_device_values = unwrapped (split parse_secs []) (λ fs mount.
      let (mode, uid, gid) = apply_ownership fs (bit_or s_ifreg 0o600) 2000 3000 in
      uid == 2000 && gid == 3000 && mode == bit_or s_ifreg 0o600)

  bad_values_are_rejected : Bool
  bad_values_are_rejected =
      is_err (split parse_secs (codes "uid=root" ∷ []))
      && is_err (split parse_secs (codes "umask=999" ∷ []))
      && is_err (split parse_secs (codes "attr_timeout=soon" ∷ []))
      && is_err (split parse_secs (codes "attr_timeout=-1" ∷ []))

  flags_with_values_are_not_flags : Bool
  flags_with_values_are_not_flags =
      unwrapped (split parse_secs (codes "debug=1" ∷ []))
        (λ fs mount. not fs.debug && same_texts mount (codes "debug=1" ∷ []))

-- The one number of seconds that the tests read.
abbrev reads_two_and_a_half : Str → Option ℕ
reads_two_and_a_half s = if str_eq s (codes "2.5") then some 2_500_000_000 else none

-- Each test passes.
option_tests_lem :
    all_pass (
      unknown_options_pass_through reads_two_and_a_half
      ∷ known_options_are_consumed reads_two_and_a_half
      ∷ umask_is_octal reads_two_and_a_half
      ∷ ownership_defaults_to_device_values reads_two_and_a_half
      ∷ bad_values_are_rejected reads_two_and_a_half
      ∷ flags_with_values_are_not_flags reads_two_and_a_half
      ∷ [])
    ≡ true
unfolding split apply_ownership parse_unsigned unknown_options_pass_through
    known_options_are_consumed umask_is_octal ownership_defaults_to_device_values
    bad_values_are_rejected flags_with_values_are_not_flags
option_tests_lem = refl
