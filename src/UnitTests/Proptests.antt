-- ===== src/UnitTests/Proptests.antt =====
-- src/escape.rs and src/parse.rs: the tests on arbitrary inputs.
use adbfs_rust.Base.{
  ℕ, Str, codes, str_eq, str_eq_iff, ◌==◌, Bool, true, false, not, ◌||◌, ◌++◌, Option, none, some,
  ◌≡◌, refl, ap, ◌∙◌, arith, bit_and, contains,
}
use adbfs_rust.Escape.{shell_escape_path, shell_unquote, strip, quote_escape}
use adbfs_rust.Escape.Quotes.{find-strip-shell_escape_path}
use adbfs_rust.Escape.Path.{shell_unquote-shell_escape_path}
use adbfs_rust.Parse.Mode.{
  parse_mode_string, s_ifmt, s_ifsock, s_iflnk, s_ifreg, s_ifblk, s_ifdir, s_ifchr, s_ififo,
}
use adbfs_rust.Parse.Mode.Bits.{
  Kind, Rights, mode_text, parse_mode_string-mode_text, mode_bits-kind, kind_bits,
}

is_some_text : Option Str → Str → Bool
is_some_text none s = false
is_some_text (some t) s = str_eq t s

escape_path_round_trips_through_single_quotes : Str → Bool
escape_path_round_trips_through_single_quotes s =
    is_some_text (shell_unquote (codes "'" ++ shell_escape_path s ++ codes "'")) s

-- For every path.
round_trips_lem : (s : Str) → escape_path_round_trips_through_single_quotes s ≡ true
unfolding escape_path_round_trips_through_single_quotes is_some_text
round_trips_lem s = rw (shell_unquote-shell_escape_path s) ((str_eq_iff s s).1 refl)

escape_path_all_quotes_properly_escaped : Str → Bool
escape_path_all_quotes_properly_escaped s =
    not (contains (strip (shell_escape_path s) quote_escape) (codes "'"))

-- For every path.
quotes_lem : (s : Str) → escape_path_all_quotes_properly_escaped s ≡ true
unfolding escape_path_all_quotes_properly_escaped
quotes_lem s =
    ap (λ (o : Option (Str × Str)). not (elim o [ none ↦ false | some r ↦ true ]))
      (find-strip-shell_escape_path s)

-- The mode strings that `arb_mode_string` generates are those that `ls` prints.
mode_string_always_has_file_type : Str → Bool
mode_string_always_has_file_type s =
    let file_type = bit_and (parse_mode_string s) s_ifmt in
    file_type == s_ifsock
    || file_type == s_iflnk
    || file_type == s_ifreg
    || file_type == s_ifdir
    || file_type == s_ifblk
    || file_type == s_ifchr
    || file_type == s_ififo

kind_is_valid :
    (k : Kind) (m : ℕ)
    → m ≡ kind_bits k
    → (m == s_ifsock
        || m == s_iflnk
        || m == s_ifreg
        || m == s_ifdir
        || m == s_ifblk
        || m == s_ifchr
        || m == s_ififo)
      ≡ true
kind_is_valid Kind.socket m e = ground arith
kind_is_valid Kind.link m e = ground arith
kind_is_valid Kind.regular m e = ground arith
kind_is_valid Kind.directory m e = ground arith
kind_is_valid Kind.block m e = ground arith
kind_is_valid Kind.character m e = ground arith
kind_is_valid Kind.fifo m e = ground arith

file_type_lem :
    (k : Kind) (u g o : Rights) → mode_string_always_has_file_type (mode_text k u g o) ≡ true
unfolding mode_string_always_has_file_type
file_type_lem k u g o =
    kind_is_valid k _
      (ap (λ m. bit_and m s_ifmt) (parse_mode_string-mode_text k u g o) ∙ mode_bits-kind k u g o)
