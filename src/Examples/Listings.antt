-- ===== src/Examples/Listings.antt =====
-- The lines of `ls -l` at concrete inputs.
use mathlib.Core.List.{flat_map}
use adbfs_rust.Base.{
  All, some, ◌++◌, ◌==◌, ◌||◌, if◌then◌else◌, false, is_empty, is_whitespace, Str, codes, [], ◌∷◌,
  ok, pos, panicked, negsuc, ◌≡◌, refl, arith, true, split, parse_i32,
}
use adbfs_rust.Parse.Mode.{parse_mode_string}
use adbfs_rust.Parse.Mode.Bits.{Rights, directory, parse_mode_string-mode_text}
use adbfs_rust.Parse.Line.{Libc, parse_datetime}
use adbfs_rust.Parse.Line.Dates.{parse_datetime-mktime}
use adbfs_rust.Parse.Line.{parse_ls_line}
use adbfs_rust.Parse.Fields.Words.{IsWord}
use adbfs_rust.Parse.Mode.Bits.{Kind}
use adbfs_rust.Parse.Line.Printed.{
  Listed, listed, meta_of, free_of, free_of-All, parse_ls_line-listed,
}
use adbfs_rust.Parse.Name.{extract_filename}
use adbfs_rust.Parse.Name.Columns.{extract_filename-arrow}
use adbfs_rust.Parse.Name.Link.{walk, resolve_symlink-walk}
use adbfs_rust.Ops.Listing.{resolve_symlink}
use adbfs_rust.Ops.Device.{DeviceOps}
use adbfs_rust.Ops.Listing.{list_dir}
use adbfs_rust.Ops.Listing.Listed.{IsReadable, list_dir-listed}
use adbfs_rust.Escape.{shell_escape_path}
use adbfs_rust.Examples.World.{World, quiet_device, quiet_ops, utc_noon}

-- A word, by evaluation.
word : (w : Str) → is_empty w ≡ false → free_of is_whitespace w ≡ true → IsWord w
word w some_text free = (some_text, free_of-All is_whitespace w free)

abbrev all : Rights
all = record { read = true; write = true; execute = true; special = true }

parse_mode_string-mode_text_example : parse_mode_string (codes "drwsrwsrwt") ≡ 0o47777
parse_mode_string-mode_text_example = parse_mode_string-mode_text directory all all all

abbrev head : Str
head = codes "-rw-r--r-- 1 root root 0 2026-03-01 10"

extract_filename-arrow_example :
    extract_filename (codes "-rw-r--r-- 1 root root 0 2026-03-01 10:30 a -> b") ≡ ok (codes "a")
extract_filename-arrow_example =
    extract_filename-arrow head b'3' b'0' (ground arith) (omega arith) (omega arith) (codes "a")
      (codes "b") (ground arith) refl

-- A clock one hour behind the device's, for a date of the first minutes of 1970.
abbrev before_epoch : Libc
before_epoch = record utc_noon { mktime = λ tm. negsuc 3_599 }

parse_datetime-mktime_example :
    parse_datetime before_epoch (codes "1970-01-01") (codes "00:00") ≡ panicked
unfolding parse_i32
parse_datetime-mktime_example =
    parse_datetime-mktime before_epoch (codes "1970-01-01") (codes "00:00") (codes "1970")
      (codes "01") (codes "01") (codes "00") (codes "00") [] [] (pos 1_970) (pos 1) (pos 1) (pos 0)
      (pos 0) refl refl refl refl refl refl refl (negsuc 3_599) refl (omega arith)

abbrev link_line : Str
link_line = codes "lrwxrwxrwx 1 root root 11 2026-03-01 10:30 /a/l -> /sdcard"

resolve_symlink-walk_example :
    (r : Str) × (resolve_symlink (codes "/a/l") link_line ≡ ok r)
    × (walk (codes "x" ∷ []) (split r b'/') ≡ walk [] (split (codes "/sdcard") b'/'))
resolve_symlink-walk_example =
    resolve_symlink-walk (codes "a") (codes "l" ∷ []) (codes "x" ∷ []) link_line
      (codes "lrwxrwxrwx 1 root root 11 2026-03-01 10:30 /a/l") (codes "sdcard")
      ((ground arith, ground arith), ((ground arith, ground arith), tt)) refl refl

-- `-rw-r--r--   1 root   root      5905 1970-01-01 01:00 ueventd.rc`
abbrev ueventd : Listed
ueventd = record {
  kind = Kind.regular;
  user_rights = record { read = true; write = true; execute = false; special = false };
  group_rights = record { read = true; write = false; execute = false; special = false };
  other_rights = record { read = true; write = false; execute = false; special = false };
  links = 1;
  user = codes "root";
  group = codes "root";
  size = 5905;
  date = codes "1970-01-01";
  time = codes "01:00";
  name = codes "ueventd.rc";
  gap = λ j. if j == 3 then 5 else if j == 0 || j == 2 then 2 else 0;
}

epoch_noon :
    parse_datetime utc_noon (codes "1970-01-01") (codes "01:00")
    ≡ ok (record { secs = pos 43_200; nanos = 0 })
unfolding parse_i32
epoch_noon =
    parse_datetime-mktime utc_noon (codes "1970-01-01") (codes "01:00") (codes "1970") (codes "01")
      (codes "01") (codes "01") (codes "00") [] [] (pos 1_970) (pos 1) (pos 1) (pos 1) (pos 0) refl
      refl refl refl refl refl refl (pos 43_200) refl (omega arith)

parse_ls_line-listed_example :
    parse_ls_line utc_noon (listed ueventd)
    ≡ ok (meta_of utc_noon ueventd (record { secs = pos 43_200; nanos = 0 }))
parse_ls_line-listed_example =
    parse_ls_line-listed utc_noon ueventd (record { secs = pos 43_200; nanos = 0 }) refl
      (omega arith) (omega arith) (omega arith) (word (codes "root") refl refl)
      (word (codes "root") refl refl) (word (codes "1970-01-01") refl refl)
      (word (codes "01:00") refl refl) epoch_noon

uncolon : (w : Str) → free_of (λ c. c == b':') w ≡ true → All (λ c. (c == b':') ≡ false) w
uncolon w free = free_of-All (λ c. c == b':') w free

ueventd-IsReadable : IsReadable utc_noon ueventd (record { secs = pos 43_200; nanos = 0 })
ueventd-IsReadable = record {
  plain = record {
    hour = codes "01";
    m1 = b'0';
    m2 = b'0';
    time_text = refl;
    ascii1 = omega arith;
    ascii2 = omega arith;
    one_space = refl;
    user_plain = uncolon (codes "root") refl;
    group_plain = uncolon (codes "root") refl;
    date_plain = uncolon (codes "1970-01-01") refl;
    hour_plain = uncolon (codes "01") refl;
    name_some = ground arith;
    name_plain = refl;
  };
  sized = refl;
  some_link = omega arith;
  links_fit = omega arith;
  size_fits = omega arith;
  user_word = word (codes "root") refl refl;
  group_word = word (codes "root") refl refl;
  date_word = word (codes "1970-01-01") refl refl;
  time_word = word (codes "01:00") refl refl;
  time_read = epoch_noon;
}

-- A device with that file alone.
abbrev one_file : DeviceOps World
one_file = record quiet_ops {
  device = record quiet_device { shell = λ cmd w. (ok (listed ueventd ∷ []), w ++ cmd ∷ []) };
}

list_dir-listed_example :
    list_dir one_file (codes "/") (record { world = []; touch_gnu_mode = false }) ≡ (
      ok (
          (
            codes "ueventd.rc",
            some (meta_of utc_noon ueventd (record { secs = pos 43_200; nanos = 0 })),
          )
          ∷ []),
      record { world = codes "ls -l -a '/'" ∷ []; touch_gnu_mode = false },
    )
unfolding shell_escape_path flat_map
list_dir-listed_example =
    list_dir-listed one_file (codes "/") ((ueventd, record { secs = pos 43_200; nanos = 0 }) ∷ [])
      (record { world = []; touch_gnu_mode = false }) (codes "ls -l -a '/'" ∷ []) refl
      (ueventd-IsReadable, tt)
