-- ===== src/Parse/Line/Dates.antt =====
-- src/parse.rs: what `parse_datetime` makes of the local time that `ls` prints.
use adbfs_rust.Base.{
  zero, suc, ◌^◌, ◌<◌, Str, List, ◌∷◌, some, ℤ, pos, negsuc, ok, err, panicked, ◌≡◌, refl, arith,
  split, parse_i32,
}
use adbfs_rust.Parse.Meta.{SystemTime, Partial}
use adbfs_rust.Parse.Line.{
  Libc, minus, parse_datetime, datetime_of_parts, time_of_epoch_secs, add_to_epoch, as_u64,
}

-- A number that `time_t` holds.
abbrev pub InI64 : ℤ → Type 0
InI64 (pos n) = n < 2 ^ 63
InI64 (negsuc n) = n < 2 ^ 63

-- The outcome for a result of `mktime`: a time from the epoch on is read, -1 is refused, and an
-- earlier time panics.
abbrev pub outcome : ℤ → Partial SystemTime
outcome (pos n) = ok (record { secs = pos n; nanos = 0 })
outcome (negsuc zero) = err tt
outcome (negsuc (suc n)) = panicked

time_of_epoch_secs-outcome : (e : ℤ) → InI64 e → time_of_epoch_secs e ≡ outcome e
unfolding time_of_epoch_secs add_to_epoch as_u64
time_of_epoch_secs-outcome (pos n) h = ground arith
time_of_epoch_secs-outcome (negsuc zero) h = refl
time_of_epoch_secs-outcome (negsuc (suc n)) h = ground arith

-- A date and a time whose parts are numbers are read as `mktime` says, a result below -1 by a panic.
pub parse_datetime-mktime :
    (libc : Libc) (date_str time_str y m d h n : Str) (more rest : List Str)
    (year mon mday hour min : ℤ)
    → split date_str b'-' ≡ y ∷ m ∷ d ∷ more
    → split time_str b':' ≡ h ∷ n ∷ rest
    → parse_i32 y ≡ some year
    → parse_i32 m ≡ some mon
    → parse_i32 d ≡ some mday
    → parse_i32 h ≡ some hour
    → parse_i32 n ≡ some min
    → (time : ℤ)
    → libc.mktime (record {
      tm_year = minus year 1900;
      tm_mon = minus mon 1;
      tm_mday = mday;
      tm_hour = hour;
      tm_min = min;
    })
      ≡ time
    → InI64 time
    → parse_datetime libc date_str time_str ≡ outcome time
unfolding parse_datetime datetime_of_parts
parse_datetime-mktime libc date_str time_str y m d h n more rest year mon mday hour min sd st ey em
      ed eh en time e fits =
    rw (sd, st, ey, em, ed, eh, en, e) (time_of_epoch_secs-outcome time fits)
