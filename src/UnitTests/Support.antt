-- ===== src/UnitTests/Support.antt =====
-- What the tests share: their verdict together, and a C library without users, whose clock is at noon.
use adbfs_rust.Base.{Bool, true, ◌&&◌, List, [], ◌∷◌, none, pos}
use adbfs_rust.Parse.Line.{Libc}

abbrev pub all_pass : List Bool → Bool
all_pass [] = true
all_pass (passed ∷ others) = passed && all_pass others

abbrev pub utc_noon : Libc
utc_noon = record { getpwnam = λ name. none; getgrnam = λ name. none; mktime = λ tm. pos 43_200 }
