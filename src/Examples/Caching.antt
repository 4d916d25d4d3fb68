-- ===== src/Examples/Caching.antt =====
-- The cache at concrete inputs.
use adbfs_rust.Base.{ℕ, codes, [], ◌∷◌, none, some, pos, ◌≡◌, refl, arith, ◌+◌, ◌≤◌, text_eq}
use adbfs_rust.Base.Map
use adbfs_rust.Parse.Meta.{FileMeta}
use adbfs_rust.Cache.{MetadataCache, new, insert, get, invalidate_prefix}
use adbfs_rust.Cache.Laws.{answer, answer_sound, answer-invalidate_prefix}
use adbfs_rust.Fs.State.{FsState}
use adbfs_rust.Examples.World.{World, start}

abbrev meta : FileMeta
meta = record {
  mode = 0o100644;
  nlink = 1;
  uid = 0;
  gid = 0;
  size = 5;
  rdev = 0;
  mtime = record { secs = pos 0; nanos = 0 };
  raw_line = codes "-";
}

-- `/a` was inserted at the time 10, `/a/c` (missing) at 20 and `/ab` at 25, for 30 units.
abbrev cache : MetadataCache
cache =
    insert 25 (codes "/ab") (some meta)
      (insert 20 (codes "/a/c") none (insert 10 (codes "/a") (some meta) (new 30)))

answer_sound_example :
    (at : ℕ) × (Map.get (codes "/ab") cache.entries
      ≡ some (record { meta = some meta; inserted_at = at }))
    × (50 ≤ at + cache.ttl)
unfolding get insert new Map.get Map.insert
answer_sound_example = answer_sound 50 (codes "/ab") cache (some meta) refl

answer-invalidate_prefix_example :
    (answer 40 (codes "/a/c") (invalidate_prefix (codes "/a") cache) ≡ none)
answer-invalidate_prefix_example =
    answer-invalidate_prefix 40 (codes "a" ∷ []) (codes "a" ∷ codes "c" ∷ []) cache
      ((ground arith, ground arith), tt)
      ((ground arith, ground arith), ((ground arith, ground arith), tt))

abbrev warm : FsState World (Unit {0})
warm = record start { cache = insert 0 (codes "/a") none (new 30) }
