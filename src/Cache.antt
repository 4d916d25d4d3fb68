-- ===== src/Cache.antt =====
-- src/cache.rs: the metadata cache. Times are nanoseconds of the process's monotonic clock.
pub mod Laws
use adbfs_rust.Base.{
  ℕ, ◌-◌, Str, codes, str_eq, ltb, if◌then◌else◌, Bool, true, false, not, ◌&&◌, [], ◌∷◌, ◌++◌,
  Option, none, some, starts_with, ends_with, text_eq,
}
use adbfs_rust.Base.Map
use adbfs_rust.Base.Map.{Map}
use adbfs_rust.Parse.Meta.{FileMeta}

pub record CacheEntry : Type 0 where
  pub meta : Option FileMeta
  pub inserted_at : ℕ

pub record MetadataCache : Type 0 where
  pub entries : Map Str CacheEntry
  pub ttl : ℕ

unfoldable pub new : ℕ → MetadataCache
new ttl = record { entries = []; ttl = ttl }

-- An entry that was found; `elapsed` is 0 for an instant to come.
fresh_or_drop :
    ℕ → Str → MetadataCache → Option CacheEntry → Option (Option FileMeta) × MetadataCache
fresh_or_drop now path c none = (none, c)
fresh_or_drop now path c (some entry) =
    if ltb c.ttl (now - entry.inserted_at)
    then (none, record c { entries = Map.remove path c.entries })
    else (some entry.meta, c)

unfoldable pub get : ℕ → Str → MetadataCache → Option (Option FileMeta) × MetadataCache
unfolding fresh_or_drop
get now path c = fresh_or_drop now path c (Map.get path c.entries)

unfoldable pub insert : ℕ → Str → Option FileMeta → MetadataCache → MetadataCache
insert now path meta c = record c {
  entries = Map.insert path (record { meta = meta; inserted_at = now }) c.entries;
}

unfoldable pub invalidate : Str → MetadataCache → MetadataCache
invalidate path c = record c { entries = Map.remove path c.entries }

-- The test of `retain`, with the directory's prefix.
unfoldable pub survives : Str → Str → Bool
survives prefix key =
    let dir = if ends_with prefix (codes "/") then prefix else prefix ++ codes "/" in
    not (str_eq key prefix) && not (starts_with key dir)

unfoldable pub invalidate_prefix : Str → MetadataCache → MetadataCache
invalidate_prefix prefix c = record c { entries = Map.retain (survives prefix) c.entries }
