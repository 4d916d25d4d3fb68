-- ===== src/UnitTests/Caching.antt =====
-- src/cache.rs: its tests. Times are nanoseconds; calls that follow at once are at time 0.
use adbfs_rust.Base.{
  if◌then◌else◌, ℕ, Str, codes, ◌==◌, Bool, true, false, not, ◌&&◌, List, [], ◌∷◌, Option, none,
  some, pos, ◌≡◌, refl, text_eq,
}
use adbfs_rust.Base.Map
use adbfs_rust.Parse.Meta.{FileMeta}
use adbfs_rust.Cache
use adbfs_rust.Cache.{MetadataCache, insert, invalidate, invalidate_prefix}
use adbfs_rust.UnitTests.Support.{all_pass}

abbrev dummy_meta : FileMeta
dummy_meta = record {
  mode = 0o100644;
  nlink = 1;
  uid = 0;
  gid = 0;
  size = 42;
  rdev = 0;
  mtime = record { secs = pos 0; nanos = 0 };
  raw_line = [];
}

abbrev is_some : {A : Type 0} → Option A → Bool
is_some none = false
is_some (some a) = true

-- Calls of `get`, one after the other, and whether each finds something.
abbrev finds : ℕ → List (Str × Bool) → MetadataCache → Bool
finds now [] c = true
finds now ((path, expected) ∷ more) c =
    let (found, c') = Cache.get now path c in
    (if expected then is_some found else not (is_some found)) && finds now more c'

-- The entry that `expect` and `expect` give.
abbrev got : Option (Option FileMeta) → (FileMeta → Bool) → Bool
got (some (some meta)) p = p meta
got (some none) p = false
got none p = false

abbrev is_negative : Option (Option FileMeta) → Bool
is_negative (some none) = true
is_negative (some (some meta)) = false
is_negative none = false

abbrev thirty_seconds : ℕ
thirty_seconds = 30_000_000_000

-- `insert`, at time 0.
abbrev put : Str → MetadataCache → MetadataCache
put path c = insert 0 path (some dummy_meta) c

get_returns_none_for_missing : Bool
get_returns_none_for_missing =
    finds 0 ((codes "/nonexistent", false) ∷ []) (Cache.new thirty_seconds)

insert_then_get : Bool
insert_then_get =
    let cache = put (codes "/sdcard/file.txt") (Cache.new thirty_seconds) in
    got (Cache.get 0 (codes "/sdcard/file.txt") cache).0
      (λ meta. meta.size == dummy_meta.size && meta.mode == dummy_meta.mode)

negative_cache_hit : Bool
negative_cache_hit =
    let cache = insert 0 (codes "/sdcard/missing") none (Cache.new thirty_seconds) in
    is_negative (Cache.get 0 (codes "/sdcard/missing") cache).0

-- The sleep is of 100 milliseconds.
expired_entry_returns_none : Bool
expired_entry_returns_none =
    finds 100_000_000 ((codes "/tmp/ephemeral", false) ∷ [])
      (put (codes "/tmp/ephemeral") (Cache.new 50_000_000))

invalidate_removes_entry : Bool
invalidate_removes_entry = finds 0 ((codes "/sdcard/remove_me", false) ∷ []) (
    invalidate (codes "/sdcard/remove_me")
      (put (codes "/sdcard/remove_me") (Cache.new thirty_seconds)))

invalidate_prefix_removes_children : Bool
invalidate_prefix_removes_children =
    finds 0
      ((codes "/sdcard", false)
        ∷ (codes "/sdcard/a", false)
        ∷ (codes "/sdcard/b", false)
        ∷ (codes "/other", true)
        ∷ [])
      (invalidate_prefix (codes "/sdcard") (
        put (codes "/other") (
          put (codes "/sdcard/b")
            (put (codes "/sdcard/a") (put (codes "/sdcard") (Cache.new thirty_seconds))))))

invalidate_prefix_keeps_siblings_sharing_the_prefix : Bool
invalidate_prefix_keeps_siblings_sharing_the_prefix =
    finds 0
      ((codes "/sdcard/a", false) ∷ (codes "/sdcardfoo", true) ∷ (codes "/sdcard2/b", true) ∷ [])
      (invalidate_prefix (codes "/sdcard") (
        put (codes "/sdcard2/b")
          (put (codes "/sdcardfoo") (put (codes "/sdcard/a") (Cache.new thirty_seconds)))))

invalidate_prefix_root_clears_everything : Bool
invalidate_prefix_root_clears_everything =
    finds 0 ((codes "/", false) ∷ (codes "/sdcard/a", false) ∷ []) (
      invalidate_prefix (codes "/")
        (put (codes "/sdcard/a") (put (codes "/") (Cache.new thirty_seconds))))

-- Each test passes.
cache_tests_lem :
    all_pass (
      get_returns_none_for_missing ∷ insert_then_get ∷ negative_cache_hit
      ∷ expired_entry_returns_none ∷ invalidate_removes_entry ∷ invalidate_prefix_removes_children
      ∷ invalidate_prefix_keeps_siblings_sharing_the_prefix
      ∷ invalidate_prefix_root_clears_everything ∷ [])
    ≡ true
unfolding Cache.new Cache.get insert invalidate invalidate_prefix Map.get Map.insert Map.remove
    Map.retain Cache.survives get_returns_none_for_missing insert_then_get negative_cache_hit
    expired_entry_returns_none invalidate_removes_entry invalidate_prefix_removes_children
    invalidate_prefix_keeps_siblings_sharing_the_prefix invalidate_prefix_root_clears_everything
cache_tests_lem = refl
