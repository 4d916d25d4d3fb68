-- ===== src/Cache/Laws.antt =====
-- src/cache.rs: what the cache answers, at a time, after each of its operations.
use adbfs_rust.Base.{
  ℕ, ◌+◌, ◌-◌, ◌≤◌, Str, str_eq, str_eq_iff, ltb, if◌then◌else◌, not, List, [], ◌∷◌, Option, none,
  some, ◌≡◌, refl, arith, text_eq, All,
}
use adbfs_rust.Base.Map
use adbfs_rust.Base.Map.{get-remove, get-insert, get-retain, beq_refl}
use adbfs_rust.Parse.Meta.{FileMeta}
use adbfs_rust.Paths.{path_of, in_subtree, IsName, is_under-path_of, ends_with-path_of}
use adbfs_rust.Cache.{
  CacheEntry, MetadataCache, fresh_or_drop, get, insert, invalidate, survives, invalidate_prefix,
}

-- What the cache answers at a time.
abbrev pub answer : ℕ → Str → MetadataCache → Option (Option FileMeta)
answer now path c = (get now path c).0

-- A call of `get` changes no later answer: what it drops is out of date.
pub answer-get :
    (now later : ℕ) (path other : Str) (c : MetadataCache)
    → now ≤ later
    → answer later other (get now path c).1 ≡ answer later other c
unfolding get
answer-get now later path other c h =
    ground (arith, get-remove path other c.entries, str_eq_iff path other)

-- After an insertion a path answers with what was inserted until its time to live is over, then with
-- nothing; the other paths answer as before.
pub answer-insert :
    (now later : ℕ) (path other : Str) (meta : Option FileMeta) (c : MetadataCache)
    → answer later other (insert now path meta c) ≡ (
        if str_eq path other
        then (if ltb c.ttl (later - now) then none else some meta)
        else answer later other c)
unfolding get insert
answer-insert now later path other meta c =
    ground (arith, get-insert path other (record { meta = meta; inserted_at = now }) c.entries)

fresh_sound :
    (now : ℕ) (path : Str) (c : MetadataCache) (meta : Option FileMeta) (found : Option CacheEntry)
    → (fresh_or_drop now path c found).0 ≡ some meta
    → (at : ℕ) × (found ≡ some (record { meta = meta; inserted_at = at })) × (now ≤ at + c.ttl)
unfolding fresh_or_drop
fresh_sound now path c meta none h = cc
fresh_sound now path c meta (some entry) h = (entry.inserted_at, ground arith, ground arith)

-- An answer is an entry that was inserted under the path at most the time to live ago.
pub answer_sound :
    (now : ℕ) (path : Str) (c : MetadataCache) (meta : Option FileMeta)
    → answer now path c ≡ some meta
    → (at : ℕ) × (Map.get path c.entries ≡ some (record { meta = meta; inserted_at = at }))
      × (now ≤ at + c.ttl)
unfolding get
answer_sound now path c meta h = fresh_sound now path c meta (Map.get path c.entries) h

pub answer-invalidate :
    (now : ℕ) (path other : Str) (c : MetadataCache)
    → answer now other (invalidate path c)
      ≡ (if str_eq path other then none else answer now other c)
unfolding get invalidate
answer-invalidate now path other c = ground (arith, get-remove path other c.entries)

-- The test of `invalidate_prefix` is the one on names.
survives-path_of :
    (ps ns : List Str)
    → All IsName ps
    → All IsName ns
    → survives (path_of ps) (path_of ns) ≡ not (in_subtree ns ps)
unfolding survives
survives-path_of [] [] hp hn = refl
survives-path_of [] (n ∷ ns) hp hn = ground arith
survives-path_of (p ∷ ps) ns hp hn =
    ground (arith, ends_with-path_of p ps hp, is_under-path_of ns p ps hn hp)

-- `invalidate_prefix` at a directory forgets the directory and all that lies below it in the tree, and
-- leaves every other path's answer alone, siblings whose names begin alike too.
pub answer-invalidate_prefix :
    (now : ℕ) (ps ns : List Str) (c : MetadataCache)
    → All IsName ps
    → All IsName ns
    → answer now (path_of ns) (invalidate_prefix (path_of ps) c)
      ≡ (if in_subtree ns ps then none else answer now (path_of ns) c)
unfolding get invalidate_prefix
answer-invalidate_prefix now ps ns c hp hn =
    ground (
      arith,
      get-retain (survives (path_of ps)) (path_of ns) c.entries,
      survives-path_of ps ns hp hn,
    )
