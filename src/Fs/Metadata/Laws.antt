-- ===== src/Fs/Metadata/Laws.antt =====
-- src/fs.rs: what `fetch_meta` promises to the handlers.
use adbfs_rust.Base.{
  Str, Option, none, some, Result, ok, err, ℕ, ◌≡◌, refl, ap, ◌∙◌, nat_eq, text_eq,
}
use adbfs_rust.Base.Map.{}
use adbfs_rust.Cache
use adbfs_rust.Cache.Laws.{answer}
use adbfs_rust.Parse.Meta.{FileMeta}
use adbfs_rust.Ops.Messages.{DeviceError, not_found}
use adbfs_rust.Fs.State.{AdbFs, FsState}
use adbfs_rust.Fs.Metadata.{fetch_meta, fetch_from, cache_get}

-- The reply for an answer of the cache.
abbrev pub cached_reply : Str → Option FileMeta → Result DeviceError FileMeta
cached_reply path none = err (not_found path)
cached_reply path (some meta) = ok meta

module _ {W F : Type 0} (fs : AdbFs W F) where
  abbrev pub now_of : FsState W F → ℕ
  now_of s = fs.local.instant_now s.device.world

  hit :
      (path : Str) (s : FsState W F) (found : Option FileMeta)
      → fetch_from fs path (some found) s ≡ (ok (cached_reply path found), s)
  unfolding fetch_from
  hit path s none = refl
  hit path s (some meta) = refl

  -- Where the cache has an answer `fetch_meta` replies with it, a negative one as `NotFound`, and the
  -- state changes in nothing but the cache: the device is not asked.
  pub fetch_meta_cached :
      (path : Str) (s : FsState W F) (found : Option FileMeta)
      → answer (now_of s) path s.cache ≡ some found
      → fetch_meta fs path s
        ≡ (ok (cached_reply path found), record s { cache = (Cache.get (now_of s) path s.cache).1 })
  unfolding fetch_meta cache_get
  fetch_meta_cached path s found h =
      ap (λ a. fetch_from fs path a (record s { cache = (Cache.get (now_of s) path s.cache).1 })) h
      ∙ hit path (record s { cache = (Cache.get (now_of s) path s.cache).1 }) found
