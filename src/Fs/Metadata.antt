-- ===== src/Fs/Metadata.antt =====
-- src/fs.rs: `fetch_meta`, which asks the cache before the device, and the cache's other uses.
pub mod Laws
use adbfs_rust.Base.{Str, Bool, if◌then◌else◌, Option, none, some, Result, ok, err, panicked, ℕ}
use adbfs_rust.Base.Exec.{Exec, pure, continue, gets, ◌>>=◌, ◌>>◌}
use adbfs_rust.Cache
use adbfs_rust.Parse.Meta.{FileMeta}
use adbfs_rust.Ops.Messages.{DeviceError, not_found}
use adbfs_rust.Ops.Listing.{get_metadata}
use adbfs_rust.Fs.State.{AdbFs, FsState, Fs, on_device}

module _ {W F : Type 0} (fs : AdbFs W F) where
  unfoldable pub cache_get : Str → Fs W F (Option (Option FileMeta))
  cache_get path s =
      let (found, cache) = Cache.get (fs.local.instant_now s.device.world) path s.cache in
      (ok found, record s { cache = cache })

  unfoldable pub cache_insert : Str → Option FileMeta → Fs W F (Unit {0})
  cache_insert path meta s = (
    ok tt,
    record s { cache = Cache.insert (fs.local.instant_now s.device.world) path meta s.cache },
  )

  unfoldable pub cache_invalidate : Str → Fs W F (Unit {0})
  cache_invalidate path s = (ok tt, record s { cache = Cache.invalidate path s.cache })

  unfoldable pub cache_invalidate_prefix : Str → Fs W F (Unit {0})
  cache_invalidate_prefix prefix s =
      (ok tt, record s { cache = Cache.invalidate_prefix prefix s.cache })

  -- What is cached of the device's answer: the metadata, or that there is no such file.
  unfoldable pub remember : Str → Result DeviceError FileMeta → Fs W F (Result DeviceError FileMeta)
  unfolding cache_insert
  remember path (ok meta) = do cache_insert path (some meta); pure (ok meta)
  remember path (err (not_found p)) = do cache_insert path none; pure (err (not_found p))
  remember path r = pure r

  unfoldable pub fetch_from : Str → Option (Option FileMeta) → Fs W F (Result DeviceError FileMeta)
  unfolding remember on_device
  fetch_from path (some (some meta)) = pure (ok meta)
  fetch_from path (some none) = pure (err (not_found path))
  fetch_from path none = do answer ← on_device (get_metadata fs.ops path); remember path answer

  -- The device's error stays a value: `lookup` looks at it.
  unfoldable pub fetch_meta : Str → Fs W F (Result DeviceError FileMeta)
  unfolding cache_get fetch_from
  fetch_meta path = do found ← cache_get path; fetch_from path found
