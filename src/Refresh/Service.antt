-- ===== src/Refresh/Service.antt =====
-- `OriginRefreshService::refresh_origin` of src/services/origin_refresh.rs.
pub mod Outcome
use rendermesh.Base.{Option, none, some, Text, TextMap, TextSet, get, Result, ok, err}
use rendermesh.Cdn.Plan.{OriginCdnRefresh}
use rendermesh.Refresh.Locks.{try_acquire, release}
use rendermesh.Refresh.Snapshot.{refresh_origin_snapshot}
use rendermesh.Refresh.Stores.{Host, Stores, SnapshotError, OriginSyncResponse}
use rendermesh.Runtime.{set_error}
use rendermesh.Sync.{RemoteStorage}

pub data OriginRefreshError : Type 0 where
  origin_not_found already_running : OriginRefreshError
  failed : SnapshotError → OriginRefreshError

-- What each origin is configured with.
pub record Origins : Type 0 where
  pub storage_by_origin : TextMap RemoteStorage
  pub activation_barrier_by_origin : TextMap Text
  pub cdn_by_origin : TextMap OriginCdnRefresh

-- The shared stores and the origins that are being refreshed.
pub record RefreshState (Disk Registry Time : Type 0) : Type 0 where
  pub stores : Stores Disk Registry Time
  pub active : TextSet

module _ {Disk Registry Time : Type 0} (host : Host Disk Registry Time)
    (message_of : SnapshotError → Text) (origins : Origins) where
  -- The end of a refresh: an error is kept in the runtime store, and the guard is dropped.
  abbrev pub finished :
      Text
      → TextSet
      → Stores Disk Registry Time × Result SnapshotError OriginSyncResponse
      → RefreshState Disk Registry Time × Result OriginRefreshError OriginSyncResponse
  finished origin_id active (stores, ok response) =
      (record { stores = stores; active = release active origin_id }, ok response)
  finished origin_id active (stores, err error) = (
    record {
      stores = record stores {
        origin_runtime = set_error stores.origin_runtime origin_id (message_of error);
      };
      active = release active origin_id;
    },
    err (failed error),
  )

  abbrev pub refresh_locked :
      Text
      → RemoteStorage
      → RefreshState Disk Registry Time
      → Option TextSet
      → RefreshState Disk Registry Time × Result OriginRefreshError OriginSyncResponse
  refresh_locked origin_id storage state none = (state, err already_running)
  refresh_locked origin_id storage state (some active) = finished origin_id active (
      refresh_origin_snapshot host origin_id storage (get origin_id origins.cdn_by_origin)
        (get origin_id origins.activation_barrier_by_origin) state.stores)

  abbrev pub refresh_stored :
      Text
      → RefreshState Disk Registry Time
      → Option RemoteStorage
      → RefreshState Disk Registry Time × Result OriginRefreshError OriginSyncResponse
  refresh_stored origin_id state none = (state, err origin_not_found)
  refresh_stored origin_id state (some storage) =
      refresh_locked origin_id storage state (try_acquire state.active origin_id)

  unfoldable pub refresh_origin :
      Text
      → RefreshState Disk Registry Time
      → RefreshState Disk Registry Time × Result OriginRefreshError OriginSyncResponse
  unfolding refresh_origin_snapshot try_acquire release
  refresh_origin origin_id state =
      refresh_stored origin_id state (get origin_id origins.storage_by_origin)
