-- ===== src/Refresh/Service/Outcome.antt =====
-- How a refresh ends, `OriginRefreshService::refresh_origin` of src/services/origin_refresh.rs.
use rendermesh.Base.{
  ◌≡◌, refl, ap, true, false, Option, none, some, Text, TextSet, get, member, add, member-add,
  member-discard, inl, inr, Bool-cases, arith, Result, ok, err,
}
use rendermesh.Base.Actions.{Ends}
use rendermesh.Refresh.Locks.{try_acquire, release}
use rendermesh.Refresh.Service.{
  OriginRefreshError, origin_not_found, already_running, failed, Origins, RefreshState, finished,
  refresh_locked, refresh_stored, refresh_origin,
}
use rendermesh.Refresh.Snapshot.{refresh_origin_snapshot}
use rendermesh.Refresh.Stores.{Host, Stores, SnapshotError, OriginSyncResponse}
use rendermesh.Refresh.Snapshot.Outcome.{IsUntouched, IsInstalled, refresh_origin_snapshot-Ends}
use rendermesh.Runtime.{set_error}
use rendermesh.Sync.{RemoteStorage}

member-release-add :
    (j k : Text) (active : TextSet)
    → member k active ≡ false
    → member j (release (add k active) k) ≡ member j active
unfolding release
member-release-add j k active h =
    ground (arith, member-discard j k (add k active), member-add j k active)

module _ {Disk Registry Time : Type 0} (host : Host Disk Registry Time)
    (message_of : SnapshotError → Text) (origins : Origins) (origin_id : Text) where
  -- The refresh answers what it did.
  abbrev pub Outcome :
      RefreshState Disk Registry Time
      → RefreshState Disk Registry Time × Result OriginRefreshError OriginSyncResponse
      → Type 0
  Outcome before (after, err origin_not_found) =
      (get origin_id origins.storage_by_origin ≡ none) × (after ≡ before)
  Outcome before (after, err already_running) =
      (member origin_id before.active ≡ true) × (after ≡ before)
  Outcome before (after, err (failed error)) =
      (after.stores.edge_configs ≡ before.stores.edge_configs)
      × (after.stores.templates ≡ before.stores.templates)
      × (after.stores.freshness_indexes ≡ before.stores.freshness_indexes)
      × (after.stores.origin_runtime
          ≡ set_error before.stores.origin_runtime origin_id (message_of error))
  Outcome before (after, ok response) =
      (storage : RemoteStorage) × (get origin_id origins.storage_by_origin ≡ some storage)
      × IsInstalled host origin_id (get origin_id origins.cdn_by_origin)
          (get origin_id origins.activation_barrier_by_origin) before.stores storage response
          after.stores

  -- The same origins are locked as before.
  abbrev pub Unlocked :
      TextSet
      → RefreshState Disk Registry Time × Result OriginRefreshError OriginSyncResponse
      → Type 0
  Unlocked active end = (j : Text) → member j ((end.0).active) ≡ member j active

  finished-Outcome :
      (before : RefreshState Disk Registry Time) (storage : RemoteStorage)
      (end : Stores Disk Registry Time × Result SnapshotError OriginSyncResponse)
      → get origin_id origins.storage_by_origin ≡ some storage
      → member origin_id before.active ≡ false
      → Ends
          (λ _ after.
            IsUntouched host origin_id
              (get origin_id origins.cdn_by_origin)
              (get origin_id origins.activation_barrier_by_origin)
              before.stores
              after)
          (IsInstalled host origin_id
            (get origin_id origins.cdn_by_origin)
            (get origin_id origins.activation_barrier_by_origin)
            before.stores
            storage)
          end
      → Unlocked before.active
          (finished host message_of origins origin_id (add origin_id before.active) end)
        × Outcome before
            (finished host message_of origins origin_id (add origin_id before.active) end)
  finished-Outcome before storage (stores, ok response) e free h =
      (λ j. member-release-add j origin_id before.active free, (storage, e, h))
  finished-Outcome before storage (stores, err error) e free h = (
    λ j. member-release-add j origin_id before.active free,
    (
      h.edge_configs,
      h.templates,
      h.freshness_indexes,
      ap (λ runtime. set_error runtime origin_id (message_of error)) h.origin_runtime,
    ),
  )

  refresh_locked-Outcome :
      (before : RefreshState Disk Registry Time) (storage : RemoteStorage)
      → get origin_id origins.storage_by_origin ≡ some storage
      → Unlocked before.active (
          refresh_locked host message_of origins origin_id storage before
            (try_acquire before.active origin_id))
        × Outcome before (
            refresh_locked host message_of origins origin_id storage before
              (try_acquire before.active origin_id))
  unfolding try_acquire
  refresh_locked-Outcome before storage e = elim (Bool-cases (member origin_id before.active)) [
    | inl busy ↦ rw busy ((λ j. refl), (busy, refl))
    | inr free ↦ rw free (
        finished-Outcome before storage
          (refresh_origin_snapshot host origin_id storage (get origin_id origins.cdn_by_origin)
            (get origin_id origins.activation_barrier_by_origin) before.stores)
          e free
          (refresh_origin_snapshot-Ends host origin_id (get origin_id origins.cdn_by_origin)
            (get origin_id origins.activation_barrier_by_origin) storage before.stores))
  ]

  refresh_stored-Outcome :
      (before : RefreshState Disk Registry Time) (storage : Option RemoteStorage)
      → get origin_id origins.storage_by_origin ≡ storage
      → Unlocked before.active (refresh_stored host message_of origins origin_id before storage)
        × Outcome before (refresh_stored host message_of origins origin_id before storage)
  refresh_stored-Outcome before none e = (λ j. refl, (e, refl))
  refresh_stored-Outcome before (some storage) e = refresh_locked-Outcome before storage e

  -- However a refresh ends, it leaves the same origins locked as before it. An origin without storage
  -- is not found, and one that is locked is already running: nothing changes. A refresh that fails
  -- leaves the edge configurations, the templates and the indexes, and only notes its error in the
  -- runtime store; one that succeeds has staged the origin's storage, activated it and installed what it
  -- loaded from it.
  pub refresh_origin-Outcome :
      (before : RefreshState Disk Registry Time)
      → Unlocked before.active (refresh_origin host message_of origins origin_id before)
        × Outcome before (refresh_origin host message_of origins origin_id before)
  unfolding refresh_origin
  refresh_origin-Outcome before =
      refresh_stored-Outcome before (get origin_id origins.storage_by_origin) refl
