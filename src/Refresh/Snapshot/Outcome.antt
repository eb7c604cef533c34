-- ===== src/Refresh/Snapshot/Outcome.antt =====
-- What a refresh leaves behind, `refresh_origin_snapshot` of src/services/origin_refresh.rs.
use rendermesh.Base.{
  ◌≡◌, refl, sym, subst, ◌∙◌, Option, some, Text, get, insert, Result, ok, err, IfOk,
}
use rendermesh.Base.Actions.{Action, Ends, Ends-any, follow}
use rendermesh.Cdn.Plan.{OriginCdnRefresh}
use rendermesh.Edge.{EdgeConfig}
use rendermesh.Edge.Config.WellFormed.{IsWellFormed}
use rendermesh.Freshness.{diff_origin_indexes}
use rendermesh.Gateway.Stores.{set_valid}
use rendermesh.Refresh.{validate_activation_barrier}
use rendermesh.Refresh.Purge.Generations.{
  generation_of, set_snapshot-generation, purge_activated-generation,
}
use rendermesh.Refresh.Snapshot.{
  of_sync, next_generation, discard_refused, snapshot_of, install, activate,
  refresh_origin_snapshot,
}
use rendermesh.Refresh.Snapshot.Preparation.{IsFromMirror, IsPrepared, IfOk-prepare}
use rendermesh.Refresh.Stores.{Host, Stores, SnapshotError, OriginSyncResponse}
use rendermesh.Runtime.{set_snapshot}
use rendermesh.Sync.{RemoteStorage, StagedOriginSync, SyncError}
use rendermesh.Sync.Staging.{stage_origin_sync}
use rendermesh.Sync.Staging.Difference.{IsStaged, stage_origin_sync-Ends}
use rendermesh.Sync.Swap.{activate_staged_origin, discard_staged_origin}
use rendermesh.Templates.{set_origin_registry}

module _ {Disk Registry Time : Type 0} (host : Host Disk Registry Time) (origin_id : Text)
    (cdn_refresh : Option OriginCdnRefresh) (barrier : Option Text) where
  -- All stores are as they were; only the disk may differ.
  pub record IsUntouched (before after : Stores Disk Registry Time) : Type 0 where
    pub edge_configs : after.edge_configs ≡ before.edge_configs
    pub templates : after.templates ≡ before.templates
    pub freshness_indexes : after.freshness_indexes ≡ before.freshness_indexes
    pub origin_runtime : after.origin_runtime ≡ before.origin_runtime

  -- What was staged stands on the disk, and its index in the stores with the configuration and the
  -- registry that come from it.
  pub record IsInstalled (before : Stores Disk Registry Time) (storage : RemoteStorage)
      (response : OriginSyncResponse) (after : Stores Disk Registry Time) : Type 0 where
    pub config : EdgeConfig
    pub registry : Registry
    pub staged : StagedOriginSync Time
    pub staged_disk : Disk
    pub staging :
        stage_origin_sync host.fs host.root host.fuel storage host.captured_at origin_id
          (get origin_id before.freshness_indexes)
          before.disk
        ≡ (staged_disk, ok staged)
    pub activation :
        activate_staged_origin host.fs host.root staged staged_disk ≡ (after.disk, ok tt)
    pub well_formed : IsWellFormed host.scheme_of config
    pub mirror :
        IsFromMirror host origin_id before staged.staging_dir staged_disk
          (diff_origin_indexes (get origin_id before.freshness_indexes) staged.index)
          config
          registry
    pub barrier_passed :
        validate_activation_barrier
          (get origin_id before.freshness_indexes)
          staged.index
          (diff_origin_indexes (get origin_id before.freshness_indexes) staged.index)
          barrier
        ≡ ok tt
    pub edge_configs : after.edge_configs ≡ set_valid before.edge_configs origin_id config
    pub templates : after.templates ≡ set_origin_registry before.templates origin_id registry
    pub freshness_indexes :
        after.freshness_indexes ≡ insert origin_id staged.index before.freshness_indexes
    pub generation : response.generation ≡ next_generation (get origin_id before.origin_runtime)
    pub runtime_generation :
        generation_of (get origin_id after.origin_runtime) ≡ some response.generation

  untouched :
      (before : Stores Disk Registry Time) (disk : Disk)
      → IsUntouched before (record before { disk = disk })
  untouched before disk = record {
    edge_configs = refl;
    templates = refl;
    freshness_indexes = refl;
    origin_runtime = refl;
  }

  abbrev IsDone :
      RemoteStorage
      → Stores Disk Registry Time
      → Stores Disk Registry Time × Result SnapshotError OriginSyncResponse
      → Type 0
  IsDone storage before = Ends (λ _ after. IsUntouched before after) (IsInstalled before storage)

  -- A step on the disk goes on with the other stores as they were, or ends the refresh.
  module _ {A : Type 0} (P : A → Disk → Type 0) (storage : RemoteStorage)
      (before : Stores Disk Registry Time)
      (next : A → Action (Stores Disk Registry Time) SnapshotError OriginSyncResponse) where
    on_disk-IsDone :
        (end : Disk × Result SyncError A)
        → Ends (λ _ _. Unit {0}) P end
        → ((a : A) (disk : Disk)
            → end ≡ (disk, ok a)
            → P a disk
            → IsDone storage before (next a (record before { disk = disk })))
        → IsDone storage before (follow (record before { disk = end.0 }, of_sync (end.1)) next)
    on_disk-IsDone (disk, ok a) p h = h a disk refl p
    on_disk-IsDone (disk, err error) p h = untouched before disk

  abbrev IsStagedAt :
      RemoteStorage → Stores Disk Registry Time → Disk → StagedOriginSync Time → Type 0
  IsStagedAt storage before disk staged =
      stage_origin_sync host.fs host.root host.fuel storage host.captured_at origin_id
        (get origin_id before.freshness_indexes) before.disk
      ≡ (disk, ok staged)

  install-IsDone :
      (storage : RemoteStorage) (before : Stores Disk Registry Time) (disk now : Disk)
      (staged : StagedOriginSync Time) (config : EdgeConfig) (registry : Registry)
      → IsStagedAt storage before disk staged
      → activate_staged_origin host.fs host.root staged disk ≡ (now, ok tt)
      → staged.diff ≡ diff_origin_indexes (get origin_id before.freshness_indexes) staged.index
      → IsPrepared host origin_id barrier before disk staged (config, registry)
      → IsDone storage before (
          install host origin_id cdn_refresh staged
            (snapshot_of host origin_id
              (next_generation (get origin_id before.origin_runtime))
              staged)
            config
            registry
            (record before { disk = now }))
  unfolding install snapshot_of
  install-IsDone storage before disk now staged config registry staging activation same
        (well_formed, passed, mirror) =
      let snapshot =
        snapshot_of host origin_id (next_generation (get origin_id before.origin_runtime)) staged in
      record {
        config = config;
        registry = registry;
        staged = staged;
        staged_disk = disk;
        staging = staging;
        activation = activation;
        well_formed = well_formed;
        mirror =
            subst
              (λ diff.
                IsFromMirror host origin_id before staged.staging_dir disk diff config registry)
              same mirror;
        barrier_passed = rw (sym same) passed;
        edge_configs = refl;
        templates = refl;
        freshness_indexes = refl;
        generation = refl;
        runtime_generation =
            purge_activated-generation host.refreshed_at
              (set_snapshot before.origin_runtime snapshot) origin_id snapshot.generation
              staged.diff cdn_refresh
            ∙ set_snapshot-generation before.origin_runtime snapshot;
      }

  discard_refused-IsDone :
      (storage : RemoteStorage) (before : Stores Disk Registry Time) (disk : Disk)
      (staged : StagedOriginSync Time) (prepared : Result SnapshotError (EdgeConfig × Registry))
      → IsStagedAt storage before disk staged
      → staged.diff ≡ diff_origin_indexes (get origin_id before.freshness_indexes) staged.index
      → IfOk (IsPrepared host origin_id barrier before disk staged) prepared
      → IsDone storage before (
          follow
            (discard_refused host staged prepared (record before { disk = disk }))
            (activate host origin_id cdn_refresh staged))
  unfolding discard_refused
  discard_refused-IsDone storage before disk staged (ok (config, registry)) staging same p =
      on_disk-IsDone (λ _ _. Unit) storage before _
        (activate_staged_origin host.fs host.root staged disk)
        (Ends-any (activate_staged_origin host.fs host.root staged disk))
        (λ _ now activation _.
          install-IsDone storage before disk now staged config registry staging activation same p)
  discard_refused-IsDone storage before disk staged (err error) staging same p =
      untouched before ((discard_staged_origin host.fs staged disk).0)

  -- A refresh that fails leaves the edge configurations, the templates, the indexes and the runtime
  -- store as they were. One that succeeds has staged the origin from its storage and activated what it
  -- staged; it has put an edge configuration, a template registry and the staged index of the origin
  -- into the stores, and nothing of other origins: the configuration is well formed, it was loaded, and
  -- the templates were compiled, from the staged directory as it stood on the disk, by the difference
  -- of the previous index and the staged one, and the barrier accepts that difference. The generation
  -- that it answers is the one after the previous generation and is the one in the runtime store,
  -- whatever the purge of the CDN answered.
  pub refresh_origin_snapshot-Ends :
      (storage : RemoteStorage) (before : Stores Disk Registry Time)
      → Ends
          (λ _ after. IsUntouched before after)
          (IsInstalled before storage)
          (refresh_origin_snapshot host origin_id storage cdn_refresh barrier before)
  unfolding refresh_origin_snapshot
  refresh_origin_snapshot-Ends storage before =
      let previous = get origin_id before.freshness_indexes in
      on_disk-IsDone
        (IsStaged host.fs host.root host.fuel storage host.captured_at origin_id previous) storage
        before _
        (stage_origin_sync host.fs host.root host.fuel storage host.captured_at origin_id previous
          before.disk)
        (stage_origin_sync-Ends host.fs host.root host.fuel storage host.captured_at origin_id
          previous before.disk)
        (λ staged disk staging same.
          discard_refused-IsDone storage before disk staged _ staging same
            (IfOk-prepare host origin_id barrier before disk staged))
