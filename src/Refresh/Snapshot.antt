-- ===== src/Refresh/Snapshot.antt =====
-- `refresh_origin_snapshot` of src/services/origin_refresh.rs: what one refresh does to the stores
-- and the disk. The clock and the operating system are parameters.
pub mod Preparation
pub mod Outcome
use rendermesh.Base.{
  ℕ, suc, Bool, true, false, Option, none, some, List, [], ◌∷◌, Text, text, TextMap, get, insert,
  length, is_empty, if◌then◌else◌, Result, ok, err, ◌>>=◌,
}
use rendermesh.Base.Actions.{Action, then_run, pure, checked}
use rendermesh.Cdn.Plan.{OriginCdnRefresh}
use rendermesh.Edge.{EdgeConfig}
use rendermesh.Freshness.{OriginFreshnessIndex, OriginFreshnessDiff}
use rendermesh.Gateway.Stores.{EdgeConfigStore, set_valid}
use rendermesh.Mirror.{Files}
use rendermesh.Refresh.{BarrierError, validate_activation_barrier}
use rendermesh.Refresh.EdgeConfigs.{LoadError, staged_origin_mirror, load_origin_edge_config}
use rendermesh.Refresh.Purge.{OriginSyncCdnResponse, purge_activated}
use rendermesh.Refresh.Stores.{
  OriginSyncResponse, SnapshotError, sync_failed, barrier_refused, config_failed, templates_failed,
  discard_failed, Stores, Host,
}
use rendermesh.Runtime.{OriginSnapshotDebug, OriginRuntimeStore, set_snapshot}
use rendermesh.Sync.{FileSystem, RemoteStorage, StagedOriginSync, SyncError}
use rendermesh.Sync.Staging.{stage_origin_sync}
use rendermesh.Sync.Swap.{activate_staged_origin, discard_staged_origin}
use rendermesh.Templates.{
  TemplateEngine, TemplateLoadError, compile_template_update_from_mirror, set_origin_registry,
}

abbrev pub of_sync : {A : Type 0} → Result SyncError A → Result SnapshotError A
of_sync (ok a) = ok a
of_sync (err e) = err (sync_failed e)

abbrev pub of_barrier : {A : Type 0} → Result BarrierError A → Result SnapshotError A
of_barrier (ok a) = ok a
of_barrier (err e) = err (barrier_refused e)

abbrev pub of_config : {A : Type 0} → Result LoadError A → Result SnapshotError A
of_config (ok a) = ok a
of_config (err e) = err (config_failed e)

abbrev pub of_templates : {A : Type 0} → Result TemplateLoadError A → Result SnapshotError A
of_templates (ok a) = ok a
of_templates (err e) = err (templates_failed e)

-- The error of the preparation, with that of discarding the staged origin.
abbrev pub kept_error : SnapshotError → Result SyncError (Unit {0}) → SnapshotError
kept_error error (ok done) = error
kept_error error (err e) = discard_failed e error

-- The generation after that of the snapshot, if there is one.
abbrev pub next_generation : Option OriginSnapshotDebug → ℕ
next_generation none = 1
next_generation (some snapshot) = suc snapshot.generation

module _ {Disk Registry Time : Type 0} (host : Host Disk Registry Time) where
  abbrev pub on_disk :
      {A : Type 0} → Action Disk SyncError A → Action (Stores Disk Registry Time) SnapshotError A
  on_disk action stores =
      (record stores { disk = (action stores.disk).0 }, of_sync ((action stores.disk).1))

  -- What is loaded and compiled from the staged mirror before it is activated.
  unfoldable pub prepare :
      Stores Disk Registry Time
      → Text
      → Option (OriginFreshnessIndex Time)
      → Option Text
      → StagedOriginSync Time
      → Result SnapshotError (EdgeConfig × Registry)
  prepare stores origin_id previous barrier staged =
      let files = (host.fs).files stores.disk in
      of_barrier (validate_activation_barrier previous staged.index staged.diff barrier) >>= λ _.
      of_config (
        staged_origin_mirror ((host.fs).parent staged.staging_dir)
          ((host.fs).file_name staged.staging_dir))
      >>= λ (root, stage_id).
          of_config (
            load_origin_edge_config host.scheme_of host.parse_config host.from_utf8 files root
              stage_id)
          >>= λ config.
              of_templates (
                compile_template_update_from_mirror host.engine host.from_utf8 stores.templates
                  origin_id stage_id files root staged.diff)
              >>= λ registry. ok (config, registry)

  -- A staged origin that is refused is discarded.
  unfoldable pub discard_refused :
      {A : Type 0}
      → StagedOriginSync Time
      → Result SnapshotError A
      → Action (Stores Disk Registry Time) SnapshotError A
  discard_refused staged (ok a) stores = (stores, ok a)
  discard_refused staged (err error) stores =
      let (disk, discarded) = discard_staged_origin host.fs staged stores.disk in
      (record stores { disk = disk }, err (kept_error error discarded))

  unfoldable pub snapshot_of : Text → ℕ → StagedOriginSync Time → OriginSnapshotDebug
  snapshot_of origin_id generation staged = record {
    origin_id = origin_id;
    generation = generation;
    activated_at = host.activated_at;
    captured_at = host.to_rfc3339 staged.index.captured_at;
    known_files = length staged.index.files;
    added_files = length staged.diff.added;
    modified_files = length staged.diff.modified;
    removed_files = length staged.diff.removed;
    unchanged_files = length staged.diff.unchanged;
    downloaded_files = staged.report.downloaded;
    last_error = none;
    last_cdn_provider = none;
    last_cdn_status = none;
    last_cdn_request_id = none;
    last_cdn_request_ids = [];
    last_cdn_refreshed_at = none;
    last_cdn_submitted_items = none;
    last_cdn_error = none;
    last_cdn_domain_provider = none;
    last_cdn_domain_status = none;
    last_cdn_domain_reconciled_at = none;
    last_cdn_domain_added = none;
    last_cdn_domain_updated = none;
    last_cdn_domain_removed = none;
    last_cdn_domain_unchanged = none;
    last_cdn_domain_error = none;
  }

  abbrev pub response_of : OriginSnapshotDebug → Option OriginSyncCdnResponse → OriginSyncResponse
  response_of snapshot cdn = record {
    origin_id = snapshot.origin_id;
    generation = snapshot.generation;
    activated_at = snapshot.activated_at;
    captured_at = snapshot.captured_at;
    known_files = snapshot.known_files;
    added_files = snapshot.added_files;
    modified_files = snapshot.modified_files;
    removed_files = snapshot.removed_files;
    unchanged_files = snapshot.unchanged_files;
    downloaded_files = snapshot.downloaded_files;
    cdn = cdn;
  }

  -- What follows the activation: the stores are set, and the CDN is purged.
  unfoldable pub install :
      Text
      → Option OriginCdnRefresh
      → StagedOriginSync Time
      → OriginSnapshotDebug
      → EdgeConfig
      → Registry
      → Action (Stores Disk Registry Time) SnapshotError OriginSyncResponse
  unfolding purge_activated
  install origin_id cdn_refresh staged snapshot config registry stores =
      let runtime = set_snapshot stores.origin_runtime snapshot in
      let purged =
        purge_activated host.refreshed_at runtime origin_id snapshot.generation staged.diff
          cdn_refresh in
      (
        record {
          disk = stores.disk;
          edge_configs = set_valid stores.edge_configs origin_id config;
          templates = set_origin_registry stores.templates origin_id registry;
          freshness_indexes = insert origin_id staged.index stores.freshness_indexes;
          origin_runtime = purged.0;
        },
        ok (response_of snapshot (purged.1)),
      )

  abbrev pub activate :
      Text
      → Option OriginCdnRefresh
      → StagedOriginSync Time
      → EdgeConfig × Registry
      → Action (Stores Disk Registry Time) SnapshotError OriginSyncResponse
  activate origin_id cdn_refresh staged (config, registry) stores =
      let generation = next_generation (get origin_id stores.origin_runtime) in
      then_run (on_disk (activate_staged_origin host.fs host.root staged))
        (λ _.
          install origin_id cdn_refresh staged (snapshot_of origin_id generation staged) config
            registry)
        stores

  unfoldable pub refresh_origin_snapshot :
      Text
      → RemoteStorage
      → Option OriginCdnRefresh
      → Option Text
      → Action (Stores Disk Registry Time) SnapshotError OriginSyncResponse
  unfolding prepare discard_refused install
  refresh_origin_snapshot origin_id storage cdn_refresh barrier stores =
      let previous = get origin_id stores.freshness_indexes in
      then_run
        (on_disk (
          stage_origin_sync host.fs host.root host.fuel storage host.captured_at origin_id
            previous))
        (λ staged.
          then_run
            (λ now. discard_refused staged (prepare now origin_id previous barrier staged) now)
            (activate origin_id cdn_refresh staged))
        stores
