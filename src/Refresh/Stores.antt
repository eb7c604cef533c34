-- ===== src/Refresh/Stores.antt =====
-- What a refresh answers, the stores that it shares with the rest of the program, and what it uses
-- from outside: src/dto/origin_sync.rs and `refresh_origin_snapshot` of
-- src/services/origin_refresh.rs.
use rendermesh.Base.{ℕ, Option, List, Text, TextMap}
use rendermesh.Edge.{EdgeConfig}
use rendermesh.Freshness.{OriginFreshnessIndex}
use rendermesh.Gateway.Stores.{EdgeConfigStore}
use rendermesh.Refresh.{BarrierError}
use rendermesh.Refresh.EdgeConfigs.{LoadError}
use rendermesh.Refresh.Purge.{OriginSyncCdnResponse}
use rendermesh.Runtime.{OriginRuntimeStore}
use rendermesh.Sync.{FileSystem, SyncError}
use rendermesh.Templates.{TemplateEngine, TemplateLoadError}

-- `OriginSyncResponse` of src/dto/origin_sync.rs.
pub record OriginSyncResponse : Type 0 where
  pub origin_id : Text
  pub generation : ℕ
  pub activated_at : Text
  pub captured_at : Text
  pub known_files : ℕ
  pub added_files : ℕ
  pub modified_files : ℕ
  pub removed_files : ℕ
  pub unchanged_files : ℕ
  pub downloaded_files : ℕ
  pub cdn : Option OriginSyncCdnResponse

pub data SnapshotError : Type 0 where
  sync_failed : SyncError → SnapshotError
  barrier_refused : BarrierError → SnapshotError
  config_failed : LoadError → SnapshotError
  templates_failed : TemplateLoadError → SnapshotError
  discard_failed : SyncError → SnapshotError → SnapshotError

-- The stores that a refresh shares with the rest of the program, and the disk.
pub record Stores (Disk Registry Time : Type 0) : Type 0 where
  pub disk : Disk
  pub edge_configs : EdgeConfigStore
  pub templates : TextMap Registry
  pub freshness_indexes : TextMap (OriginFreshnessIndex Time)
  pub origin_runtime : OriginRuntimeStore

-- What the refresh uses from outside: the operating system, the libraries and the clock, with the
-- root of the mirrors and the fuel for walks over directories.
pub record Host (Disk Registry Time : Type 0) : Type 0 where
  pub fs : FileSystem Disk
  pub engine : TemplateEngine Registry
  pub from_utf8 : List ℕ → Option Text
  pub scheme_of : Text → Option Text
  pub parse_config : Text → Option EdgeConfig
  pub root : Text
  pub fuel : ℕ
  pub captured_at : Time
  pub activated_at : Text
  pub refreshed_at : Text
  pub to_rfc3339 : Time → Text
