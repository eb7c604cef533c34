-- ===== src/Runtime.antt =====
-- What is known of each origin at run time, src/services/origin_runtime.rs. The store behind the lock
-- is its map; the time of day that two operations read is an argument.
pub mod Snapshots
use rendermesh.Base.{ℕ, Option, none, some, List, [], ◌∷◌, Text, TextMap, get, insert}

pub record OriginSnapshotDebug : Type 0 where
  pub origin_id : Text
  pub generation : ℕ
  pub activated_at : Text
  pub captured_at : Text
  pub known_files : ℕ
  pub added_files : ℕ
  pub modified_files : ℕ
  pub removed_files : ℕ
  pub unchanged_files : ℕ
  pub downloaded_files : ℕ
  pub last_error : Option Text
  pub last_cdn_provider : Option Text
  pub last_cdn_status : Option Text
  pub last_cdn_request_id : Option Text
  pub last_cdn_request_ids : List Text
  pub last_cdn_refreshed_at : Option Text
  pub last_cdn_submitted_items : Option ℕ
  pub last_cdn_error : Option Text
  pub last_cdn_domain_provider : Option Text
  pub last_cdn_domain_status : Option Text
  pub last_cdn_domain_reconciled_at : Option Text
  pub last_cdn_domain_added : Option ℕ
  pub last_cdn_domain_updated : Option ℕ
  pub last_cdn_domain_removed : Option ℕ
  pub last_cdn_domain_unchanged : Option ℕ
  pub last_cdn_domain_error : Option Text

abbrev pub OriginRuntimeStore : Type 0
OriginRuntimeStore = TextMap OriginSnapshotDebug

-- The snapshot with what is known of the CDN from the previous one.
abbrev pub keep_cdn : Option OriginSnapshotDebug → OriginSnapshotDebug → OriginSnapshotDebug
keep_cdn none snapshot = snapshot
keep_cdn (some previous) snapshot = record snapshot {
  last_cdn_provider = previous.last_cdn_provider;
  last_cdn_status = previous.last_cdn_status;
  last_cdn_request_id = previous.last_cdn_request_id;
  last_cdn_request_ids = previous.last_cdn_request_ids;
  last_cdn_refreshed_at = previous.last_cdn_refreshed_at;
  last_cdn_submitted_items = previous.last_cdn_submitted_items;
  last_cdn_error = previous.last_cdn_error;
  last_cdn_domain_provider = previous.last_cdn_domain_provider;
  last_cdn_domain_status = previous.last_cdn_domain_status;
  last_cdn_domain_reconciled_at = previous.last_cdn_domain_reconciled_at;
  last_cdn_domain_added = previous.last_cdn_domain_added;
  last_cdn_domain_updated = previous.last_cdn_domain_updated;
  last_cdn_domain_removed = previous.last_cdn_domain_removed;
  last_cdn_domain_unchanged = previous.last_cdn_domain_unchanged;
  last_cdn_domain_error = previous.last_cdn_domain_error;
}

unfoldable pub set_snapshot : OriginRuntimeStore → OriginSnapshotDebug → OriginRuntimeStore
set_snapshot snapshots snapshot =
    let kept = keep_cdn (get snapshot.origin_id snapshots) snapshot in
    insert kept.origin_id kept snapshots

abbrev pub failed_snapshot : Text → Text → OriginSnapshotDebug
failed_snapshot origin_id error = record {
  origin_id = origin_id;
  generation = 0;
  activated_at = [];
  captured_at = [];
  known_files = 0;
  added_files = 0;
  modified_files = 0;
  removed_files = 0;
  unchanged_files = 0;
  downloaded_files = 0;
  last_error = some error;
  last_cdn_provider = none;
  last_cdn_status = none;
  last_cdn_request_id = none;
  last_cdn_request_ids = [];
  last_cdn_refreshed_at = none;
  last_cdn_submitted_items = none;
  last_cdn_error = none;
  last_cdn_domain_provider = none;
  last_cdn_domain_status = none;
  last_cdn_domain_reconciled_at = none;
  last_cdn_domain_added = none;
  last_cdn_domain_updated = none;
  last_cdn_domain_removed = none;
  last_cdn_domain_unchanged = none;
  last_cdn_domain_error = none;
}

abbrev pub with_error : Text → Text → Option OriginSnapshotDebug → OriginSnapshotDebug
with_error origin_id error none = failed_snapshot origin_id error
with_error origin_id error (some snapshot) = record snapshot { last_error = some error }

unfoldable pub set_error : OriginRuntimeStore → Text → Text → OriginRuntimeStore
set_error snapshots origin_id error =
    insert origin_id (with_error origin_id error (get origin_id snapshots)) snapshots

-- `if let Some(snapshot) = snapshots.get_mut(origin_id)`
unfoldable pub update :
    (OriginSnapshotDebug → OriginSnapshotDebug) → OriginRuntimeStore → Text → OriginRuntimeStore
update change snapshots origin_id = elim (get origin_id snapshots) [
  | none ↦ snapshots
  | some snapshot ↦ insert origin_id (change snapshot) snapshots
]

unfoldable pub set_cdn_result :
    Text
    → OriginRuntimeStore
    → Text
    → Text
    → Text
    → Option Text
    → List Text
    → ℕ
    → OriginRuntimeStore
unfolding update
set_cdn_result now snapshots origin_id provider status request_id request_ids submitted_items =
    update
      (λ snapshot. record snapshot {
        last_cdn_provider = some provider;
        last_cdn_status = some status;
        last_cdn_request_id = request_id;
        last_cdn_request_ids = request_ids;
        last_cdn_refreshed_at = some now;
        last_cdn_submitted_items = some submitted_items;
        last_cdn_error = none;
      })
      snapshots origin_id

unfoldable pub set_cdn_error : OriginRuntimeStore → Text → Text → OriginRuntimeStore
unfolding update
set_cdn_error snapshots origin_id error =
    update (λ snapshot. record snapshot { last_cdn_error = some error }) snapshots origin_id

unfoldable pub set_cdn_domain_result :
    Text → OriginRuntimeStore → Text → Text → Text → ℕ → ℕ → ℕ → ℕ → OriginRuntimeStore
unfolding update
set_cdn_domain_result now snapshots origin_id provider status added updated removed unchanged =
    update
      (λ snapshot. record snapshot {
        last_cdn_domain_provider = some provider;
        last_cdn_domain_status = some status;
        last_cdn_domain_reconciled_at = some now;
        last_cdn_domain_added = some added;
        last_cdn_domain_updated = some updated;
        last_cdn_domain_removed = some removed;
        last_cdn_domain_unchanged = some unchanged;
        last_cdn_domain_error = none;
      })
      snapshots origin_id

unfoldable pub set_cdn_domain_error : OriginRuntimeStore → Text → Text → OriginRuntimeStore
unfolding update
set_cdn_domain_error snapshots origin_id error =
    update (λ snapshot. record snapshot { last_cdn_domain_error = some error }) snapshots origin_id
