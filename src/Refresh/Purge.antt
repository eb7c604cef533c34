-- ===== src/Refresh/Purge.antt =====
-- What a refresh records of the purge behind an activation, src/services/origin_refresh.rs.
pub mod Generations
use rendermesh.Base.{
  ℕ, Bool, Option, none, some, List, [], ◌∷◌, Text, text, is_empty, if◌then◌else◌, Result, ok, err,
}
use rendermesh.Cdn.Plan.{
  OriginCdnRefresh, CdnRefreshOutcome, CdnRefreshFailure, RefreshError, refresh_failed,
  other_refresh_error, refresh_after_activation,
}
use rendermesh.Freshness.{OriginFreshnessDiff}
use rendermesh.Runtime.{OriginRuntimeStore, set_cdn_result, set_cdn_error}

-- `OriginSyncCdnResponse` of src/dto/origin_sync.rs.
pub record OriginSyncCdnResponse : Type 0 where
  pub provider : Text
  pub status : Text
  pub request_id : Option Text
  pub request_ids : List Text
  pub submitted_items : ℕ

abbrev pub first : List Text → Option Text
first [] = none
first (id ∷ ids) = some id

abbrev pub cdn_response : CdnRefreshOutcome → OriginSyncCdnResponse
cdn_response outcome = record {
  provider = outcome.provider;
  status = outcome.status;
  request_id = first outcome.request_ids;
  request_ids = outcome.request_ids;
  submitted_items = outcome.submitted_items;
}

-- `if let Some(failure) = … .filter(|failure| !failure.request_ids.is_empty())`
abbrev pub record_partial : Text → OriginRuntimeStore → Text → RefreshError → OriginRuntimeStore
record_partial now runtime origin_id (other_refresh_error message) = runtime
record_partial now runtime origin_id (refresh_failed failure) =
    if is_empty failure.request_ids
    then runtime
    else set_cdn_result now runtime origin_id failure.provider (text "partial_failure")
        (first failure.request_ids) failure.request_ids failure.submitted_items

abbrev pub refresh_message : RefreshError → Text
refresh_message (refresh_failed failure) = failure.message
refresh_message (other_refresh_error message) = message

-- The runtime store and the response after the purge.
unfoldable pub record_purge :
    Text
    → OriginRuntimeStore
    → Text
    → Result RefreshError (Option CdnRefreshOutcome)
    → OriginRuntimeStore × Option OriginSyncCdnResponse
record_purge now runtime origin_id (ok none) = (runtime, none)
record_purge now runtime origin_id (ok (some outcome)) = (
  set_cdn_result now runtime origin_id outcome.provider outcome.status (first outcome.request_ids)
      outcome.request_ids outcome.submitted_items,
  some (cdn_response outcome),
)
record_purge now runtime origin_id (err error) = (
  set_cdn_error (record_partial now runtime origin_id error) origin_id (refresh_message error),
  none,
)

unfoldable pub purge_activated :
    Text
    → OriginRuntimeStore
    → Text
    → ℕ
    → OriginFreshnessDiff
    → Option OriginCdnRefresh
    → OriginRuntimeStore × Option OriginSyncCdnResponse
unfolding record_purge
purge_activated now runtime origin_id generation diff none = (runtime, none)
purge_activated now runtime origin_id generation diff (some cdn) =
    record_purge now runtime origin_id (refresh_after_activation cdn origin_id generation diff)
