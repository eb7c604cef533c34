-- ===== src/Cdn/Plan.antt =====
-- What is purged after an activation, src/services/cdn_refresh.rs.
pub mod Coverage
use rendermesh.Base.{
  ℕ, ◌+◌, Bool, true, false, Option, none, some, List, [], ◌∷◌, ◌++◌, map, Text, text, TextSet,
  collect_set, length, is_empty, starts_with, trim_end_matches, if◌then◌else◌, Result, ok, err,
}
use rendermesh.Cdn.{
  CdnPurgeMode, purge_all, purge_paths, purge_urls, CdnPurgeRequest, CdnPurgeResult,
  CdnPurgeFailure, failure_message,
}
use rendermesh.Freshness.{OriginFreshnessDiff}
use rendermesh.Manifest.{CdnRefreshStrategy, changed_paths, all_paths}

pub data CdnRefreshMode : Type 0 where
  refresh_all : CdnRefreshMode
  refresh_paths refresh_urls : List Text → CdnRefreshMode

pub record CdnRefreshPlan : Type 0 where
  pub mode : CdnRefreshMode
  pub changed_count : ℕ

unfoldable pub format_cdn_path : Text → Text
format_cdn_path path = if starts_with path (text "/") then path else b'/' ∷ path

unfoldable pub format_url : Text → Text → Text
unfolding format_cdn_path
format_url prefix path = trim_end_matches b'/' prefix ++ format_cdn_path path

-- `changed_paths`: the formatted paths, in order and each once.
unfoldable pub purged_paths : OriginFreshnessDiff → List Text
purged_paths diff =
    collect_set [] (map format_cdn_path (diff.added ++ diff.modified ++ diff.removed))

unfoldable pub diff_changed_count : OriginFreshnessDiff → ℕ
diff_changed_count diff = length diff.added + length diff.modified + length diff.removed

-- `url_prefixes.iter().flat_map(…)`
unfoldable pub urls_of : List Text → List Text → List Text
urls_of [] paths = []
urls_of (prefix ∷ prefixes) paths = map (format_url prefix) paths ++ urls_of prefixes paths

-- The `match strategy`, for paths that are not empty.
abbrev pub plan_for :
    CdnRefreshStrategy → OriginFreshnessDiff → List Text → List Text → CdnRefreshPlan
plan_for all_paths diff prefixes paths = record { mode = refresh_all; changed_count = length paths }
plan_for changed_paths diff [] paths = record {
  mode = refresh_paths paths;
  changed_count = diff_changed_count diff;
}
plan_for changed_paths diff (prefix ∷ prefixes) paths = record {
  mode = refresh_urls (urls_of (prefix ∷ prefixes) paths);
  changed_count = diff_changed_count diff;
}

unfoldable pub build_cdn_refresh_plan :
    CdnRefreshStrategy → OriginFreshnessDiff → List Text → Option CdnRefreshPlan
build_cdn_refresh_plan strategy diff url_prefixes =
    let paths = purged_paths diff in
    if is_empty paths then none else some (plan_for strategy diff url_prefixes paths)

unfoldable pub purge_mode_from_refresh_mode : CdnRefreshMode → CdnPurgeMode
purge_mode_from_refresh_mode refresh_all = purge_all
purge_mode_from_refresh_mode (refresh_paths paths) = purge_paths paths
purge_mode_from_refresh_mode (refresh_urls urls) = purge_urls urls

pub record CdnRefreshOutcome : Type 0 where
  pub provider : Text
  pub request_ids : List Text
  pub status : Text
  pub submitted_items : ℕ
  pub changed_count : ℕ

pub record CdnRefreshFailure : Type 0 where
  pub provider : Text
  pub request_ids : List Text
  pub submitted_items : ℕ
  pub message : Text

-- An error of a purge: one that says what was submitted before, or another with its message.
pub data PurgeError : Type 0 where
  purge_failed : CdnPurgeFailure → PurgeError
  other_error : Text → PurgeError

pub data RefreshError : Type 0 where
  refresh_failed : CdnRefreshFailure → RefreshError
  other_refresh_error : Text → RefreshError

unfoldable pub translate_purge_error : PurgeError → RefreshError
translate_purge_error (purge_failed failure) = refresh_failed (record {
  provider = failure.provider;
  request_ids = failure.request_ids;
  submitted_items = failure.submitted_items;
  message = failure_message failure;
})
translate_purge_error (other_error message) = other_refresh_error message

-- `OriginCdnRefresh`, with the purge of its repository as a function.
pub record OriginCdnRefresh : Type 0 where
  pub purge : CdnPurgeRequest → Result PurgeError CdnPurgeResult
  pub strategy : CdnRefreshStrategy
  pub url_prefixes : List Text

abbrev pub outcome_of_purge :
    ℕ → Result PurgeError CdnPurgeResult → Result RefreshError (Option CdnRefreshOutcome)
outcome_of_purge changed_count (err error) = err (translate_purge_error error)
outcome_of_purge changed_count (ok result) = ok (
    some (record {
      provider = result.provider;
      request_ids = result.request_ids;
      status = result.status;
      submitted_items = result.submitted_items;
      changed_count = changed_count;
    }))

unfoldable pub refresh_after_activation :
    OriginCdnRefresh
    → Text
    → ℕ
    → OriginFreshnessDiff
    → Result RefreshError (Option CdnRefreshOutcome)
refresh_after_activation cdn origin_id generation diff =
    elim (build_cdn_refresh_plan cdn.strategy diff cdn.url_prefixes) [
      | none ↦ ok none
      | some plan ↦ outcome_of_purge plan.changed_count (
          cdn.purge (record {
            origin_id = origin_id;
            generation = generation;
            mode = purge_mode_from_refresh_mode plan.mode;
          }))
    ]
