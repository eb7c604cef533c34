-- ===== src/Routes.antt =====
-- The routes that operators call, src/routes/system/origins.rs, with the error response of
-- src/dto/origin_sync.rs. A header has its value if that is visible ASCII (`to_str`).
pub mod Authorization
pub mod Render
use rendermesh.Base.{
  ℕ, Bool, true, false, Option, none, some, List, [], ◌∷◌, Text, text, TextMap, get, ◌===◌,
  if◌then◌else◌, strip_prefix, Result, ok, err, ◌>>=◌,
}
use rendermesh.Refresh.Service.{
  OriginRefreshError, origin_not_found, already_running, failed, Origins, RefreshState,
  refresh_origin,
}
use rendermesh.Refresh.Stores.{Host, SnapshotError, OriginSyncResponse}
use rendermesh.Runtime.{OriginSnapshotDebug, OriginRuntimeStore}

-- A status with an `OriginSyncErrorResponse`.
pub record ErrorReply : Type 0 where
  pub status : ℕ
  pub code : Text
  pub message : Text

pub data SyncReply : Type 0 where
  synced : OriginSyncResponse → SyncReply
  refused : ErrorReply → SyncReply

abbrev pub error_response : ℕ → Text → Text → ErrorReply
error_response status code message = record { status = status; code = code; message = message }

-- `headers.get(name)`
unfoldable pub header_value : Text → List (Text × Option Text) → Option (Option Text)
header_value name [] = none
header_value name ((other, value) ∷ headers) =
    let later = header_value name headers in if other === name then some value else later

abbrev pub check_token : Text → Option Text → Result ErrorReply (Unit {0})
check_token expected none = err (
    error_response 403 (text "invalid_authorization")
      (text "authorization header must use bearer token"))
check_token expected (some token) =
    if token === expected
    then ok tt
    else err (error_response 403 (text "invalid_token") (text "admin token is invalid"))

abbrev pub check_header : Text → Option (Option Text) → Result ErrorReply (Unit {0})
check_header expected none =
    err
      (error_response 401 (text "missing_authorization") (text "authorization header is required"))
check_header expected (some none) =
    err (error_response 403 (text "invalid_authorization") (text "authorization header is invalid"))
check_header expected (some (some value)) =
    check_token expected (strip_prefix value (text "Bearer "))

-- The first argument is the `admin_token` of the configuration.
unfoldable pub authorize_manual_sync :
    Option Text → List (Text × Option Text) → Result ErrorReply (Unit {0})
unfolding header_value
authorize_manual_sync none headers =
    err (error_response 403 (text "manual_sync_disabled") (text "manual sync is disabled"))
authorize_manual_sync (some expected) headers =
    check_header expected (header_value (text "authorization") headers)

unfoldable pub get_origin_snapshot : OriginRuntimeStore → Text → Result ℕ OriginSnapshotDebug
get_origin_snapshot origin_runtime origin_id = elim (get origin_id origin_runtime) [
  | none ↦ err 404
  | some snapshot ↦ ok snapshot
]

unfoldable pub list_origins : OriginRuntimeStore → List OriginSnapshotDebug
list_origins [] = []
list_origins ((origin_id, snapshot) ∷ snapshots) = snapshot ∷ list_origins snapshots

module _ {Disk Registry Time : Type 0} (host : Host Disk Registry Time)
    (message_of : SnapshotError → Text) where
  -- The arms of the `match` on the refresh.
  abbrev pub reply_of : Result OriginRefreshError OriginSyncResponse → SyncReply
  reply_of (ok response) = synced response
  reply_of (err origin_not_found) =
      refused (error_response 404 (text "origin_not_found") (text "origin not found"))
  reply_of (err already_running) =
      refused
        (error_response 409 (text "origin_sync_in_progress") (text "origin sync already running"))
  reply_of (err (failed error)) =
      refused (error_response 500 (text "origin_sync_failed") (message_of error))

  abbrev pub refresh_and_reply :
      Option Origins
      → Text
      → RefreshState Disk Registry Time
      → RefreshState Disk Registry Time × SyncReply
  refresh_and_reply none origin_id state = (
    state,
    refused (
        error_response 503 (text "origin_sync_unavailable")
          (text "origin refresh service is not available")),
  )
  refresh_and_reply (some origins) origin_id state =
      let end = refresh_origin host message_of origins origin_id state in (end.0, reply_of (end.1))

  abbrev pub unless_refused :
      Result ErrorReply (Unit {0})
      → RefreshState Disk Registry Time × SyncReply
      → RefreshState Disk Registry Time
      → RefreshState Disk Registry Time × SyncReply
  unless_refused (err reply) done state = (state, refused reply)
  unless_refused (ok allowed) done state = done

  -- The refresh service may be missing.
  unfoldable pub sync_origin :
      Option Text
      → Option Origins
      → Text
      → List (Text × Option Text)
      → RefreshState Disk Registry Time
      → RefreshState Disk Registry Time × SyncReply
  unfolding authorize_manual_sync refresh_origin
  sync_origin admin_token origin_refresh origin_id headers state =
      unless_refused (authorize_manual_sync admin_token headers)
        (refresh_and_reply origin_refresh origin_id state) state
