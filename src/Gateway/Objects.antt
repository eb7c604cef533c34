-- ===== src/Gateway/Objects.antt =====
-- Serving objects: `read_object`, `serve_object…`, `serve_static_path…` and `handle_missing` of
-- src/services/render_gateway.rs.
pub mod Laws
use rendermesh.Base.{
  ℕ, Bool, true, false, not, ◌&&◌, ◌||◌, Option, none, some, List, [], ◌∷◌, Text, text, TextMap,
  get, insert, if◌then◌else◌, ltb, leb, unwrap_or, Result, ok, err, ◌>>=◌,
}
use rendermesh.Cors.{CorsPolicy, Url}
use rendermesh.Edge.{
  EdgeConfig, MissingAction, not_found, serve, redirect, MissingConfig, EdgeHookRequest,
  EdgeHookPayload,
}
use rendermesh.Edge.Rules.{auto_index_candidate}
use rendermesh.Gateway.Headers.{
  RenderResponse, empty_response, insert_header, insert_if_present, apply_headers,
  headers_from_metadata, not_found_text, is_reserved_rendermesh_path,
}
use rendermesh.Gateway.Stores.{
  EdgeConfigStore, Engine, TemplateStoreError, not_html, render_failed, render,
}
use rendermesh.Hosts.Resolver.{HostResolver}
use rendermesh.Mirror.{Files, LocalObject, MirrorError, read_object}
use rendermesh.ObjectPaths.{object_path}

-- What calling an edge hook gives: a response with its status and payload, a timeout, or another
-- error.
pub data HookReply (Value : Type 0) : Type 0 where
  replied : ℕ → EdgeHookPayload Value → HookReply Value
  timed_out failed : HookReply Value

-- What the gateway uses of the world outside the source. `call` is given how many hooks were called
-- before in the same request, so that equal requests may be answered differently.
pub record Platform (Registry Value : Type 0) : Type 0 where
  pub files : Files
  pub engine : Engine Registry Value
  pub parse_url : Text → Option Url
  pub parse_query : Text → TextMap Text
  pub call : ℕ → Text → ℕ → EdgeHookRequest Value → HookReply Value

-- `RenderGatewayService`: its fields, the mirror by its root.
pub record Service (Registry Value : Type 0) : Type 0 where
  pub resolver : HostResolver
  pub cors : CorsPolicy
  pub root : Text
  pub edge_configs : EdgeConfigStore
  pub templates : TextMap Registry
  pub origin_buckets : TextMap Text
  pub origin_edge_contexts : TextMap Value

pub data ObjectReadAccess : Type 0 where
  public internal : ObjectReadAccess

pub data GatewayError : Type 0 where
  mirror_failed : MirrorError → GatewayError
  invalid_status : ℕ → GatewayError

-- `StatusCode::from_u16`
unfoldable pub status_from_u16 : ℕ → Result GatewayError ℕ
status_from_u16 code = if leb 100 code && ltb code 1000 then ok code else err (invalid_status code)

abbrev pub from_mirror : {A : Type 0} → Result MirrorError A → Result GatewayError A
from_mirror (ok a) = ok a
from_mirror (err e) = err (mirror_failed e)

abbrev pub is_public : ObjectReadAccess → Bool
is_public public = true
is_public internal = false

module _ {Registry Value : Type 0} (env : Platform Registry Value)
    (gw : Service Registry Value) where
  -- `RenderGatewayService::read_object`
  unfoldable pub read_served_object :
      Text → Text → ObjectReadAccess → Result GatewayError (Option LocalObject)
  read_served_object origin_id path access =
      if is_public access && is_reserved_rendermesh_path path
      then ok none
      else elim (object_path gw.root origin_id path) [
        | err error ↦ ok none
        | ok file ↦
            if env.files.is_dir file
            then ok none
            else from_mirror (read_object env.files gw.root origin_id path)
      ]

  rendered : Text → Text → ℕ → TextMap Text → Value → RenderResponse
  rendered origin_id path status headers params =
      elim (render env.engine gw.templates origin_id path params) [
        | ok body ↦ record { status = status; headers = headers; body = body }
        | err not_html ↦ record { status = 415; headers = headers; body = [] }
        | err render_failed ↦ record { status = 502; headers = headers; body = [] }
      ]

  -- The response for an object that was read.
  unfoldable pub object_response :
      Text → Text → ℕ → Option Value → TextMap Text → LocalObject → RenderResponse
  unfolding rendered
  object_response origin_id path status params cors_headers object =
      let headers = apply_headers (headers_from_metadata object.metadata) cors_headers in
      elim params [
        | none ↦ record { status = status; headers = headers; body = object.body }
        | some values ↦ rendered origin_id path status headers values
      ]

  unfoldable pub serve_object_with_options :
      Text
      → Text
      → ℕ
      → Option Value
      → TextMap Text
      → ObjectReadAccess
      → Result GatewayError (Option RenderResponse)
  serve_object_with_options origin_id path status params cors_headers access =
      read_served_object origin_id path access >>= λ found. elim found [
        | none ↦ ok none
        | some object ↦ ok (some (object_response origin_id path status params cors_headers object))
      ]

  unfoldable pub serve_static_path_with_options :
      Text
      → EdgeConfig
      → Text
      → ℕ
      → Option Value
      → TextMap Text
      → ObjectReadAccess
      → Result GatewayError (Option RenderResponse)
  serve_static_path_with_options origin_id config path status params cors_headers access =
      serve_object_with_options origin_id path status params cors_headers access >>= λ served.
      elim served [
        | some response ↦ ok (some response)
        | none ↦
            if config.edge.auto_rewrite_index
            then serve_object_with_options origin_id (auto_index_candidate path) status params
                cors_headers access
            else ok none
      ]

  -- The `NotFound` case of `handle_missing`.
  missing_page : Text → Option Text → TextMap Text → Result GatewayError (Option RenderResponse)
  missing_page origin_id none cors_headers = ok (some (not_found_text cors_headers))
  missing_page origin_id (some page) cors_headers =
      serve_object_with_options origin_id page 404 none cors_headers public >>= λ served.
      elim served [
        | some response ↦ ok (some (record response { status = 404 }))
        | none ↦ ok (some (not_found_text cors_headers))
      ]

  missing_path : Text → Option Text → TextMap Text → Result GatewayError (Option RenderResponse)
  missing_path origin_id none cors_headers = ok (some (not_found_text cors_headers))
  missing_path origin_id (some path) cors_headers =
      serve_object_with_options origin_id path 200 none cors_headers public

  -- `status.map(StatusCode::from_u16).transpose()?.unwrap_or(StatusCode::FOUND)`
  missing_status : Option ℕ → Result GatewayError ℕ
  missing_status none = ok 302
  missing_status (some status) = status_from_u16 status

  missing_action :
      MissingAction
      → Text
      → MissingConfig
      → TextMap Text
      → Result GatewayError (Option RenderResponse)
  missing_action not_found origin_id missing cors_headers =
      missing_page origin_id missing.page cors_headers
  missing_action serve origin_id missing cors_headers =
      missing_path origin_id missing.path cors_headers
  missing_action redirect origin_id missing cors_headers =
      missing_status missing.status >>= λ status. ok (
        some (record {
          status = status;
          headers = apply_headers (insert_if_present [] (text "location") missing.to) cors_headers;
          body = [];
        }))

  unfoldable pub handle_missing :
      Text → EdgeConfig → TextMap Text → Result GatewayError (Option RenderResponse)
  unfolding missing_action missing_page missing_path missing_status
  handle_missing origin_id config cors_headers =
      missing_action config.missing.action origin_id config.missing cors_headers
