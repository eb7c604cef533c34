-- ===== src/Gateway/Handler.antt =====
-- `handle`: one request from its host to its response, src/services/render_gateway.rs.
use rendermesh.Base.{
  ℕ, not, ◌&&◌, Option, none, some, [], Text, text, TextMap, ◌===◌, unwrap_or, if◌then◌else◌,
  Result, ok, err, ◌>>=◌,
}
use rendermesh.Cors.{allowed_origin_for}
use rendermesh.Edge.{EdgeConfig}
use rendermesh.Edge.Rules.{RedirectDecision, find_redirect}
use rendermesh.Gateway.Chain.{EdgeChainResult, handle_edge_chain, resolve_request_target}
use rendermesh.Gateway.Headers.{
  headers_if_allowed, RenderRequest, RenderResponse, empty_response, insert_header,
  insert_if_present, apply_headers, combined_response_headers, not_found_text, request_header,
  finalize_response,
}
use rendermesh.Gateway.Objects.{
  Platform, Service, public, GatewayError, status_from_u16, serve_static_path_with_options,
  handle_missing,
}
use rendermesh.Gateway.Stores.{get_config}
use rendermesh.Hosts.Resolver.{ResolvedHost, resolve}

module _ {Registry Value : Type 0} (env : Platform Registry Value)
    (gw : Service Registry Value) where
  abbrev pub allowed_for : Text → Option Text → Option Text
  allowed_for origin_id none = none
  allowed_for origin_id (some origin) = allowed_origin_for env.parse_url gw.cors origin_id origin

  -- The origin that a response to the request allows, if any.
  unfoldable pub allowed_origin : Text → RenderRequest → Option Text
  allowed_origin origin_id request = allowed_for origin_id (request_header request (text "origin"))

  unfoldable pub cors_headers_for : Text → RenderRequest → TextMap Text
  unfolding allowed_origin
  cors_headers_for origin_id request = headers_if_allowed (allowed_origin origin_id request)

  -- The answer to `OPTIONS`.
  unfoldable pub preflight_response : RenderRequest → TextMap Text → RenderResponse
  preflight_response request cors_headers =
      let answered =
        insert_header (apply_headers [] cors_headers) (text "access-control-allow-methods")
          (text "GET, HEAD, OPTIONS") in
      record {
        status = 204;
        headers =
            insert_if_present answered (text "access-control-allow-headers")
              (request_header request (text "access-control-request-headers"));
        body = [];
      }

  unfoldable pub bare_response : ℕ → TextMap Text → RenderResponse
  bare_response status cors_headers = record {
    status = status;
    headers = apply_headers [] cors_headers;
    body = [];
  }

  module _ (request : RenderRequest) (resolved : ResolvedHost) (config : EdgeConfig) where
    unfoldable pub redirect_response :
        RedirectDecision → TextMap Text → Result GatewayError RenderResponse
    redirect_response redirect response_headers = status_from_u16 redirect.status >>= λ status. ok (
        finalize_response
          (record {
            status = status;
            headers =
                apply_headers (insert_header [] (text "location") redirect.location)
                  response_headers;
            body = [];
          })
          request)

    -- Nothing was served.
    unfoldable pub missing_response : TextMap Text → Result GatewayError RenderResponse
    missing_response response_headers =
        handle_missing env gw resolved.origin_id config response_headers >>= λ found.
        ok (finalize_response (unwrap_or found (not_found_text response_headers)) request)

    unfoldable pub served_response :
        TextMap Text → Option RenderResponse → Result GatewayError RenderResponse
    served_response response_headers (some response) = ok (finalize_response response request)
    served_response response_headers none = missing_response response_headers

    unfoldable pub static_response : TextMap Text → Result GatewayError RenderResponse
    static_response response_headers =
        serve_static_path_with_options env gw resolved.origin_id config
          (resolve_request_target config request.path) 200 none response_headers public
        >>= served_response response_headers

    -- The part of `handle_inner` behind the edge chain.
    unfoldable pub after_chain : TextMap Text → EdgeChainResult → Result GatewayError RenderResponse
    unfolding static_response served_response missing_response
    after_chain cors_headers (some response, edge_headers) = ok response
    after_chain cors_headers (none, edge_headers) =
        let response_headers = combined_response_headers edge_headers cors_headers in
        elim (find_redirect config request.path request.query) [
          | some redirect ↦ redirect_response redirect response_headers
          | none ↦ static_response response_headers
        ]

  -- A `GET` or `HEAD` for an origin with these CORS headers.
  unfoldable pub handle_read :
      RenderRequest → ResolvedHost → TextMap Text → Result GatewayError RenderResponse
  handle_read request resolved cors_headers = elim (get_config gw.edge_configs resolved.origin_id) [
    | err error ↦ ok (bare_response 500 cors_headers)
    | ok config ↦
        handle_edge_chain env gw request resolved config cors_headers
        >>= after_chain request resolved config cors_headers
  ]

  unfoldable pub handle_resolved : RenderRequest → ResolvedHost → Result GatewayError RenderResponse
  handle_resolved request resolved =
      let cors_headers = cors_headers_for resolved.origin_id request in
      let read = handle_read request resolved cors_headers in
      if request.method === text "OPTIONS"
      then ok (preflight_response request cors_headers)
      else if not (request.method === text "GET") && not (request.method === text "HEAD")
      then ok (bare_response 405 cors_headers)
      else read

  unfoldable pub handle : RenderRequest → Result GatewayError RenderResponse
  unfolding handle_resolved
  handle request = elim (resolve gw.resolver request.host) [
    | none ↦ ok (empty_response 421)
    | some resolved ↦ handle_resolved request resolved
  ]
