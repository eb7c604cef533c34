-- ===== src/Gateway/Chain.antt =====
-- The chain of edge hooks: `handle_edge_chain`, `with_edge_headers` and the requests that are sent,
-- src/services/render_gateway.rs.
use rendermesh.Base.{
  ℕ, ◌+◌, Option, none, some, List, [], ◌∷◌, ◌++◌, Text, text, TextMap, get, utf8, unwrap_or,
  Result, ok, err, ◌>>=◌,
}
use rendermesh.Edge.{EdgeConfig, EdgeHookConfig, EdgeHookRequest}
use rendermesh.Edge.Hooks.{
  EdgeChainState, EdgePayloadOutcome, continue, respond_direct, serve_file, render_target,
  EdgeHookError, apply_edge_payload,
}
use rendermesh.Edge.Rules.{resolve_rewrite, resolve_root_object, query_suffix}
use rendermesh.Gateway.Headers.{
  RenderRequest, RenderResponse, apply_headers, combined_response_headers, filtered_headers,
  not_found_text, finalize_response, collect_headers,
}
use rendermesh.Gateway.Objects.{
  HookReply, replied, timed_out, failed, Platform, Service, public, internal, GatewayError,
  serve_static_path_with_options, handle_missing,
}
use rendermesh.Hosts.Resolver.{ResolvedHost}

unfoldable pub resolve_request_target : EdgeConfig → Text → Text
resolve_request_target config request_path =
    resolve_root_object config (resolve_rewrite config request_path)

unfoldable pub full_request_url : RenderRequest → Text
full_request_url request =
    request.scheme ++ text "://" ++ request.host ++ request.path ++ query_suffix request.query

-- A response that ends the request, or none, and the headers of the chain.
abbrev pub EdgeChainResult : Type 0
EdgeChainResult = Option RenderResponse × TextMap Text

abbrev pub terminal : RenderResponse → EdgeChainResult
terminal response = (some response, [])

module _ {Registry Value : Type 0} (env : Platform Registry Value)
    (gw : Service Registry Value) where
  unfoldable pub edge_hook_request : RenderRequest → ResolvedHost → EdgeHookRequest Value
  unfolding full_request_url
  edge_hook_request request resolved = record {
    context = record {
      bucket = unwrap_or (get resolved.origin_id gw.origin_buckets) resolved.origin_id;
      ip = request.client_ip;
      origin = resolved.origin_id;
      edge_context = get resolved.origin_id gw.origin_edge_contexts;
    };
    request = record {
      url = full_request_url request;
      path = request.path;
      querystring = unwrap_or request.query [];
      queryparams = env.parse_query (unwrap_or request.query []);
      method = request.method;
      headers = collect_headers [] request.headers;
      body = [];
    };
  }

  unfoldable pub with_edge_headers :
      RenderResponse → EdgeChainState → TextMap Text → RenderRequest → RenderResponse
  with_edge_headers response state cors_headers request =
      let edged = apply_headers response.headers (filtered_headers state.headers) in
      finalize_response (record response { headers = apply_headers edged cors_headers }) request

  module _ (request : RenderRequest) (resolved : ResolvedHost) (config : EdgeConfig)
      (cors_headers : TextMap Text) where
    -- A response without a body for a hook that failed.
    abbrev pub failure_response : ℕ → RenderResponse
    failure_response status =
        finalize_response
          (record { status = status; headers = apply_headers [] cors_headers; body = [] }) request

    direct_response : EdgeChainState → ℕ → Text → RenderResponse
    direct_response state status body =
        let edged = apply_headers [] (filtered_headers state.headers) in
        finalize_response
          (record { status = status; headers = apply_headers edged cors_headers; body = utf8 body })
          request

    -- The `else` of serving the hook's file.
    missing_file : EdgeChainState → Result GatewayError EdgeChainResult
    missing_file state =
        let response_headers =
          combined_response_headers (filtered_headers state.headers) cors_headers in
        handle_missing env gw resolved.origin_id config response_headers >>= λ found.
        ok
          (terminal (finalize_response (unwrap_or found (not_found_text response_headers)) request))

    served_file : EdgeChainState → Option RenderResponse → Result GatewayError EdgeChainResult
    served_file state (some response) =
        ok (terminal (with_edge_headers response state cors_headers request))
    served_file state none = missing_file state

    served_target : EdgeChainState → Option RenderResponse → Result GatewayError EdgeChainResult
    served_target state (some response) =
        ok (terminal (with_edge_headers response state cors_headers request))
    served_target state none =
        ok (terminal (finalize_response (not_found_text cors_headers) request))

    -- The `match outcome` for the outcomes that end the chain.
    unfoldable pub end_chain :
        EdgeChainState → EdgePayloadOutcome Value → Result GatewayError EdgeChainResult
    unfolding direct_response served_file served_target missing_file
    end_chain state continue = ok (none, filtered_headers state.headers)
    end_chain state (respond_direct status body) = ok (terminal (direct_response state status body))
    end_chain state (serve_file status file_path params) =
        serve_static_path_with_options env gw resolved.origin_id config file_path status params
          cors_headers internal
        >>= served_file state
    end_chain state (render_target status params) =
        serve_static_path_with_options env gw resolved.origin_id config
          (resolve_request_target config request.path) status (some params) cors_headers public
        >>= served_target state

    -- What a hook's reply makes of the state: go on, or end.
    pub data ChainStep : Type 0 where
      go_on : EdgeChainState → ChainStep
      stop : Result GatewayError EdgeChainResult → ChainStep

    unfoldable pub after_payload :
        EdgeChainState × Result EdgeHookError (EdgePayloadOutcome Value) → ChainStep
    after_payload (state, err error) = stop (ok (terminal (failure_response 502)))
    after_payload (state, ok continue) = go_on state
    after_payload (state, ok outcome) = stop (end_chain state outcome)

    -- `edge_failure_status`: 504 for a timeout, 502 for any other error.
    unfoldable pub after_reply : EdgeChainState → HookReply Value → ChainStep
    unfolding after_payload
    after_reply state timed_out = stop (ok (terminal (failure_response 504)))
    after_reply state failed = stop (ok (terminal (failure_response 502)))
    after_reply state (replied status payload) =
        after_payload (apply_edge_payload state status payload)

    -- The loop over the hooks, with the number of hooks called so far.
    unfoldable pub run_hooks :
        ℕ → EdgeChainState → List EdgeHookConfig → Result GatewayError EdgeChainResult
    run_hooks calls state [] = ok (none, filtered_headers state.headers)
    run_hooks calls state (hook ∷ hooks) =
        let reply = env.call calls hook.url hook.timeout_ms (edge_hook_request request resolved) in
        elim (after_reply state reply) [
          | stop result ↦ result
          | go_on next ↦ run_hooks (calls + 1) next hooks
        ]

    unfoldable pub handle_edge_chain : Result GatewayError EdgeChainResult
    unfolding run_hooks
    handle_edge_chain = run_hooks 0 (record { headers = [] }) config.edges
