-- ===== src/Gateway/Answers.antt =====
-- What every answer to a `GET` or `HEAD` of the gateway satisfies,
-- src/services/render_gateway.rs, and that the edge chain's answers do.
use rendermesh.Base.{
  ℕ, ◌+◌, ◌≡◌, inl, inr, refl, true, Option, none, some, List, [], ◌∷◌, arith, Text, text, TextMap,
  All, utf8, unwrap_or, ◌===◌, Bool-cases, Result, ok, err, IfOk, IfOk->>=, IfOk-Option,
}
use rendermesh.Edge.{EdgeConfig, EdgeHookConfig}
use rendermesh.Edge.Hooks.{
  EdgeChainState, EdgePayloadOutcome, continue, respond_direct, serve_file, render_target,
  EdgeHookError, apply_edge_payload,
}
use rendermesh.Gateway.Headers.{
  RenderRequest, RenderResponse, apply_headers, combined_response_headers, filtered_headers,
  not_found_text, finalize_response, headers_if_allowed,
}
use rendermesh.Gateway.Headers.Laws.{
  Filtered, Filtered-Safe, filtered_headers-Filtered, IsGood, Settles, Settles-allowed,
  Settles-combined, apply_headers-Safe,
}
use rendermesh.Gateway.Objects.{
  HookReply, replied, timed_out, failed, Platform, Service, public, internal, GatewayError,
  serve_static_path_with_options, handle_missing,
}
use rendermesh.Gateway.Objects.Laws.{
  GoodResponse, GoodIfAny, not_found_text-IsGood, serve_static_path-IsGood, handle_missing-IsGood,
}
use rendermesh.Gateway.Chain.{
  resolve_request_target, EdgeChainResult, terminal, edge_hook_request, with_edge_headers,
  failure_response, end_chain, ChainStep, go_on, stop, after_payload, after_reply, run_hooks,
  handle_edge_chain,
}
use rendermesh.Hosts.Resolver.{ResolvedHost}

-- A response to `HEAD` has no body, all header names are safe, and the allowed origin, if there is
-- one, stands in `access-control-allow-origin`.
pub record IsAnswer (request : RenderRequest) (allowed : Option Text) (response : RenderResponse)
    : Type 0 where
  pub bodiless : (request.method === text "HEAD") ≡ true → response.body ≡ []
  pub good : IsGood allowed response.headers

pub finalize_response-IsAnswer :
    (request : RenderRequest) (allowed : Option Text) (response : RenderResponse)
    → IsGood allowed response.headers
    → IsAnswer request allowed (finalize_response response request)
unfolding finalize_response
finalize_response-IsAnswer request allowed response h =
    elim (Bool-cases (request.method === text "HEAD")) [
      | inl e ↦ rw e (record { bodiless = λ head. refl; good = h })
      | inr e ↦ rw e (record { bodiless = λ head. absurd (ground arith); good = h })
    ]

-- An answer, or headers to apply to one.
unfoldable pub Ends : RenderRequest → Option Text → EdgeChainResult → Type 0
Ends request allowed (some response, headers) = IsAnswer request allowed response
Ends request allowed (none, headers) = All Filtered headers

module _ {Registry Value : Type 0} (env : Platform Registry Value) (gw : Service Registry Value)
    (request : RenderRequest) (resolved : ResolvedHost) (config : EdgeConfig)
    (allowed : Option Text) where
  abbrev cors_headers : TextMap Text
  cors_headers = headers_if_allowed allowed

  -- The page for what is missing, or the text.
  pub missing-IsAnswer :
      (headers : TextMap Text) (settles : Settles allowed headers) (found : Option RenderResponse)
      → GoodIfAny allowed found
      → IsAnswer request allowed
          (finalize_response (unwrap_or found (not_found_text headers)) request)
  missing-IsAnswer headers settles none good =
      finalize_response-IsAnswer request allowed (not_found_text headers)
        (not_found_text-IsGood env gw allowed headers settles)
  missing-IsAnswer headers settles (some response) good =
      finalize_response-IsAnswer request allowed response good

  with_edge_headers-IsAnswer :
      (response : RenderResponse) (state : EdgeChainState)
      → GoodResponse allowed response
      → IsAnswer request allowed (with_edge_headers env gw response state cors_headers request)
  unfolding with_edge_headers Settles
  with_edge_headers-IsAnswer response state good =
      let filtered = filtered_headers state.headers in
      let edged = apply_headers response.headers filtered in
      finalize_response-IsAnswer request allowed
        (record response { headers = apply_headers edged cors_headers })
        (Settles-allowed allowed edged (
          apply_headers-Safe response.headers filtered good.safe
            (Filtered-Safe filtered (filtered_headers-Filtered state.headers))))

  end_chain-Ends :
      (state : EdgeChainState) (outcome : EdgePayloadOutcome Value)
      → IfOk
          (Ends request allowed)
          (end_chain env gw request resolved config cors_headers state outcome)
  unfolding end_chain Ends Settles
  end_chain-Ends state continue = filtered_headers-Filtered state.headers
  end_chain-Ends state (respond_direct status body) =
      let filtered = filtered_headers state.headers in
      let edged = apply_headers [] filtered in
      finalize_response-IsAnswer request allowed
        (record { status = status; headers = apply_headers edged cors_headers; body = utf8 body })
        (Settles-allowed allowed edged (
          apply_headers-Safe [] filtered tt
            (Filtered-Safe filtered (filtered_headers-Filtered state.headers))))
  end_chain-Ends state (serve_file status path params) =
      let filtered = filtered_headers state.headers in
      let headers = combined_response_headers filtered cors_headers in
      let settles = Settles-combined allowed filtered (filtered_headers-Filtered state.headers) in
      IfOk-Option (GoodIfAny allowed) (Ends request allowed)
        (serve_static_path_with_options env gw resolved.origin_id config path status params
          cors_headers internal)
        _
        (serve_static_path-IsGood env gw allowed cors_headers (Settles-allowed allowed)
          resolved.origin_id config path status params internal)
        (λ u.
          IfOk->>= (GoodIfAny allowed) (Ends request allowed)
            (handle_missing env gw resolved.origin_id config headers) _
            (handle_missing-IsGood env gw allowed headers settles resolved.origin_id config)
            (missing-IsAnswer headers settles))
        (λ response good. with_edge_headers-IsAnswer response state good)
  end_chain-Ends state (render_target status params) =
      let target = resolve_request_target config request.path in
      IfOk-Option (GoodIfAny allowed) (Ends request allowed)
        (serve_static_path_with_options env gw resolved.origin_id config target status (some params)
          cors_headers public)
        _
        (serve_static_path-IsGood env gw allowed cors_headers (Settles-allowed allowed)
          resolved.origin_id config target status (some params) public)
        (λ u. missing-IsAnswer cors_headers (Settles-allowed allowed) none tt)
        (λ response good. with_edge_headers-IsAnswer response state good)

  failure-Ends :
      (status : ℕ)
      → Ends request allowed
          (terminal (failure_response env gw request resolved config cors_headers status))
  unfolding Ends Settles
  failure-Ends status =
      finalize_response-IsAnswer request allowed
        (record { status = status; headers = apply_headers [] cors_headers; body = [] })
        (Settles-allowed allowed [] tt)

  StepEnds : ChainStep env gw request resolved config cors_headers → Type 0
  StepEnds (go_on next) = Unit
  StepEnds (stop result) = IfOk (Ends request allowed) result

  payload-Ends :
      (next : EdgeChainState) (decided : Result EdgeHookError (EdgePayloadOutcome Value))
      → StepEnds (after_payload env gw request resolved config cors_headers (next, decided))
  unfolding after_payload StepEnds
  payload-Ends next (err error) = failure-Ends 502
  payload-Ends next (ok continue) = tt
  payload-Ends next (ok (respond_direct status body)) =
      end_chain-Ends next (respond_direct status body)
  payload-Ends next (ok (serve_file status path params)) =
      end_chain-Ends next (serve_file status path params)
  payload-Ends next (ok (render_target status params)) =
      end_chain-Ends next (render_target status params)

  reply-Ends :
      (state : EdgeChainState) (reply : HookReply Value)
      → StepEnds (after_reply env gw request resolved config cors_headers state reply)
  unfolding after_reply StepEnds
  reply-Ends state timed_out = failure-Ends 504
  reply-Ends state failed = failure-Ends 502
  reply-Ends state (replied status payload) =
      let (next, decided) = apply_edge_payload state status payload in payload-Ends next decided

  step-Ends :
      (step : ChainStep env gw request resolved config cors_headers)
      (rest : EdgeChainState → Result GatewayError EdgeChainResult)
      → StepEnds step
      → ((next : EdgeChainState) → IfOk (Ends request allowed) (rest next))
      → IfOk (Ends request allowed) (elim step [ stop result ↦ result | go_on next ↦ rest next ])
  unfolding StepEnds
  step-Ends (go_on next) rest s h = h next
  step-Ends (stop result) rest s h = s

  run_hooks-Ends :
      (calls : ℕ) (state : EdgeChainState) (hooks : List EdgeHookConfig)
      → IfOk
          (Ends request allowed)
          (run_hooks env gw request resolved config cors_headers calls state hooks)
  unfolding run_hooks Ends
  run_hooks-Ends calls state [] = filtered_headers-Filtered state.headers
  run_hooks-Ends calls state (hook ∷ hooks) =
      let reply =
        env.call calls hook.url hook.timeout_ms (edge_hook_request env gw request resolved) in
      step-Ends (after_reply env gw request resolved config cors_headers state reply) _
        (reply-Ends state reply) (λ next. run_hooks-Ends (calls + 1) next hooks)

  pub handle_edge_chain-Ends :
      IfOk (Ends request allowed) (handle_edge_chain env gw request resolved config cors_headers)
  unfolding handle_edge_chain
  handle_edge_chain-Ends = run_hooks-Ends 0 (record { headers = [] }) config.edges
