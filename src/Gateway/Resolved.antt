-- ===== src/Gateway/Resolved.antt =====
-- What a request with a resolved host is answered with, src/services/render_gateway.rs.
use rendermesh.Base.{
  ℕ, ◌≡◌, inl, inr, refl, ◌∙◌, not, ◌&&◌, Option, none, some, [], Text, text, text_dec, TextMap,
  get, get-insert, ◌===◌, Bool-cases, Result-cases, IfOk, IfOk->>=, IfOk-any, IfOk-Option,
  to_ascii_lowercase,
}
use rendermesh.Edge.{EdgeConfig}
use rendermesh.Edge.Rules.{RedirectDecision, find_redirect}
use rendermesh.Gateway.Headers.{
  RenderRequest, insert_header, insert_if_present, apply_headers, is_unsafe_edge_header,
  combined_response_headers, request_header, headers_if_allowed,
}
use rendermesh.Gateway.Headers.Laws.{
  allow_origin, Allows, Safe, insert_if_present-Safe, Settles, Settles-allowed, Settles-combined,
  insert_header-Safe,
}
use rendermesh.Gateway.Answers.{
  IsAnswer, Ends, finalize_response-IsAnswer, missing-IsAnswer, handle_edge_chain-Ends,
}
use rendermesh.Gateway.Objects.{
  Platform, Service, public, status_from_u16, serve_static_path_with_options, handle_missing,
}
use rendermesh.Gateway.Objects.Laws.{GoodIfAny, serve_static_path-IsGood, handle_missing-IsGood}
use rendermesh.Gateway.Chain.{EdgeChainResult, resolve_request_target, handle_edge_chain}
use rendermesh.Gateway.Handler.{
  allowed_origin, cors_headers_for, bare_response, redirect_response, missing_response,
  served_response, static_response, preflight_response, after_chain, handle_read, handle_resolved,
}
use rendermesh.Gateway.Stores.{get_config}
use rendermesh.Hosts.Resolver.{ResolvedHost}

module _ {Registry Value : Type 0} (env : Platform Registry Value)
    (gw : Service Registry Value) where
  module _ (request : RenderRequest) (resolved : ResolvedHost) (config : EdgeConfig)
      (allowed : Option Text) (headers : TextMap Text) (settles : Settles allowed headers) where
    redirect-IsAnswer :
        (redirect : RedirectDecision)
        → IfOk
            (IsAnswer request allowed)
            (redirect_response env gw request resolved config redirect headers)
    unfolding redirect_response Settles Safe is_unsafe_edge_header to_ascii_lowercase text_dec
    redirect-IsAnswer redirect =
        let located = insert_header [] (text "location") redirect.location in
        IfOk->>= (λ status. Unit) (IsAnswer request allowed) (status_from_u16 redirect.status) _
          (IfOk-any (status_from_u16 redirect.status))
          (λ status u.
            finalize_response-IsAnswer request allowed
              (record { status = status; headers = apply_headers located headers; body = [] })
              (settles located (insert_header-Safe [] (text "location") redirect.location refl tt)))

    static-IsAnswer :
        IfOk (IsAnswer request allowed) (static_response env gw request resolved config headers)
    unfolding static_response served_response missing_response
    static-IsAnswer =
        let target = resolve_request_target config request.path in
        IfOk-Option (GoodIfAny allowed) (IsAnswer request allowed)
          (serve_static_path_with_options env gw resolved.origin_id config target 200 none headers
            public)
          _
          (serve_static_path-IsGood env gw allowed headers settles resolved.origin_id config target
            200 none public)
          (λ u.
            IfOk->>= (GoodIfAny allowed) (IsAnswer request allowed)
              (handle_missing env gw resolved.origin_id config headers) _
              (handle_missing-IsGood env gw allowed headers settles resolved.origin_id config)
              (missing-IsAnswer env gw request resolved config allowed headers settles))
          (λ response good. finalize_response-IsAnswer request allowed response good)

    -- No response from the chain: a redirect, or an object.
    answered-IsAnswer :
        (redirect : Option RedirectDecision)
        → IfOk (IsAnswer request allowed) (elim redirect [
          | some redirect ↦ redirect_response env gw request resolved config redirect headers
          | none ↦ static_response env gw request resolved config headers
        ])
    answered-IsAnswer (some redirect) = redirect-IsAnswer redirect
    answered-IsAnswer none = static-IsAnswer

  module _ (request : RenderRequest) (resolved : ResolvedHost) (allowed : Option Text) where
    after_chain-IsAnswer :
        (config : EdgeConfig) (ended : EdgeChainResult)
        → Ends request allowed ended
        → IfOk
            (IsAnswer request allowed)
            (after_chain env gw request resolved config (headers_if_allowed allowed) ended)
    unfolding after_chain Ends
    after_chain-IsAnswer config (some response, edge) h = h
    after_chain-IsAnswer config (none, edge) h =
        answered-IsAnswer request resolved config allowed
          (combined_response_headers edge (headers_if_allowed allowed))
          (Settles-combined allowed edge h) (find_redirect config request.path request.query)

    bare-IsAnswer :
        (status : ℕ)
        → IsAnswer request allowed (bare_response env gw status (headers_if_allowed allowed))
    unfolding bare_response Settles
    bare-IsAnswer status = record { bodiless = λ head. refl; good = Settles-allowed allowed [] tt }

    handle_read-IsAnswer :
        IfOk
          (IsAnswer request allowed)
          (handle_read env gw request resolved (headers_if_allowed allowed))
    unfolding handle_read
    handle_read-IsAnswer = elim (Result-cases (get_config gw.edge_configs resolved.origin_id)) [
      | inr (error, e) ↦ rw (e, handle_read) (bare-IsAnswer 500)
      | inl (config, e) ↦
          rw (e, handle_read)
            (IfOk->>= (Ends request allowed) (IsAnswer request allowed)
              (handle_edge_chain env gw request resolved config (headers_if_allowed allowed)) _
              (handle_edge_chain-Ends env gw request resolved config allowed)
              (after_chain-IsAnswer config))
    ]

    preflight-allows :
        (headers : TextMap Text) (origin : Text) (asked : Option Text)
        → get allow_origin headers ≡ some origin
        → get allow_origin (
            insert_if_present
              (insert_header headers
                (text "access-control-allow-methods")
                (text "GET, HEAD, OPTIONS"))
              (text "access-control-allow-headers")
              asked)
          ≡ some origin
    unfolding insert_header to_ascii_lowercase text_dec
    preflight-allows headers origin none h =
        get-insert allow_origin (text "access-control-allow-methods") (text "GET, HEAD, OPTIONS")
          headers
        ∙ h
    preflight-allows headers origin (some names) h =
        let methods = text "access-control-allow-methods" in
        let answered = insert_header headers methods (text "GET, HEAD, OPTIONS") in
        get-insert allow_origin (text "access-control-allow-headers") names answered
        ∙ get-insert allow_origin methods (text "GET, HEAD, OPTIONS") headers
        ∙ h

    preflight-Allows :
        (origin : Option Text) (headers : TextMap Text) (asked : Option Text)
        → Allows origin headers
        → Allows origin (
            insert_if_present
              (insert_header headers
                (text "access-control-allow-methods")
                (text "GET, HEAD, OPTIONS"))
              (text "access-control-allow-headers")
              asked)
    unfolding Allows
    preflight-Allows none headers asked h = tt
    preflight-Allows (some origin) headers asked h = preflight-allows headers origin asked h

    preflight-IsAnswer :
        IsAnswer request allowed (preflight_response env gw request (headers_if_allowed allowed))
    unfolding preflight_response Settles Safe is_unsafe_edge_header to_ascii_lowercase text_dec
    preflight-IsAnswer =
        let cors = Settles-allowed allowed [] tt in
        let methods = text "access-control-allow-methods" in
        let listed =
          insert_header (apply_headers [] (headers_if_allowed allowed)) methods
            (text "GET, HEAD, OPTIONS") in
        let asked = request_header request (text "access-control-request-headers") in
        record {
          bodiless = λ head. refl;
          good = record {
            safe =
                insert_if_present-Safe listed (text "access-control-allow-headers") asked
                  (λ v. refl)
                  (insert_header-Safe (apply_headers [] (headers_if_allowed allowed)) methods
                    (text "GET, HEAD, OPTIONS") refl cors.safe);
            allows =
                preflight-Allows allowed (apply_headers [] (headers_if_allowed allowed)) asked
                  cors.allows;
          };
        }

  pub handle_resolved-IsAnswer :
      (request : RenderRequest) (resolved : ResolvedHost)
      → IfOk
          (IsAnswer request (allowed_origin env gw resolved.origin_id request))
          (handle_resolved env gw request resolved)
  unfolding handle_resolved cors_headers_for
  handle_resolved-IsAnswer request resolved =
      let allowed = allowed_origin env gw resolved.origin_id request in
      elim (Bool-cases (request.method === text "OPTIONS")) [
        | inl e ↦ rw e (preflight-IsAnswer request resolved allowed)
        | inr e ↦
            elim (Bool-cases
              (not (request.method === text "GET") && not (request.method === text "HEAD"))) [
                | inl f ↦ rw (e, f) (bare-IsAnswer request resolved allowed 405)
                | inr f ↦ rw (e, f) (handle_read-IsAnswer request resolved allowed)
              ]
      ]
