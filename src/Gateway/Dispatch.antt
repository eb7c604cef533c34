-- ===== src/Gateway/Dispatch.antt =====
-- `handle` of src/services/render_gateway.rs as a whole: what every request is answered with.
use rendermesh.Base.{
  ℕ, ◌≡◌, ◌⊎◌, inl, inr, refl, ap, subst, ◌∙◌, true, false, Option, none, some, [], Text, text, get,
  All, All-map, if◌then◌else◌, ◌===◌, Bool-cases, Option-cases, ok, IfOk, IfOk-eq,
}
use rendermesh.Gateway.Headers.{
  RenderRequest, RenderResponse, empty_response, is_unsafe_edge_header, request_header,
}
use rendermesh.Gateway.Headers.Laws.{Allows, Safe}
use rendermesh.Gateway.Answers.{IsAnswer}
use rendermesh.Gateway.Objects.{Platform, Service}
use rendermesh.Gateway.Handler.{
  allowed_origin, cors_headers_for, bare_response, preflight_response, handle_resolved, handle,
}
use rendermesh.Hosts.Resolver.{ResolvedHost, resolve}
use rendermesh.Gateway.Resolved.{handle_resolved-IsAnswer}

module _ {Registry Value : Type 0} (env : Platform Registry Value)
    (gw : Service Registry Value) where
  -- The origin that the answer to a request allows, if its host resolves.
  unfoldable allowed_by : RenderRequest → Option ResolvedHost → Option Text
  allowed_by request none = none
  allowed_by request (some resolved) = allowed_origin env gw resolved.origin_id request

  handle-IsAnswer :
      (request : RenderRequest)
      → IfOk
          (IsAnswer request (allowed_by request (resolve gw.resolver request.host)))
          (handle env gw request)
  unfolding handle allowed_by Allows
  handle-IsAnswer request = elim (Option-cases (resolve gw.resolver request.host)) [
    | inl e ↦
        rw (e, handle)
          (record { bodiless = λ head. refl; good = record { safe = tt; allows = tt } })
    | inr (resolved, e) ↦ rw (e, handle) (handle_resolved-IsAnswer env gw request resolved)
  ]

  -- If the gateway answers a `HEAD` request, then the response has no body, whatever the hooks, the
  -- templates and the files are.
  pub handle-bodiless :
      (request : RenderRequest) (response : RenderResponse)
      → handle env gw request ≡ ok response
      → (request.method === text "HEAD") ≡ true
      → response.body ≡ []
  handle-bodiless request response h =
      (IfOk-eq (IsAnswer request (allowed_by request (resolve gw.resolver request.host)))
        (handle-IsAnswer request) h).bodiless

  -- If the gateway answers a request, then no header of the response has a name that the filter for
  -- unsafe headers refuses, whatever the headers of hooks and of the metadata of objects are.
  pub handle-Safe :
      (request : RenderRequest) (response : RenderResponse)
      → handle env gw request ≡ ok response
      → All (λ header. is_unsafe_edge_header header.0 ≡ false) response.headers
  unfolding Safe
  handle-Safe request response h =
      All-map Safe (λ header. is_unsafe_edge_header header.0 ≡ false) response.headers
        (λ header s. s)
        (IfOk-eq (IsAnswer request (allowed_by request (resolve gw.resolver request.host)))
          (handle-IsAnswer request) h).good.safe

  -- If the gateway answers a request, its host resolves and the policy allows the request's origin there, then the
  -- response has that origin in `access-control-allow-origin`, whatever the headers of hooks and of
  -- the metadata of objects are.
  pub handle-allows :
      (request : RenderRequest) (response : RenderResponse) (resolved : ResolvedHost)
      (origin : Text)
      → handle env gw request ≡ ok response
      → resolve gw.resolver request.host ≡ some resolved
      → allowed_origin env gw resolved.origin_id request ≡ some origin
      → get (text "access-control-allow-origin") response.headers ≡ some origin
  unfolding allowed_by Allows
  handle-allows request response resolved origin h r a =
      let answer =
        IfOk-eq (IsAnswer request (allowed_by request (resolve gw.resolver request.host)))
          (handle-IsAnswer request) h in
      subst (λ o. Allows o response.headers) (ap (allowed_by request) r ∙ a) answer.good.allows

-- The status that the host and the method of another request than a read ask for.
abbrev pub HasStatus : RenderRequest → Option ResolvedHost → ℕ → Type 0
HasStatus request none status = status ≡ 421
HasStatus request (some resolved) status =
    (((request.method === text "OPTIONS") ≡ true) × (status ≡ 204))
    ⊎ (((request.method === text "OPTIONS") ≡ false) × (status ≡ 405))

module _ {Registry Value : Type 0} (env : Platform Registry Value) (gw : Service Registry Value)
    (request : RenderRequest) where
  unfoldable at_once : Option ResolvedHost → RenderResponse
  at_once none = empty_response 421
  at_once (some resolved) =
      let cors_headers = cors_headers_for env gw resolved.origin_id request in
      if request.method === text "OPTIONS"
      then preflight_response env gw request cors_headers
      else bare_response env gw 405 cors_headers

  at_once-HasStatus :
      (resolved : Option ResolvedHost)
      → HasStatus request resolved (at_once resolved).status × ((at_once resolved).body ≡ [])
  unfolding at_once preflight_response bare_response
  at_once-HasStatus none = (refl, refl)
  at_once-HasStatus (some resolved) = elim (Bool-cases (request.method === text "OPTIONS")) [
    | inl o ↦ (inl (o, rw o refl), rw o refl)
    | inr o ↦ (inr (o, rw o refl), rw o refl)
  ]

  handle-at_once :
      (request.method === text "GET") ≡ false
      → (request.method === text "HEAD") ≡ false
      → handle env gw request ≡ ok (at_once (resolve gw.resolver request.host))
  unfolding handle at_once handle_resolved
  handle-at_once g d = elim (Option-cases (resolve gw.resolver request.host)) [
    | inl e ↦ rw (e, handle, at_once) refl
    | inr (resolved, e) ↦ elim (Bool-cases (request.method === text "OPTIONS")) [
      | inl o ↦ rw (e, handle, at_once, o) refl
      | inr o ↦ rw (e, handle, at_once, o, g, d) refl
    ]
  ]

at_once-eq :
    {Registry Value : Type 0} (env env' : Platform Registry Value) (gw gw' : Service Registry Value)
    (request : RenderRequest) (resolved : Option ResolvedHost)
    → env'.parse_url ≡ env.parse_url
    → gw'.cors ≡ gw.cors
    → at_once env' gw' request resolved ≡ at_once env gw request resolved
unfolding at_once cors_headers_for allowed_origin preflight_response bare_response
at_once-eq env env' gw gw' request none p c = refl
at_once-eq env env' gw gw' request (some resolved) p c =
    elim (Option-cases (request_header request (text "origin"))) [
      | inl e ↦ rw e refl
      | inr (origin, e) ↦ rw (e, p, c) refl
    ]

-- The gateway always has an answer to a request with any method but `GET` and `HEAD`, and it is the
-- same whatever the replies of the hooks, the configurations, the files and the templates are: it
-- depends only on the request, the host resolver, the policy and the parsing of URLs. The answer has
-- no body, and its status is 421 if the host does not resolve, and else 204 for `OPTIONS` and 405 for
-- every other method.
pub handle_other_methods :
    {Registry Value : Type 0} (env env' : Platform Registry Value) (gw gw' : Service Registry Value)
    (request : RenderRequest)
    → (request.method === text "GET") ≡ false
    → (request.method === text "HEAD") ≡ false
    → env'.parse_url ≡ env.parse_url
    → gw'.resolver ≡ gw.resolver
    → gw'.cors ≡ gw.cors
    → (response : RenderResponse) × (handle env gw request ≡ ok response)
      × (handle env' gw' request ≡ ok response)
      × HasStatus request (resolve gw.resolver request.host) response.status
      × (response.body ≡ [])
handle_other_methods env env' gw gw' request g d p r c =
    let resolved = resolve gw.resolver request.host in
    (
      at_once env gw request resolved,
      handle-at_once env gw request g d,
      handle-at_once env' gw' request g d
          ∙ ap ok (
              ap (at_once env' gw' request) (ap (λ x. resolve x request.host) r)
              ∙ at_once-eq env env' gw gw' request resolved p c),
      (at_once-HasStatus env gw request resolved).0,
      (at_once-HasStatus env gw request resolved).1,
    )
