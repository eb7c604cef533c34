-- ===== src/Gateway/Objects/Laws.antt =====
-- The headers of served objects and of the answers to missing ones,
-- src/services/render_gateway.rs.
use rendermesh.Base.{
  ℕ, ◌≡◌, inl, inr, refl, sym, subst, Option, none, some, [], Text, text, TextMap, text_dec,
  to_ascii_lowercase, Bool-cases, Result-cases, IfOk, IfOk->>=, IfOk-any, IfOk-Option,
}
use rendermesh.Edge.{EdgeConfig, MissingAction, not_found, serve, redirect, MissingConfig}
use rendermesh.Mirror.{LocalObject}
use rendermesh.Edge.Rules.{auto_index_candidate}
use rendermesh.Gateway.Stores.{not_html, render_failed, render}
use rendermesh.Gateway.Headers.{
  RenderResponse, apply_headers, not_found_text, headers_from_metadata, is_unsafe_edge_header,
  insert_if_present,
}
use rendermesh.Gateway.Headers.Laws.{
  IsGood, Settles, Safe, headers_from_metadata-Safe, insert_if_present-Safe,
}
use rendermesh.Gateway.Objects.{
  Platform, Service, ObjectReadAccess, public, read_served_object, rendered, object_response,
  serve_object_with_options, serve_static_path_with_options, missing_page, missing_path,
  missing_status, missing_action, handle_missing,
}

abbrev pub GoodResponse : Option Text → RenderResponse → Type 0
GoodResponse origin response = IsGood origin response.headers

-- The response, if there is one, is good.
abbrev pub GoodIfAny : Option Text → Option RenderResponse → Type 0
GoodIfAny origin none = Unit
GoodIfAny origin (some response) = GoodResponse origin response

module _ {Registry Value : Type 0} (env : Platform Registry Value) (gw : Service Registry Value)
    (allowed : Option Text) (headers : TextMap Text) (settles : Settles allowed headers) where
  pub not_found_text-IsGood : GoodResponse allowed (not_found_text headers)
  unfolding not_found_text Settles
  not_found_text-IsGood = settles [] tt

  rendered-headers :
      (origin_id path : Text) (status : ℕ) (applied : TextMap Text) (params : Value)
      → (rendered env gw origin_id path status applied params).headers ≡ applied
  unfolding rendered
  rendered-headers origin_id path status applied params =
      elim (Result-cases (render env.engine gw.templates origin_id path params)) [
        | inl (body, e) ↦ rw (e, rendered) refl
        | inr (not_html, e) ↦ rw (e, rendered) refl
        | inr (render_failed, e) ↦ rw (e, rendered) refl
      ]

  object_response-IsGood :
      (origin_id path : Text) (status : ℕ) (params : Option Value) (object : LocalObject)
      → GoodResponse allowed (object_response env gw origin_id path status params headers object)
  unfolding object_response Settles
  object_response-IsGood origin_id path status none object =
      settles (headers_from_metadata object.metadata) (headers_from_metadata-Safe object.metadata)
  object_response-IsGood origin_id path status (some values) object =
      subst (IsGood allowed)
        (sym (
          rendered-headers origin_id path status
            (apply_headers (headers_from_metadata object.metadata) headers) values))
        (settles (headers_from_metadata object.metadata)
          (headers_from_metadata-Safe object.metadata))

  serve_object-IsGood :
      (origin_id path : Text) (status : ℕ) (params : Option Value) (access : ObjectReadAccess)
      → IfOk
          (GoodIfAny allowed)
          (serve_object_with_options env gw origin_id path status params headers access)
  unfolding serve_object_with_options
  serve_object-IsGood origin_id path status params access =
      IfOk-Option (λ found. Unit) (GoodIfAny allowed)
        (read_served_object env gw origin_id path access) _
        (IfOk-any (read_served_object env gw origin_id path access)) (λ u. tt)
        (λ object u. object_response-IsGood origin_id path status params object)

  pub serve_static_path-IsGood :
      (origin_id : Text) (config : EdgeConfig) (path : Text) (status : ℕ) (params : Option Value)
      (access : ObjectReadAccess)
      → IfOk
          (GoodIfAny allowed)
          (serve_static_path_with_options env gw origin_id config path status params headers access)
  unfolding serve_static_path_with_options
  serve_static_path-IsGood origin_id config path status params access =
      let index = serve_object-IsGood origin_id (auto_index_candidate path) status params access in
      IfOk-Option (GoodIfAny allowed) (GoodIfAny allowed)
        (serve_object_with_options env gw origin_id path status params headers access) _
        (serve_object-IsGood origin_id path status params access)
        (λ u. elim (Bool-cases config.edge.auto_rewrite_index) [
          | inl e ↦ rw e index
          | inr e ↦ rw e tt
        ])
        (λ response good. good)

  page-IsGood :
      (origin_id : Text) (page : Option Text)
      → IfOk (GoodIfAny allowed) (missing_page env gw origin_id page headers)
  unfolding missing_page
  page-IsGood origin_id none = not_found_text-IsGood
  page-IsGood origin_id (some page) =
      IfOk-Option (GoodIfAny allowed) (GoodIfAny allowed)
        (serve_object_with_options env gw origin_id page 404 none headers public) _
        (serve_object-IsGood origin_id page 404 none public) (λ u. not_found_text-IsGood)
        (λ response good. good)

  path-IsGood :
      (origin_id : Text) (path : Option Text)
      → IfOk (GoodIfAny allowed) (missing_path env gw origin_id path headers)
  unfolding missing_path
  path-IsGood origin_id none = not_found_text-IsGood
  path-IsGood origin_id (some path) = serve_object-IsGood origin_id path 200 none public

  action-IsGood :
      (action : MissingAction) (origin_id : Text) (missing : MissingConfig)
      → IfOk (GoodIfAny allowed) (missing_action env gw action origin_id missing headers)
  unfolding missing_action Settles Safe is_unsafe_edge_header to_ascii_lowercase text_dec
  action-IsGood not_found origin_id missing = page-IsGood origin_id missing.page
  action-IsGood serve origin_id missing = path-IsGood origin_id missing.path
  action-IsGood redirect origin_id missing =
      IfOk->>= (λ status. Unit) (GoodIfAny allowed) (missing_status env gw missing.status) _
        (IfOk-any (missing_status env gw missing.status))
        (λ status u.
          settles (insert_if_present [] (text "location") missing.to)
            (insert_if_present-Safe [] (text "location") missing.to (λ v. refl) tt))

  pub handle_missing-IsGood :
      (origin_id : Text) (config : EdgeConfig)
      → IfOk (GoodIfAny allowed) (handle_missing env gw origin_id config headers)
  unfolding handle_missing
  handle_missing-IsGood origin_id config =
      action-IsGood config.missing.action origin_id config.missing
