-- ===== src/Tests/Requests.antt =====
-- The gateway at concrete requests: a hook that sends headers it should not, and a file that is
-- served.
use rendermesh.Base.{
  ℕ, ◌≡◌, ◌⊎◌, inl, inr, refl, Bool, true, false, Option, none, some, List, [], ◌∷◌, Text, text,
  text_dec, TextMap, get, All, utf8, Result, ok, err,
}
use rendermesh.Cors.{CorsPolicy, Url, wildcard_suffix}
use rendermesh.Edge.{EdgeConfig, not_found, EdgeHookPayload, EdgeHookRequest}
use rendermesh.Hosts.Resolver.{ResolvedHost, resolve}
use rendermesh.Mirror.{Files, content, absent, no_metadata}
use rendermesh.Gateway.Headers.{RenderRequest, RenderResponse, is_unsafe_edge_header}
use rendermesh.Gateway.Stores.{EdgeConfigEntry, valid}
use rendermesh.Gateway.Objects.{Platform, Service, HookReply, replied, timed_out}
use rendermesh.Gateway.Handler.{handle, allowed_origin}
use rendermesh.Gateway.Dispatch.{
  handle-bodiless, handle-Safe, handle-allows, HasStatus, handle_other_methods,
}

abbrev hooked_config : EdgeConfig
hooked_config = record {
  version = 1;
  edge = record { root_object = text "/i"; auto_rewrite_index = true };
  missing = record { action = not_found; page = none; path = none; to = none; status = none };
  redirects = [];
  rewrites = [];
  edges = record { name = text "h"; url = text "https://h"; timeout_ms = 50 } ∷ [];
}

-- A hook that sets the policy's header, and one of the connection's.
abbrev bold_payload : EdgeHookPayload ℕ
bold_payload = record {
  headers = (text "Access-Control-Allow-Origin", text "*") ∷ (text "TE", text "x") ∷ [];
  body = none;
  file_path = none;
  params = none;
}

abbrev parse_site_url : Text → Option Url
parse_site_url request_origin = some (record {
  scheme = text "https";
  path = text "/";
  query = none;
  fragment = none;
  username = [];
  password = none;
  port = none;
  host_str = some (text "a.io");
})

abbrev example_files : Files
example_files = record {
  is_dir = λ path. false;
  read = λ path. content (text "hi");
  read_to_string = λ path. absent;
  parse_metadata = λ source. none;
  sha256 = λ key. 171 ∷ [];
}

abbrev example_platform : Platform ℕ ℕ
example_platform = record {
  files = example_files;
  engine = record {
    has_template = λ registry key. false;
    render_template = λ registry key params. none;
  };
  parse_url = parse_site_url;
  parse_query = λ query. [];
  call = λ calls url timeout_ms asked. replied 200 bold_payload;
}

-- A platform on which every hook times out.
abbrev slow_platform : Platform ℕ ℕ
slow_platform = record example_platform { call = λ calls url timeout_ms asked. timed_out }

abbrev example_service : Service ℕ ℕ
example_service = record {
  resolver = record { exact = (text "b.io", text "s") ∷ []; wildcards = []; fallback = none };
  cors = record { rules_by_origin = (text "s", wildcard_suffix (text ".io") ∷ []) ∷ [] };
  root = text "r";
  edge_configs = (text "s", valid hooked_config) ∷ [];
  templates = [];
  origin_buckets = [];
  origin_edge_contexts = [];
}

-- The same without any configuration.
abbrev bare_service : Service ℕ ℕ
bare_service = record example_service { edge_configs = [] }

abbrev asking : Text → RenderRequest
asking method = record {
  method = method;
  host = text "b.io";
  path = text "/";
  query = none;
  scheme = text "http";
  client_ip = none;
  headers = (text "origin", some (text "https://a.io")) ∷ [];
  body = [];
}

abbrev example_host : ResolvedHost
example_host = record {
  normalized_host = text "b.io";
  matched_host = text "b.io";
  origin_id = text "s";
}

abbrev headed : RenderResponse
headed = record {
  status = 200;
  headers =
      (text "access-control-allow-origin", text "https://a.io") ∷ (text "vary", text "Origin") ∷ [];
  body = [];
}

abbrev found : RenderResponse
found = record headed { body = text "hi" }

head_example : handle example_platform example_service (asking (text "HEAD")) ≡ ok headed
unfolding handle resolve rendermesh.Hosts.Names.normalize_host rendermesh.Base.trim
    rendermesh.Base.rsplit_once rendermesh.Hosts.Names.is_valid_host
    rendermesh.Base.to_ascii_lowercase get text_dec rendermesh.Gateway.Handler.handle_read
    rendermesh.Gateway.Stores.get_config rendermesh.Gateway.Chain.handle_edge_chain
    rendermesh.Gateway.Chain.after_reply rendermesh.Edge.Hooks.apply_edge_payload
    rendermesh.Gateway.Handler.after_chain rendermesh.Edge.Rules.find_redirect
    rendermesh.Edge.Rules.best_match rendermesh.Gateway.Objects.serve_static_path_with_options
    rendermesh.Gateway.Objects.serve_object_with_options
    rendermesh.Gateway.Objects.read_served_object rendermesh.Gateway.Objects.object_response
    rendermesh.Gateway.Chain.resolve_request_target rendermesh.Edge.Rules.resolve_rewrite
    rendermesh.Edge.Rules.resolve_root_object rendermesh.Gateway.Headers.is_reserved_rendermesh_path
    rendermesh.ObjectPaths.object_path rendermesh.ObjectPaths.origin_dir
    rendermesh.ObjectPaths.is_origin_id rendermesh.Base.is_ascii_alphanumeric
    rendermesh.ObjectPaths.normalize_object_path rendermesh.Base.trim_start_matches
    rendermesh.Base.trim_end_matches rendermesh.Base.is_control rendermesh.Base.is_absolute
    rendermesh.Base.components rendermesh.Base.split rendermesh.Base.starts_with
    rendermesh.Base.ends_with rendermesh.ObjectPaths.climbs
    rendermesh.ObjectPaths.is_reserved_metadata_key rendermesh.Base.join
    rendermesh.Base.path_starts_with rendermesh.Mirror.read_object rendermesh.Mirror.read_metadata
    rendermesh.ObjectPaths.metadata_sidecar_path rendermesh.ObjectPaths.stable_key_hash
    rendermesh.ObjectPaths.encode_hex rendermesh.Gateway.Headers.headers_from_metadata
    rendermesh.Gateway.Headers.apply_headers rendermesh.Gateway.Headers.insert_header
    rendermesh.Base.insert rendermesh.Gateway.Headers.finalize_response
    rendermesh.Gateway.Headers.combined_response_headers rendermesh.Gateway.Headers.filtered_headers
    rendermesh.Gateway.Headers.is_unsafe_edge_header rendermesh.Base.extend
    rendermesh.Gateway.Handler.cors_headers_for rendermesh.Gateway.Headers.request_header
    rendermesh.Cors.allowed_origin_for rendermesh.Cors.parse_https_origin_host
    rendermesh.Cors.answered rendermesh.Cors.any_rule_matches rendermesh.Cors.rule_matches
    rendermesh.Gateway.Handler.static_response rendermesh.Gateway.Handler.served_response
head_example = refl

get_example : handle example_platform example_service (asking (text "GET")) ≡ ok found
unfolding handle resolve rendermesh.Hosts.Names.normalize_host rendermesh.Base.trim
    rendermesh.Base.rsplit_once rendermesh.Hosts.Names.is_valid_host
    rendermesh.Base.to_ascii_lowercase get text_dec rendermesh.Gateway.Handler.handle_read
    rendermesh.Gateway.Stores.get_config rendermesh.Gateway.Chain.handle_edge_chain
    rendermesh.Gateway.Chain.after_reply rendermesh.Edge.Hooks.apply_edge_payload
    rendermesh.Gateway.Handler.after_chain rendermesh.Edge.Rules.find_redirect
    rendermesh.Edge.Rules.best_match rendermesh.Gateway.Objects.serve_static_path_with_options
    rendermesh.Gateway.Objects.serve_object_with_options
    rendermesh.Gateway.Objects.read_served_object rendermesh.Gateway.Objects.object_response
    rendermesh.Gateway.Chain.resolve_request_target rendermesh.Edge.Rules.resolve_rewrite
    rendermesh.Edge.Rules.resolve_root_object rendermesh.Gateway.Headers.is_reserved_rendermesh_path
    rendermesh.ObjectPaths.object_path rendermesh.ObjectPaths.origin_dir
    rendermesh.ObjectPaths.is_origin_id rendermesh.Base.is_ascii_alphanumeric
    rendermesh.ObjectPaths.normalize_object_path rendermesh.Base.trim_start_matches
    rendermesh.Base.trim_end_matches rendermesh.Base.is_control rendermesh.Base.is_absolute
    rendermesh.Base.components rendermesh.Base.split rendermesh.Base.starts_with
    rendermesh.Base.ends_with rendermesh.ObjectPaths.climbs
    rendermesh.ObjectPaths.is_reserved_metadata_key rendermesh.Base.join
    rendermesh.Base.path_starts_with rendermesh.Mirror.read_object rendermesh.Mirror.read_metadata
    rendermesh.ObjectPaths.metadata_sidecar_path rendermesh.ObjectPaths.stable_key_hash
    rendermesh.ObjectPaths.encode_hex rendermesh.Gateway.Headers.headers_from_metadata
    rendermesh.Gateway.Headers.apply_headers rendermesh.Gateway.Headers.insert_header
    rendermesh.Base.insert rendermesh.Gateway.Headers.finalize_response
    rendermesh.Gateway.Headers.combined_response_headers rendermesh.Gateway.Headers.filtered_headers
    rendermesh.Gateway.Headers.is_unsafe_edge_header rendermesh.Base.extend
    rendermesh.Gateway.Handler.cors_headers_for rendermesh.Gateway.Headers.request_header
    rendermesh.Cors.allowed_origin_for rendermesh.Cors.parse_https_origin_host
    rendermesh.Cors.answered rendermesh.Cors.any_rule_matches rendermesh.Cors.rule_matches
    rendermesh.Gateway.Handler.static_response rendermesh.Gateway.Handler.served_response
get_example = refl

handle-bodiless_example : headed.body ≡ []
unfolding text_dec
handle-bodiless_example =
    handle-bodiless example_platform example_service (asking (text "HEAD")) headed head_example refl

handle-Safe_example : All (λ header. is_unsafe_edge_header header.0 ≡ false) found.headers
handle-Safe_example =
    handle-Safe example_platform example_service (asking (text "GET")) found get_example

handle-allows_example :
    get (text "access-control-allow-origin") found.headers ≡ some (text "https://a.io")
unfolding resolve rendermesh.Hosts.Names.normalize_host rendermesh.Base.trim
    rendermesh.Base.rsplit_once rendermesh.Hosts.Names.is_valid_host
    rendermesh.Base.to_ascii_lowercase get text_dec allowed_origin
    rendermesh.Gateway.Headers.request_header rendermesh.Cors.allowed_origin_for
    rendermesh.Cors.parse_https_origin_host rendermesh.Cors.answered
    rendermesh.Cors.any_rule_matches rendermesh.Cors.rule_matches
handle-allows_example =
    handle-allows example_platform example_service (asking (text "GET")) found example_host
      (text "https://a.io") get_example refl refl

handle_other_methods_example :
    (response : RenderResponse) × (handle example_platform example_service (asking (text "PUT"))
      ≡ ok response)
    × (handle slow_platform bare_service (asking (text "PUT")) ≡ ok response)
    × HasStatus
        (asking (text "PUT"))
        (resolve example_service.resolver (asking (text "PUT")).host)
        response.status
    × (response.body ≡ [])
unfolding text_dec
handle_other_methods_example =
    handle_other_methods example_platform slow_platform example_service bare_service
      (asking (text "PUT")) refl refl refl refl refl
