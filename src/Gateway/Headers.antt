-- ===== src/Gateway/Headers.antt =====
-- Responses and their headers: src/dto/render.rs and the header functions of
-- src/services/render_gateway.rs. A method is its text, a status its code and a body its bytes.
pub mod Laws
use rendermesh.Mirror.{ObjectMetadata}
use rendermesh.Base.{
  ℕ, Bool, true, false, not, ◌&&◌, ◌||◌, Option, none, some, List, [], ◌∷◌, ◌++◌, Text, text,
  TextMap, get, utf8, insert, if◌then◌else◌, ◌==◌, ◌===◌, is_empty, starts_with, to_ascii_lowercase,
  trim_start_matches,
}

-- `headers` is a `HeaderMap`: names in lower case, in the order of iteration, each with its value
-- if that is visible ASCII (`to_str`).
pub record RenderRequest : Type 0 where
  pub method : Text
  pub host : Text
  pub path : Text
  pub query : Option Text
  pub scheme : Text
  pub client_ip : Option Text
  pub headers : List (Text × Option Text)
  pub body : List ℕ

pub record RenderResponse : Type 0 where
  pub status : ℕ
  pub headers : TextMap Text
  pub body : List ℕ

-- `RenderResponse::empty`
abbrev pub empty_response : ℕ → RenderResponse
empty_response status = record { status = status; headers = []; body = [] }

unfoldable pub insert_header : TextMap Text → Text → Text → TextMap Text
insert_header headers name value = insert (to_ascii_lowercase name) value headers

unfoldable pub apply_headers : TextMap Text → TextMap Text → TextMap Text
unfolding insert_header
apply_headers target [] = target
apply_headers target ((name, value) ∷ headers) =
    apply_headers (insert_header target name value) headers

unfoldable pub combined_response_headers : TextMap Text → TextMap Text → TextMap Text
combined_response_headers edge_headers cors_headers = apply_headers edge_headers cors_headers

abbrev pub is_one_of : Text → List Text → Bool
is_one_of name [] = false
is_one_of name (other ∷ others) = name === other || is_one_of name others

abbrev pub unsafe_names : List Text
unsafe_names =
    text "connection"
    ∷ text "content-encoding"
    ∷ text "content-length"
    ∷ text "host"
    ∷ text "keep-alive"
    ∷ text "proxy-authenticate"
    ∷ text "proxy-authorization"
    ∷ text "te"
    ∷ text "trailer"
    ∷ text "transfer-encoding"
    ∷ text "upgrade"
    ∷ []

unfoldable pub is_unsafe_edge_header : Text → Bool
is_unsafe_edge_header name = is_one_of (to_ascii_lowercase name) unsafe_names

-- The pairs are collected into a map: of names that differ in case only, the last one stays.
unfoldable pub collect_filtered : TextMap Text → TextMap Text → TextMap Text
collect_filtered collected [] = collected
collect_filtered collected ((name, value) ∷ headers) =
    collect_filtered
      (if is_unsafe_edge_header name
        then collected
        else insert (to_ascii_lowercase name) value collected)
      headers

unfoldable pub filtered_headers : TextMap Text → TextMap Text
unfolding collect_filtered
filtered_headers headers = collect_filtered [] headers

abbrev pub insert_if_present : TextMap Text → Text → Option Text → TextMap Text
insert_if_present headers name none = headers
insert_if_present headers name (some value) = insert_header headers name value

unfoldable pub headers_from_metadata : ObjectMetadata → TextMap Text
headers_from_metadata metadata =
    let typed = insert_if_present [] (text "content-type") metadata.content_type in
    let cached = insert_if_present typed (text "cache-control") metadata.cache_control in
    let tagged = insert_if_present cached (text "etag") metadata.etag in
    insert_if_present tagged (text "last-modified") metadata.last_modified

-- `b"not found"`
unfoldable pub not_found_text : TextMap Text → RenderResponse
not_found_text cors_headers = record {
  status = 404;
  headers = apply_headers [] cors_headers;
  body = utf8 (text "not found");
}

unfoldable pub is_reserved_rendermesh_path : Text → Bool
is_reserved_rendermesh_path path =
    let path' = trim_start_matches b'/' path in
    path' === text ".rendermesh"
    || starts_with path' (text ".rendermesh/")
    || path' === text "_rendermesh"
    || starts_with path' (text "_rendermesh/")

-- `headers.get(name).and_then(|value| value.to_str().ok())`: the first entry of the name.
unfoldable pub first_header : List (Text × Option Text) → Text → Option Text
first_header [] name = none
first_header ((other, value) ∷ headers) name =
    if other === name then value else first_header headers name

unfoldable pub request_header : RenderRequest → Text → Option Text
unfolding first_header
request_header request name = first_header request.headers name

-- `request_headers_map`: values that are not text are dropped, and the last of a name stays.
unfoldable pub collect_headers : TextMap Text → List (Text × Option Text) → TextMap Text
collect_headers collected [] = collected
collect_headers collected ((name, none) ∷ headers) = collect_headers collected headers
collect_headers collected ((name, some value) ∷ headers) =
    collect_headers (insert (to_ascii_lowercase name) value collected) headers

unfoldable pub finalize_response : RenderResponse → RenderRequest → RenderResponse
finalize_response response request =
    if request.method === text "HEAD" then record response { body = [] } else response

-- The two headers for an allowed origin.
abbrev pub allow_headers : Text → TextMap Text
allow_headers allowed_origin =
    (text "access-control-allow-origin", allowed_origin) ∷ (text "vary", text "Origin") ∷ []

abbrev pub headers_if_allowed : Option Text → TextMap Text
headers_if_allowed none = []
headers_if_allowed (some origin) = allow_headers origin
