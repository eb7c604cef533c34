-- ===== src/Routes/Render.antt =====
-- The route of all other requests, src/routes/render.rs, between HTTP and the gateway. Reading a body
-- and the checks of header names and values are those of `axum` and `http`.
use rendermesh.Base.{
  ℕ, Bool, ◌||◌, Option, none, some, List, [], ◌∷◌, Text, text, TextMap, insert, is_empty,
  if◌then◌else◌, ◌===◌, trim, split, unwrap_or, Result, ok, err,
}
use rendermesh.Gateway.Handler.{handle}
use rendermesh.Gateway.Headers.{RenderRequest, RenderResponse, empty_response, first_header}
use rendermesh.Gateway.Objects.{Platform, Service, GatewayError}

abbrev pub first_segment : List Text → Text
first_segment [] = []
first_segment (segment ∷ segments) = segment

-- `.map(str::trim).filter(|value| !value.is_empty())`
abbrev pub trimmed : Option Text → Option Text
trimmed none = none
trimmed (some value) = if is_empty (trim value) then none else some (trim value)

abbrev pub or_else : Option Text → Option Text → Option Text
or_else none other = other
or_else (some value) other = some value

abbrev pub first_listed : Option Text → Option Text
first_listed none = none
first_listed (some value) = some (first_segment (split b',' value))

unfoldable pub client_ip_from_headers : List (Text × Option Text) → Option Text
client_ip_from_headers headers =
    or_else (trimmed (first_listed (first_header headers (text "x-forwarded-for"))))
      (trimmed (first_header headers (text "x-real-ip")))

-- What the route is called with; the body is read by `to_bytes`, up to a limit.
pub record IncomingRequest : Type 0 where
  pub method : Text
  pub path : Text
  pub query : Option Text
  pub headers : List (Text × Option Text)
  pub to_bytes : ℕ → Option (List ℕ)

abbrev pub reads_body : Text → Bool
reads_body method = method === text "GET" || method === text "HEAD" || method === text "OPTIONS"

-- The body, or none if it is refused.
unfoldable pub read_body : IncomingRequest → ℕ → Option (List ℕ)
read_body request limit = if reads_body request.method then request.to_bytes limit else some []

abbrev pub render_request : IncomingRequest → List ℕ → RenderRequest
render_request request body = record {
  method = request.method;
  host = unwrap_or (first_header request.headers (text "host")) [];
  path = request.path;
  query = request.query;
  scheme = text "https";
  client_ip = client_ip_from_headers request.headers;
  headers = request.headers;
  body = body;
}

module _ (header_name : Text → Option Text) (is_header_value : Text → Bool) where
  abbrev pub insert_valid : TextMap Text → Option Text → Text → TextMap Text
  insert_valid headers none value = headers
  insert_valid headers (some name) value =
      if is_header_value value then insert name value headers else headers

  -- A header whose name or value is not valid is skipped.
  unfoldable pub valid_headers : TextMap Text → TextMap Text → TextMap Text
  valid_headers built [] = built
  valid_headers built ((name, value) ∷ headers) =
      valid_headers (insert_valid built (header_name name) value) headers

  unfoldable pub render_response : RenderResponse → RenderResponse
  unfolding valid_headers
  render_response response = record response { headers = valid_headers [] response.headers }

  module _ {Registry Value : Type 0} (env : Platform Registry Value)
      (gw : Service Registry Value) where
    abbrev pub answer_of : Result GatewayError RenderResponse → RenderResponse
    answer_of (ok response) = render_response response
    answer_of (err error) = empty_response 500

    unfoldable pub render : IncomingRequest → ℕ → RenderResponse
    unfolding read_body client_ip_from_headers handle render_response
    render request limit = elim (read_body request limit) [
      | none ↦ empty_response 413
      | some body ↦ answer_of (handle env gw (render_request request body))
    ]
