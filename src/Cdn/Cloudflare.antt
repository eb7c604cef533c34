-- ===== src/Cdn/Cloudflare.antt =====
-- The Cloudflare client, src/repositories/cloudflare_cdn.rs. The HTTP client and the JSON parser are
-- parameters; the history holds the requests of one run with their replies, the latest first.
pub mod Histories
pub mod Records
pub mod Calls
pub mod Removals
pub mod Domains
use rendermesh.Base.{
  ℕ, suc, Bool, true, false, not, ◌&&◌, Option, none, some, List, [], ◌∷◌, ◌++◌, Text, text,
  TextSet, member, length, unwrap_or, ◌===◌, leb, ltb, if◌then◌else◌, to_ascii_lowercase, Result,
  ok, err,
}
use rendermesh.Base.Actions.{Action, then_run, pure, checked}
use rendermesh.Cdn.{
  CdnPurgeRequest, CdnPurgeResult, CdnDomainReconcileRequest, CdnDomainReconcileResult,
  PurgeModeError, CloudflarePurgePayload, everything, files, ensure_cloudflare_mode,
}

pub record CloudflareDnsRecord : Type 0 where
  pub id : Text
  pub record_type : Text
  pub name : Text
  pub content : Text
  pub proxied : Bool

pub data HttpMethod : Type 0 where
  http_get http_post http_put http_delete : HttpMethod

-- The JSON that is sent: to purge, or the name, the content and `proxied` of a record.
pub data HttpBody : Type 0 where
  no_body purge_everything : HttpBody
  purge_files : List Text → HttpBody
  dns_record : Text → Text → Bool → HttpBody

pub record HttpRequest : Type 0 where
  pub method : HttpMethod
  pub url : Text
  pub bearer : Text
  pub query : List (Text × Text)
  pub body : HttpBody

-- The body is missing if it cannot be read as text.
pub record HttpReply : Type 0 where
  pub status : ℕ
  pub body : Option Text

abbrev pub Exchange : Type 0
Exchange = HttpRequest × Option HttpReply

abbrev pub History : Type 0
History = List Exchange

pub record CloudflareDnsRecordListResponse : Type 0 where
  pub success : Bool
  pub result : List CloudflareDnsRecord

pub record CloudflarePurgeResponse : Type 0 where
  pub success : Bool
  pub result : Option (Option Text)

-- A request that is not answered, and JSON that does not parse, is `none`.
pub record HttpClient : Type 0 where
  pub send : History → HttpRequest → Option HttpReply
  pub parse_purge : Text → Option CloudflarePurgeResponse
  pub parse_records : Text → Option CloudflareDnsRecordListResponse

pub record CloudflareCdnRepository : Type 0 where
  pub client : HttpClient
  pub api_base : Text
  pub zone_id : Text
  pub api_token : Text

pub data CloudflareError : Type 0 where
  wrong_mode : PurgeModeError → CloudflareError
  not_sent : CloudflareError
  failed_with_status : ℕ → Text → CloudflareError
  not_successful not_parsed : Text → CloudflareError

-- `StatusCode::is_success`
abbrev pub is_success : ℕ → Bool
is_success status = leb 200 status && ltb status 300

module _ (repository : CloudflareCdnRepository) where
  abbrev pub bearing : HttpMethod → Text → List (Text × Text) → HttpBody → HttpRequest
  bearing method url query body = record {
    method = method;
    url = url;
    bearer = repository.api_token;
    query = query;
    body = body;
  }

  abbrev pub replied : Option HttpReply → Result CloudflareError (ℕ × Text)
  replied none = err not_sent
  replied (some reply) = ok (reply.status, unwrap_or reply.body [])

  -- A request with its status and its text.
  unfoldable pub send : HttpRequest → Action History CloudflareError (ℕ × Text)
  send request history = (
    (request, (repository.client).send history request) ∷ history,
    replied ((repository.client).send history request),
  )

  abbrev pub successful : ℕ × Text → Result CloudflareError Text
  successful (status, body) =
      if is_success status then ok body else err (failed_with_status status body)

  abbrev pub zone_url : Text → Text
  zone_url path = repository.api_base ++ text "/zones/" ++ repository.zone_id ++ path

  abbrev pub list_request : HttpRequest
  list_request =
      bearing http_get (zone_url (text "/dns_records")) ((text "type", text "CNAME") ∷ []) no_body

  abbrev pub create_request : Text → Text → Bool → HttpRequest
  create_request name content proxied =
      bearing http_post (zone_url (text "/dns_records")) [] (dns_record name content proxied)

  abbrev pub update_request : CloudflareDnsRecord → Text → Bool → HttpRequest
  update_request found content proxied =
      bearing http_put (zone_url (text "/dns_records/" ++ found.id)) []
        (dns_record found.name content proxied)

  abbrev pub delete_request : Text → HttpRequest
  delete_request id = bearing http_delete (zone_url (text "/dns_records/" ++ id)) [] no_body

  -- `create_dns_record`, `update_dns_record` and `delete_dns_record` differ in the request only.
  unfoldable pub mutate : HttpRequest → Action History CloudflareError (Unit {0})
  unfolding send
  mutate request =
      then_run (send request) (λ reply. then_run (checked (successful reply)) (λ _. pure tt))

  abbrev pub parsed_records :
      Text
      → Option CloudflareDnsRecordListResponse
      → Result CloudflareError (List CloudflareDnsRecord)
  parsed_records body none = err (not_parsed body)
  parsed_records body (some response) =
      if response.success then ok response.result else err (not_successful body)

  unfoldable pub list_dns_records : Action History CloudflareError (List CloudflareDnsRecord)
  unfolding send
  list_dns_records = then_run (send list_request) (λ reply.
      then_run (checked (successful reply))
        (λ body. checked (parsed_records body ((repository.client).parse_records body))))

  abbrev pub payload_body : CloudflarePurgePayload → HttpBody
  payload_body everything = purge_everything
  payload_body (files urls) = purge_files urls

  abbrev pub payload_items : CloudflarePurgePayload → ℕ
  payload_items everything = 1
  payload_items (files urls) = length urls

  abbrev pub ids_of : Option (Option Text) → List Text
  ids_of (some (some id)) = id ∷ []
  ids_of _ = []

  abbrev pub purged :
      ℕ → Text → Option CloudflarePurgeResponse → Result CloudflareError CdnPurgeResult
  purged items body none = ok (record {
    provider = text "cloudflare";
    request_ids = [];
    status = text "submitted";
    submitted_items = items;
  })
  purged items body (some response) =
      if response.success
      then ok (record {
        provider = text "cloudflare";
        request_ids = ids_of response.result;
        status = text "submitted";
        submitted_items = items;
      })
      else err (not_successful body)

  abbrev pub mode_checked :
      Result PurgeModeError CloudflarePurgePayload → Result CloudflareError CloudflarePurgePayload
  mode_checked (ok payload) = ok payload
  mode_checked (err error) = err (wrong_mode error)

  unfoldable pub purge_cache : CdnPurgeRequest → Action History CloudflareError CdnPurgeResult
  unfolding send
  purge_cache request =
      then_run (checked (mode_checked (ensure_cloudflare_mode request.mode))) (λ payload.
        then_run
          (send (bearing http_post (zone_url (text "/purge_cache")) [] (payload_body payload)))
          (λ reply. then_run (checked (successful reply)) (λ body.
            checked (purged (payload_items payload) body ((repository.client).parse_purge body)))))
