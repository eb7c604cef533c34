-- ===== src/Cors.antt =====
-- The CORS policy that follows from the manifest's hosts, src/services/cors.rs.
-- `url::Url::parse` is the parameter `parse_url`, with the accessors that the source reads.
pub mod Laws
pub mod Rules
pub mod Origins
use rendermesh.Base.{
  ℕ, Bool, true, false, not, ◌&&◌, ◌||◌, Option, none, some, List, [], ◌∷◌, ◌++◌, Text, text,
  TextMap, get, insert, is_empty, is_some, unwrap_or, if◌then◌else◌, ◌==◌, ◌===◌, ltb, byte_len,
  ends_with, strip_prefix, trim, to_ascii_lowercase,
}
use rendermesh.Manifest.{HostConfig, RenderMeshManifest}
use rendermesh.Hosts.Names.{normalize_host}

pub data CorsHostRule : Type 0 where
  exact wildcard_suffix : Text → CorsHostRule

pub record CorsPolicy : Type 0 where
  pub rules_by_origin : TextMap (List CorsHostRule)

-- The accessors of a parsed URL.
pub record Url : Type 0 where
  pub scheme : Text
  pub path : Text
  pub query : Option Text
  pub fragment : Option Text
  pub username : Text
  pub password : Option Text
  pub port : Option ℕ
  pub host_str : Option Text

-- `normalize_host(suffix).filter(|host| host == suffix)`, as a suffix rule
abbrev pub suffix_rule : Text → Option CorsHostRule
suffix_rule suffix = elim (normalize_host suffix) [
  | none ↦ none
  | some host ↦ if host === suffix then some (wildcard_suffix (text "." ++ host)) else none
]

abbrev pub exact_rule : Text → Option CorsHostRule
exact_rule normalized = elim (normalize_host normalized) [
  | none ↦ none
  | some host ↦ some (exact host)
]

-- The rule of one host of the manifest; the global `*` and invalid hosts have none.
unfoldable pub rule_of : Text → Option CorsHostRule
rule_of host =
    let normalized = to_ascii_lowercase (trim host) in
    if normalized === text "*" then none else elim (strip_prefix normalized (text "*.")) [
      | some suffix ↦ suffix_rule suffix
      | none ↦ exact_rule normalized
    ]

-- The rules of an origin: none for an origin that has no entry.
abbrev pub rules_for : CorsPolicy → Text → List CorsHostRule
rules_for policy origin = unwrap_or (get origin policy.rules_by_origin) []

-- `rules_by_origin.entry(origin).or_default().push(rule)`
unfoldable pub push_rule : CorsPolicy → Text → CorsHostRule → CorsPolicy
push_rule policy origin rule = record {
  rules_by_origin = insert origin (rules_for policy origin ++ rule ∷ []) policy.rules_by_origin;
}

abbrev pub push_found : CorsPolicy → Text → Option CorsHostRule → CorsPolicy
push_found policy origin none = policy
push_found policy origin (some rule) = push_rule policy origin rule

unfoldable pub add_hosts : CorsPolicy → TextMap HostConfig → CorsPolicy
add_hosts policy [] = policy
add_hosts policy ((host, config) ∷ hosts) =
    add_hosts (push_found policy config.origin (rule_of host)) hosts

unfoldable pub from_manifest : {Value : Type 0} → RenderMeshManifest Value → CorsPolicy
unfolding add_hosts
from_manifest manifest = add_hosts (record { rules_by_origin = [] }) manifest.hosts

-- The guards of the `match rule`.
unfoldable pub rule_matches : Text → CorsHostRule → Bool
rule_matches host (exact name) = name === host
rule_matches host (wildcard_suffix suffix) =
    ends_with host suffix && ltb (byte_len suffix) (byte_len host)

unfoldable pub any_rule_matches : Text → List CorsHostRule → Bool
any_rule_matches host [] = false
any_rule_matches host (rule ∷ rules) = rule_matches host rule || any_rule_matches host rules

-- `None | Some(443)`
abbrev pub is_default_port : Option ℕ → Bool
is_default_port none = true
is_default_port (some port) = port == 443

abbrev pub is_plain_https : Url → Bool
is_plain_https url =
    (url.scheme === text "https")
    && (url.path === text "/")
    && not (is_some url.query)
    && not (is_some url.fragment)
    && is_empty url.username
    && not (is_some url.password)
    && is_default_port url.port

abbrev pub host_of_url : Url → Option Text
host_of_url url = elim url.host_str [ none ↦ none | some host ↦ normalize_host host ]

-- The loop over the rules of an origin.
unfoldable pub answered : CorsPolicy → Text → Text → Text → Option Text
answered policy origin_id request_origin host = elim (get origin_id policy.rules_by_origin) [
  | none ↦ none
  | some rules ↦ if any_rule_matches host rules then some request_origin else none
]

module _ (parse_url : Text → Option Url) where
  unfoldable pub parse_https_origin_host : Text → Option Text
  parse_https_origin_host request_origin = elim (parse_url request_origin) [
    | none ↦ none
    | some url ↦ if is_plain_https url then host_of_url url else none
  ]

  unfoldable pub allowed_origin_for : CorsPolicy → Text → Text → Option Text
  allowed_origin_for policy origin_id request_origin =
      elim (parse_https_origin_host request_origin) [
        | none ↦ none
        | some host ↦ answered policy origin_id request_origin host
      ]
