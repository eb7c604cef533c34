-- ===== src/Cdn/Hosts.antt =====
-- The hosts of an origin that its CDN serves: src/services/cdn_domains.rs,
-- src/services/cdn_tenants.rs and `exact_url_prefixes_for_origin` of src/services/startup/cdn.rs.
pub mod Membership
use rendermesh.Base.{
  Bool, true, false, not, ◌&&◌, ◌||◌, Option, none, some, List, [], ◌∷◌, ◌++◌, Text, text, TextMap,
  TextSet, collect_set, ◌===◌, if◌then◌else◌, starts_with, strip_prefix, trim, to_ascii_lowercase,
}
use rendermesh.Hosts.Names.{normalize_host}
use rendermesh.Manifest.{CdnDomainConfig, HostConfig, RenderMeshManifest}

abbrev pub with_wildcard : Option Text → Option Text
with_wildcard none = none
with_wildcard (some normalized) = some (text "*." ++ normalized)

unfoldable pub normalize_cdn_host : Text → Option Text
normalize_cdn_host host =
    let lowered = to_ascii_lowercase (trim host) in
    if lowered === text "*" then none else elim (strip_prefix lowered (text "*.")) [
      | some suffix ↦ with_wildcard (normalize_host suffix)
      | none ↦ normalize_host lowered
    ]

-- `.filter(test).filter_map(name)` on the host entries.
abbrev pub listed_if : Bool → Option Text → List Text → List Text
listed_if true (some host) rest = host ∷ rest
listed_if true none rest = rest
listed_if false name rest = rest

unfoldable pub select_hosts :
    (Text × HostConfig → Bool) → (Text → Option Text) → TextMap HostConfig → List Text
select_hosts test name [] = []
select_hosts test name (entry ∷ hosts) =
    listed_if (test entry) (name (entry.0)) (select_hosts test name hosts)

abbrev pub is_desired : Text → CdnDomainConfig → Text × HostConfig → Bool
is_desired origin_id config (host, host_config) =
    host_config.origin === origin_id
    && (config.include_wildcards || not (starts_with (trim host) (text "*.")))

-- The test of `exact_hosts_for_origin` and of `exact_url_prefixes_for_origin`.
abbrev pub is_exact : Text → Text × HostConfig → Bool
is_exact origin_id (host, host_config) =
    host_config.origin === origin_id && not (starts_with (trim host) (text "*"))

abbrev pub https_url : Text → Option Text
https_url host = elim (normalize_host host) [
  | none ↦ none
  | some name ↦ some (text "https://" ++ name)
]

module _ {Value : Type 0} where
  unfoldable pub desired_domains_for_origin :
      RenderMeshManifest Value → Text → CdnDomainConfig → TextSet
  unfolding select_hosts
  desired_domains_for_origin manifest origin_id config =
      collect_set [] (select_hosts (is_desired origin_id config) normalize_cdn_host manifest.hosts)

  unfoldable pub exact_hosts_for_origin : RenderMeshManifest Value → Text → TextSet
  unfolding select_hosts
  exact_hosts_for_origin manifest origin_id =
      collect_set [] (select_hosts (is_exact origin_id) normalize_host manifest.hosts)

  unfoldable pub exact_url_prefixes_for_origin : RenderMeshManifest Value → Text → List Text
  unfolding select_hosts
  exact_url_prefixes_for_origin manifest origin_id =
      select_hosts (is_exact origin_id) https_url manifest.hosts
