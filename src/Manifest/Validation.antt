-- ===== src/Manifest/Validation.antt =====
-- `validate_manifest` and its parts, src/services/manifest.rs, with the errors in the order in
-- which the source finds them.
pub mod WellFormed
use rendermesh.Base.{
  ℕ, Bool, true, false, not, ◌&&◌, ◌||◌, Option, none, some, List, Text, text, TextMap, is_empty,
  ◌==◌, if◌then◌else◌, unwrap_or, trim, starts_with, contains_key, Result, ok, err, ◌>>=◌, ◌>>◌,
  reject_if, for_each,
}
use rendermesh.Manifest.{
  CdnConfig, cloudfront, cloudfront_saas, cloudflare, CdnDomainConfig, CloudFrontSaasCdnConfig,
  DomainReconcileMode, dns_records, custom_hostnames, OriginConfig, s3, local,
  sync_interval_seconds, activation_barrier_path, HostConfig, RenderMeshManifest,
}
use rendermesh.ObjectPaths.{PathError, is_origin_id, normalize_remote_key}

-- One constructor for each message of the source.
pub data ManifestError : Type 0 where
  unsupported_version : ℕ → ManifestError
  local_store_dir_required sync_interval_not_positive empty_host : ManifestError
  bad_origin_id bucket_required path_required origin_sync_interval_not_positive :
      Text → ManifestError
  bad_activation_barrier : Text → PathError → ManifestError
  unknown_origin : Text → Text → ManifestError
  distribution_id_required zone_id_required api_token_required : Text → ManifestError
  url_prefix_not_http connection_group_required empty_parameter_name : Text → ManifestError
  parameter_required : Text → Text → ManifestError
  origin_domain_required certificate_required custom_hostnames_refused : Text → ManifestError

abbrev Check : Type 0
Check = Result ManifestError (Unit {0})

-- `value.trim().is_empty()`
unfoldable pub is_blank : Text → Bool
is_blank value = is_empty (trim value)

abbrev is_custom_hostnames : DomainReconcileMode → Bool
is_custom_hostnames dns_records = false
is_custom_hostnames custom_hostnames = true

check_domains : Text → CdnDomainConfig → Bool → Check
check_domains origin_id domains for_cloudfront = do
  reject_if (is_blank domains.origin_domain_env) (origin_domain_required origin_id)
  reject_if (for_cloudfront && is_blank (unwrap_or domains.certificate_arn_env (text "")))
      (certificate_required origin_id)
  reject_if (not for_cloudfront && is_custom_hostnames domains.mode)
      (custom_hostnames_refused origin_id)

unfoldable pub validate_cdn_domain_config : Text → Option CdnDomainConfig → Bool → Check
unfolding check_domains
validate_cdn_domain_config origin_id none for_cloudfront = ok tt
validate_cdn_domain_config origin_id (some domains) for_cloudfront =
    if not domains.enabled then ok tt else check_domains origin_id domains for_cloudfront

abbrev is_some_blank : Option Text → Bool
is_some_blank none = false
is_some_blank (some value) = is_blank value

abbrev check_parameter : Text → Text × Text → Check
check_parameter origin_id parameter = do
  reject_if (is_blank (parameter.0)) (empty_parameter_name origin_id)
  reject_if (is_blank (parameter.1)) (parameter_required origin_id (parameter.0))

unfoldable pub validate_cloudfront_saas_cdn_config : Text → CloudFrontSaasCdnConfig → Check
validate_cloudfront_saas_cdn_config origin_id config = do
  reject_if (is_blank config.distribution_id_env) (distribution_id_required origin_id)
  reject_if (is_some_blank config.connection_group_id_env) (connection_group_required origin_id)
  for_each (check_parameter origin_id) config.parameters_env

abbrev is_http_url : Text → Bool
is_http_url url = starts_with url (text "https://") || starts_with url (text "http://")

unfoldable pub validate_cdn_config : Text → Option CdnConfig → Check
validate_cdn_config origin_id none = ok tt
validate_cdn_config origin_id (some (cloudfront config)) = do
  reject_if (is_blank config.distribution_id_env) (distribution_id_required origin_id)
  validate_cdn_domain_config origin_id config.domains true
validate_cdn_config origin_id (some (cloudflare config)) = do
  reject_if (is_blank config.zone_id_env) (zone_id_required origin_id)
  reject_if (is_blank config.api_token_env) (api_token_required origin_id)
  for_each (λ prefix. reject_if (not (is_http_url prefix)) (url_prefix_not_http origin_id))
      config.url_prefixes
  validate_cdn_domain_config origin_id config.domains false
validate_cdn_config origin_id (some (cloudfront_saas config)) =
    validate_cloudfront_saas_cdn_config origin_id config

-- `interval == Some(0)`
abbrev is_zero_interval : Option ℕ → Bool
is_zero_interval none = false
is_zero_interval (some seconds) = seconds == 0

validate_barrier_path : Text → Option Text → Check
validate_barrier_path origin_id none = ok tt
validate_barrier_path origin_id (some path) = elim (normalize_remote_key path) [
  | ok key ↦ ok tt
  | err error ↦ err (bad_activation_barrier origin_id error)
]

module _ {Value : Type 0} where
  -- The `match origin` of the loop over the origins.
  validate_backend : Text → OriginConfig Value → Check
  validate_backend origin_id (s3 origin) = do
    reject_if (is_blank origin.bucket) (bucket_required origin_id)
    validate_cdn_config origin_id origin.cdn
  validate_backend origin_id (local origin) = do
    reject_if (is_blank origin.path) (path_required origin_id)
    validate_cdn_config origin_id origin.cdn

  -- One round of the loop over the origins.
  unfoldable pub validate_origin : Text × OriginConfig Value → Check
  unfolding validate_backend validate_barrier_path
  validate_origin (origin_id, origin) = do
    reject_if (not (is_origin_id origin_id)) (bad_origin_id origin_id)
    validate_backend origin_id origin
    reject_if (is_zero_interval (sync_interval_seconds origin))
        (origin_sync_interval_not_positive origin_id)
    validate_barrier_path origin_id (activation_barrier_path origin)

  -- One round of the loop over the hosts.
  unfoldable pub validate_host : TextMap (OriginConfig Value) → Text × HostConfig → Check
  validate_host origins (host, config) = do
    reject_if (is_blank host) empty_host
    reject_if (not (contains_key config.origin origins)) (unknown_origin host config.origin)

  unfoldable pub validate_manifest : RenderMeshManifest Value → Check
  validate_manifest manifest = do
    reject_if (not (manifest.version == 1)) (unsupported_version manifest.version)
    reject_if (is_blank manifest.runtime.local_store_dir) local_store_dir_required
    reject_if (manifest.runtime.sync_interval_seconds == 0) sync_interval_not_positive
    for_each validate_origin manifest.origins
    for_each (validate_host manifest.origins) manifest.hosts
