-- ===== src/Manifest/Validation/WellFormed.antt =====
-- `validate_manifest` (src/services/manifest.rs) accepts exactly the well-formed manifests.
use rendermesh.ObjectPaths.Keys.{normalize_remote_key-IsKey}
use rendermesh.Base.{
  Result-cases, ap, ◌∙◌, ℕ, ◌≡◌, ◌↔◌, ◌⊎◌, inl, inr, refl, Bool, true, false, not, Option, none,
  some, [], Text, trim, text, ◌<◌, TextMap, All, unwrap_or, contains_key, ok, reject_if, for_each,
  for_each-All, arith,
}
use rendermesh.Manifest.{
  CdnConfig, cloudfront, cloudfront_saas, cloudflare, CdnDomainConfig, CloudFrontSaasCdnConfig,
  dns_records, OriginConfig, s3, local, sync_interval_seconds, activation_barrier_path, HostConfig,
  RenderMeshManifest,
}
use rendermesh.ObjectPaths.{is_origin_id, normalize_remote_key}
use rendermesh.Manifest.Validation.{
  is_blank, is_some_blank, is_http_url, is_zero_interval, check_parameter,
  validate_cdn_domain_config, validate_cloudfront_saas_cdn_config, validate_cdn_config,
  validate_barrier_path, validate_backend, validate_origin, validate_host, validate_manifest,
  url_prefix_not_http,
}

-- A text that has more than white space.
abbrev pub Filled : Text → Type 0
Filled value = is_blank value ≡ false

abbrev pub FilledIfPresent : Option Text → Type 0
FilledIfPresent none = Unit
FilledIfPresent (some value) = Filled value

abbrev pub FilledAndPresent : Option Text → Type 0
FilledAndPresent none = ⊥
FilledAndPresent (some value) = Filled value

-- Domain reconciliation, where it is enabled: CloudFront wants a certificate, and Cloudflare does
-- not manage custom hostnames.
abbrev pub GoodDomains : Bool → Option CdnDomainConfig → Type 0
GoodDomains for_cloudfront none = Unit
GoodDomains true (some d) =
    (d.enabled ≡ false) ⊎ (Filled d.origin_domain_env × FilledAndPresent d.certificate_arn_env)
GoodDomains false (some d) =
    (d.enabled ≡ false) ⊎ (Filled d.origin_domain_env × (d.mode ≡ dns_records))

is_blank-nil : is_blank [] ≡ true
unfolding is_blank trim
is_blank-nil = refl

certificate_iff :
    (arn : Option Text) → (is_blank (unwrap_or arn (text "")) ≡ false) ↔ FilledAndPresent arn
certificate_iff none = rw is_blank-nil (ground arith)
certificate_iff (some value) = (λ h. h, λ h. h)

domains_iff :
    (origin_id : Text) (domains : Option CdnDomainConfig) (b : Bool)
    → (validate_cdn_domain_config origin_id domains b ≡ ok tt) ↔ GoodDomains b domains
unfolding validate_cdn_domain_config
domains_iff origin_id none b = (λ h. tt, λ h. refl)
domains_iff origin_id (some d) true = ground (arith, certificate_iff d.certificate_arn_env)
domains_iff origin_id (some d) false = ground arith

-- CloudFront SaaS parameters have a name and an environment variable.
abbrev pub GoodParameter : Text × Text → Type 0
GoodParameter parameter = Filled (parameter.0) × Filled (parameter.1)

abbrev pub GoodSaas : CloudFrontSaasCdnConfig → Type 0
GoodSaas config =
    Filled config.distribution_id_env
    × FilledIfPresent config.connection_group_id_env
    × All GoodParameter config.parameters_env

present_iff : (value : Option Text) → (is_some_blank value ≡ false) ↔ FilledIfPresent value
present_iff none = (λ h. tt, λ h. refl)
present_iff (some value) = (λ h. h, λ h. h)

parameter_iff :
    (origin_id : Text) (parameter : Text × Text)
    → (check_parameter origin_id parameter ≡ ok tt) ↔ GoodParameter parameter
parameter_iff origin_id parameter = ground arith

saas_iff :
    (origin_id : Text) (config : CloudFrontSaasCdnConfig)
    → (validate_cloudfront_saas_cdn_config origin_id config ≡ ok tt) ↔ GoodSaas config
unfolding validate_cloudfront_saas_cdn_config
saas_iff origin_id config = ground (
  arith,
  present_iff config.connection_group_id_env,
  for_each-All (check_parameter origin_id) GoodParameter config.parameters_env
      (parameter_iff origin_id),
)

abbrev pub GoodCdn : Option CdnConfig → Type 0
GoodCdn none = Unit
GoodCdn (some (cloudfront config)) =
    Filled config.distribution_id_env × GoodDomains true config.domains
GoodCdn (some (cloudflare config)) =
    Filled config.zone_id_env
    × Filled config.api_token_env
    × All (λ prefix. is_http_url prefix ≡ true) config.url_prefixes
    × GoodDomains false config.domains
GoodCdn (some (cloudfront_saas config)) = GoodSaas config

prefix_iff :
    (origin_id prefix : Text)
    → (reject_if (not (is_http_url prefix)) (url_prefix_not_http origin_id) ≡ ok tt)
      ↔ (is_http_url prefix ≡ true)
prefix_iff origin_id prefix = ground arith

cdn_iff :
    (origin_id : Text) (cdn : Option CdnConfig)
    → (validate_cdn_config origin_id cdn ≡ ok tt) ↔ GoodCdn cdn
unfolding validate_cdn_config
cdn_iff origin_id none = (λ h. tt, λ h. refl)
cdn_iff origin_id (some (cloudfront config)) =
    ground (arith, domains_iff origin_id config.domains true)
cdn_iff origin_id (some (cloudflare config)) = ground (
  arith,
  domains_iff origin_id config.domains false,
  for_each-All (λ prefix. reject_if (not (is_http_url prefix)) (url_prefix_not_http origin_id))
      (λ prefix. is_http_url prefix ≡ true) config.url_prefixes (prefix_iff origin_id),
)
cdn_iff origin_id (some (cloudfront_saas config)) = saas_iff origin_id config

abbrev pub PositiveIfPresent : Option ℕ → Type 0
PositiveIfPresent none = Unit
PositiveIfPresent (some seconds) = 0 < seconds

-- A barrier is a key that the synchronisation accepts.
abbrev pub GoodBarrier : Option Text → Type 0
GoodBarrier none = Unit
GoodBarrier (some path) = normalize_remote_key path ≡ ok path

barrier_iff :
    (origin_id : Text) (path : Option Text)
    → (validate_barrier_path origin_id path ≡ ok tt) ↔ GoodBarrier path
unfolding validate_barrier_path
barrier_iff origin_id none = (λ h. tt, λ h. refl)
barrier_iff origin_id (some path) = elim (Result-cases (normalize_remote_key path)) [
  | inl (key, e) ↦
      let same = (normalize_remote_key-IsKey path key e).0 in
      (λ h. e ∙ ap ok same, λ h. ground arith)
  | inr (error, e) ↦ ground arith
]

interval_iff : (o : Option ℕ) → (is_zero_interval o ≡ false) ↔ PositiveIfPresent o
interval_iff none = (λ h. tt, λ h. refl)
interval_iff (some seconds) = ground arith

module _ {Value : Type 0} where
  abbrev pub GoodBackend : OriginConfig Value → Type 0
  GoodBackend (s3 origin) = Filled origin.bucket × GoodCdn origin.cdn
  GoodBackend (local origin) = Filled origin.path × GoodCdn origin.cdn

  abbrev pub GoodOrigin : Text × OriginConfig Value → Type 0
  GoodOrigin entry =
      (is_origin_id (entry.0) ≡ true)
      × GoodBackend (entry.1)
      × PositiveIfPresent (sync_interval_seconds (entry.1))
      × GoodBarrier (activation_barrier_path (entry.1))

  backend_iff :
      (origin_id : Text) (origin : OriginConfig Value)
      → (validate_backend origin_id origin ≡ ok tt) ↔ GoodBackend origin
  unfolding validate_backend
  backend_iff origin_id (s3 origin) = ground (arith, cdn_iff origin_id origin.cdn)
  backend_iff origin_id (local origin) = ground (arith, cdn_iff origin_id origin.cdn)

  origin_iff :
      (entry : Text × OriginConfig Value) → (validate_origin entry ≡ ok tt) ↔ GoodOrigin entry
  unfolding validate_origin
  origin_iff (origin_id, origin) = ground (
    arith,
    backend_iff origin_id origin,
    interval_iff (sync_interval_seconds origin),
    barrier_iff origin_id (activation_barrier_path origin),
  )

  abbrev pub GoodHost : TextMap (OriginConfig Value) → Text × HostConfig → Type 0
  GoodHost origins entry = Filled (entry.0) × (contains_key (entry.1.origin) origins ≡ true)

  host_iff :
      (origins : TextMap (OriginConfig Value)) (entry : Text × HostConfig)
      → (validate_host origins entry ≡ ok tt) ↔ GoodHost origins entry
  unfolding validate_host
  host_iff origins (host, config) = ground arith

  accepted :
      (m : RenderMeshManifest Value)
      → m.version ≡ 1
      → Filled m.runtime.local_store_dir
      → 0 < m.runtime.sync_interval_seconds
      → for_each validate_origin m.origins ≡ ok tt
      → for_each (validate_host m.origins) m.hosts ≡ ok tt
      → validate_manifest m ≡ ok tt
  unfolding validate_manifest
  accepted m a b c d e = ground arith

  -- A manifest that the gateway can be started with.
  pub record IsWellFormed (m : RenderMeshManifest Value) : Type 0 where
    pub version : m.version ≡ 1
    pub store : Filled m.runtime.local_store_dir
    pub interval : 0 < m.runtime.sync_interval_seconds
    pub origins : All GoodOrigin m.origins
    pub hosts : All (GoodHost m.origins) m.hosts

  -- Validation accepts exactly the well-formed manifests: version 1, a store directory and positive
  -- intervals; of each origin a valid id, a bucket or path, a usable CDN part and a barrier that is
  -- a valid key; and of each host a name and an origin that the manifest declares.
  pub validate_manifest_iff :
      (m : RenderMeshManifest Value) → (validate_manifest m ≡ ok tt) ↔ IsWellFormed m
  unfolding validate_manifest
  validate_manifest_iff m =
      let os = for_each-All validate_origin GoodOrigin m.origins origin_iff in
      let hs =
        for_each-All (validate_host m.origins) (GoodHost m.origins) m.hosts (host_iff m.origins) in
      (
        λ h. record {
          version = ground arith;
          store = ground arith;
          interval = ground arith;
          origins = os.0 (ground arith);
          hosts = hs.0 (ground arith);
        },
        λ w. accepted m w.version w.store w.interval (os.1 w.origins) (hs.1 w.hosts),
      )
