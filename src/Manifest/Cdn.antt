-- ===== src/Manifest/Cdn.antt =====
-- The CDN part of an origin's configuration, src/dto/manifest.rs.
use rendermesh.Base.{Bool, Option, none, List, Text, TextMap}

pub data CdnRefreshStrategy : Type 0 where
  changed_paths all_paths : CdnRefreshStrategy

pub data DomainReconcileMode : Type 0 where
  dns_records custom_hostnames : DomainReconcileMode

pub data CloudFrontSaasValidationTokenHost : Type 0 where
  cloudfront_host : CloudFrontSaasValidationTokenHost

pub data CloudFrontSaasCertificateConfig : Type 0 where
  managed : CloudFrontSaasValidationTokenHost → CloudFrontSaasCertificateConfig

pub record CdnDomainConfig : Type 0 where
  pub enabled : Bool
  pub mode : DomainReconcileMode
  pub origin_domain_env : Text
  pub certificate_arn_env : Option Text
  pub proxied : Bool
  pub include_wildcards : Bool
  pub remove_extra_domains : Bool

pub record CloudFrontCdnConfig : Type 0 where
  pub distribution_id_env : Text
  pub strategy : CdnRefreshStrategy
  pub domains : Option CdnDomainConfig

pub record CloudflareCdnConfig : Type 0 where
  pub zone_id_env : Text
  pub api_token_env : Text
  pub api_base_env : Option Text
  pub strategy : CdnRefreshStrategy
  pub url_prefixes : List Text
  pub domains : Option CdnDomainConfig

pub record CloudFrontSaasCdnConfig : Type 0 where
  pub distribution_id_env : Text
  pub connection_group_id_env : Option Text
  pub strategy : CdnRefreshStrategy
  pub parameters_env : TextMap Text
  pub certificate : Option CloudFrontSaasCertificateConfig

pub data CdnConfig : Type 0 where
  cloudfront : CloudFrontCdnConfig → CdnConfig
  cloudfront_saas : CloudFrontSaasCdnConfig → CdnConfig
  cloudflare : CloudflareCdnConfig → CdnConfig

-- `CdnConfig::domains`
unfoldable pub domains_of : CdnConfig → Option CdnDomainConfig
domains_of (cloudfront config) = config.domains
domains_of (cloudflare config) = config.domains
domains_of (cloudfront_saas config) = none
