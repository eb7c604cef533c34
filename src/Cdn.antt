-- ===== src/Cdn.antt =====
-- What the CDN services and clients exchange, src/repositories/cdn.rs.
pub mod Hosts
pub mod Plan
pub mod Tenants
pub mod Cloudflare
use rendermesh.Base.{
  ℕ, Bool, Option, List, [], ◌∷◌, ◌++◌, Text, text, TextMap, TextSet, Result, ok, err, is_empty,
  if◌then◌else◌,
}

pub data CdnPurgeMode : Type 0 where
  purge_all : CdnPurgeMode
  purge_paths purge_urls : List Text → CdnPurgeMode

pub record CdnPurgeRequest : Type 0 where
  pub origin_id : Text
  pub generation : ℕ
  pub mode : CdnPurgeMode

pub record CdnPurgeResult : Type 0 where
  pub provider : Text
  pub request_ids : List Text
  pub status : Text
  pub submitted_items : ℕ

pub record CdnPurgeFailure : Type 0 where
  pub provider : Text
  pub request_ids : List Text
  pub submitted_items : ℕ
  pub message : Text

-- `request_ids.join(", ")`
abbrev pub comma_joined : List Text → Text
comma_joined [] = []
comma_joined (id ∷ []) = id
comma_joined (id ∷ next ∷ ids) = id ++ text ", " ++ comma_joined (next ∷ ids)

-- `Display::fmt` of a failure.
unfoldable pub failure_message : CdnPurgeFailure → Text
failure_message failure =
    if is_empty failure.request_ids
    then failure.message
    else failure.message
      ++ text "; completed invalidation request ids: ["
      ++ comma_joined failure.request_ids
      ++ text "]"

pub record CdnDomainReconcileRequest : Type 0 where
  pub origin_id : Text
  pub desired_domains : TextSet
  pub origin_domain : Text
  pub certificate_arn : Option Text
  pub proxied : Bool
  pub remove_extra_domains : Bool

pub record CdnDomainReconcileResult : Type 0 where
  pub provider : Text
  pub status : Text
  pub added : ℕ
  pub updated : ℕ
  pub removed : ℕ
  pub unchanged : ℕ

pub record ManagedCertificateRequest : Type 0 where
  pub validation_token_host : Text

pub record CdnTenantConfig : Type 0 where
  pub distribution_id : Text
  pub connection_group_id : Option Text
  pub parameters : TextMap Text
  pub managed_certificate : Option ManagedCertificateRequest

pub record CdnTenantReconcileRequest : Type 0 where
  pub origin_id : Text
  pub desired_domains : TextSet

-- The errors of the two functions below.
pub data PurgeModeError : Type 0 where
  requires_paths : Text → PurgeModeError
  requires_full_urls : PurgeModeError

unfoldable pub ensure_paths_mode : CdnPurgeMode → Text → Result PurgeModeError (List Text)
ensure_paths_mode purge_all provider = ok (text "/*" ∷ [])
ensure_paths_mode (purge_paths paths) provider = ok paths
ensure_paths_mode (purge_urls urls) provider = err (requires_paths provider)

pub data CloudflarePurgePayload : Type 0 where
  everything : CloudflarePurgePayload
  files : List Text → CloudflarePurgePayload

unfoldable pub ensure_cloudflare_mode : CdnPurgeMode → Result PurgeModeError CloudflarePurgePayload
ensure_cloudflare_mode purge_all = ok everything
ensure_cloudflare_mode (purge_urls urls) = ok (files urls)
ensure_cloudflare_mode (purge_paths paths) = err requires_full_urls
