-- ===== src/Cdn/Tenants.antt =====
-- Distribution tenants of CloudFront: the records of
-- src/repositories/cloudfront_saas_cdn/aws_client.rs and what
-- src/repositories/cloudfront_saas_cdn.rs decides about one tenant.
pub mod Service
pub mod Reconcile
pub mod Purge
pub mod Names
pub mod Safety
pub mod Steps
pub mod Adoption
use rendermesh.Base.{
  Bool, true, false, not, ◌&&◌, Option, none, some, List, [], ◌∷◌, Text, TextMap, TextSet, extend,
  ◌===◌, if◌then◌else◌, Result, ok, err,
}
use rendermesh.Cdn.{CdnTenantConfig, ManagedCertificateRequest}

pub record TenantGeoRestrictionCustomization : Type 0 where
  pub restriction_type : Text
  pub locations : Option (List Text)

pub record TenantWebAclCustomization : Type 0 where
  pub action : Text
  pub arn : Option Text

pub record TenantCustomizations : Type 0 where
  pub certificate_arn : Option Text
  pub geo_restrictions : Option TenantGeoRestrictionCustomization
  pub web_acl : Option TenantWebAclCustomization

pub record DistributionTenant : Type 0 where
  pub id : Text
  pub name : Text
  pub distribution_id : Text
  pub domains : TextSet
  pub connection_group_id : Option Text
  pub parameters : TextMap Text
  pub customizations : Option TenantCustomizations
  pub enabled : Option Bool

pub record VersionedDistributionTenant : Type 0 where
  pub tenant : DistributionTenant
  pub etag : Text

pub record DistributionTenantPage : Type 0 where
  pub tenants : List DistributionTenant
  pub next_marker : Option Text

pub data ManagedCertificateLookup : Type 0 where
  found_certificate : Option Text → ManagedCertificateLookup
  no_certificate : ManagedCertificateLookup

pub record CreateDistributionTenantRequest : Type 0 where
  pub distribution_id : Text
  pub name : Text
  pub domains : TextSet
  pub connection_group_id : Option Text
  pub parameters : TextMap Text
  pub managed_certificate : Option ManagedCertificateRequest
  pub enabled : Bool

pub record UpdateDistributionTenantRequest : Type 0 where
  pub id : Text
  pub if_match : Text
  pub tenant : DistributionTenant
  pub managed_certificate : Option ManagedCertificateRequest

pub record TenantInvalidationRequest : Type 0 where
  pub tenant_id : Text
  pub caller_reference : Text
  pub paths : List Text

-- The derived equality of options and of lists.
abbrev same_option : {A : Type 0} → (A → A → Bool) → Option A → Option A → Bool
same_option same none none = true
same_option same (some a) (some b) = same a b
same_option same none (some b) = false
same_option same (some a) none = false

abbrev pub same_list : {A : Type 0} → (A → A → Bool) → List A → List A → Bool
same_list same [] [] = true
same_list same (a ∷ xs) (b ∷ ys) = same a b && same_list same xs ys
same_list same [] (b ∷ ys) = false
same_list same (a ∷ xs) [] = false

abbrev same_text : Text → Text → Bool
same_text a b = a === b

abbrev same_bool : Bool → Bool → Bool
same_bool a b = if a then b else not b

abbrev same_parameter : Text × Text → Text × Text → Bool
same_parameter (name, value) (other, other_value) = name === other && value === other_value

abbrev same_geo : TenantGeoRestrictionCustomization → TenantGeoRestrictionCustomization → Bool
same_geo a b =
    a.restriction_type === b.restriction_type
    && same_option (same_list same_text) a.locations b.locations

abbrev same_acl : TenantWebAclCustomization → TenantWebAclCustomization → Bool
same_acl a b = a.action === b.action && same_option same_text a.arn b.arn

unfoldable same_customizations : TenantCustomizations → TenantCustomizations → Bool
same_customizations a b =
    same_option same_text a.certificate_arn b.certificate_arn
    && same_option same_geo a.geo_restrictions b.geo_restrictions
    && same_option same_acl a.web_acl b.web_acl

unfoldable pub same_tenant : DistributionTenant → DistributionTenant → Bool
unfolding same_customizations
same_tenant a b =
    a.id === b.id
    && a.name === b.name
    && a.distribution_id === b.distribution_id
    && same_list same_text a.domains b.domains
    && same_option same_text a.connection_group_id b.connection_group_id
    && same_list same_parameter a.parameters b.parameters
    && same_option same_customizations a.customizations b.customizations
    && same_option same_bool a.enabled b.enabled

-- `a.or_else(|| b)`
abbrev pub or_else : {A : Type 0} → Option A → Option A → Option A
or_else (some a) b = some a
or_else none b = b

abbrev enabled_again : Option Bool → Option Bool
enabled_again none = none
enabled_again (some enabled) = some true

unfoldable pub merged_tenant : CdnTenantConfig → DistributionTenant → Text → DistributionTenant
merged_tenant config existing domain = record {
  id = existing.id;
  name = existing.name;
  distribution_id = config.distribution_id;
  domains = domain ∷ [];
  connection_group_id = or_else config.connection_group_id existing.connection_group_id;
  parameters = extend existing.parameters config.parameters;
  customizations = existing.customizations;
  enabled = enabled_again existing.enabled;
}

abbrev certificate_matches :
    Option ManagedCertificateRequest → Option ManagedCertificateLookup → Bool
certificate_matches none certificate = true
certificate_matches (some request) (some (found_certificate (some existing))) =
    existing === request.validation_token_host
certificate_matches (some request) (some (found_certificate none)) = true
certificate_matches (some request) (some no_certificate) = false
certificate_matches (some request) none = false

unfoldable pub managed_certificate_matches :
    CdnTenantConfig → Option ManagedCertificateLookup → Bool
managed_certificate_matches config certificate =
    certificate_matches config.managed_certificate certificate

unfoldable pub tenant_matches :
    CdnTenantConfig → DistributionTenant → Text → Option ManagedCertificateLookup → Bool
unfolding merged_tenant managed_certificate_matches same_tenant
tenant_matches config existing domain certificate =
    same_tenant existing (merged_tenant config existing domain)
    && managed_certificate_matches config certificate

-- The errors of the two operations; a failed call of the client has its message.
pub data TenantError : Type 0 where
  call_failed : Text → TenantError
  other_distribution owns_other_domains : DistributionTenant → Text → TenantError

unfoldable pub verify_distribution :
    CdnTenantConfig → DistributionTenant → Text → Result TenantError (Unit {0})
verify_distribution config tenant domain =
    if tenant.distribution_id === config.distribution_id
    then ok tt
    else err (other_distribution tenant domain)

unfoldable pub verify_exact_host : DistributionTenant → Text → Result TenantError (Unit {0})
verify_exact_host tenant domain =
    if same_list same_text tenant.domains (domain ∷ [])
    then ok tt
    else err (owns_other_domains tenant domain)
