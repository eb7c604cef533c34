-- ===== src/Cdn/Tenants/Service.antt =====
-- The CloudFront service as the trait `CloudFrontSaasClient` of
-- src/repositories/cloudfront_saas_cdn/aws_client.rs shows it. The history holds the calls of one
-- run with their answers, the latest first; an answer may depend on everything before it.
pub use rendermesh.Base.Actions.{
  follow, then_run, pure, checked, Ends, Ends-follow, Ends-checked, Ends-map,
}
use rendermesh.Base.Actions.{Action}
use rendermesh.Base.{◌≡◌, refl, Option, List, ◌∷◌, Text, Result, ok, err}
use rendermesh.Cdn.Tenants.{
  DistributionTenant, VersionedDistributionTenant, DistributionTenantPage, ManagedCertificateLookup,
  CreateDistributionTenantRequest, UpdateDistributionTenantRequest, TenantInvalidationRequest,
}

pub data Exchange : Type 0 where
  looked_up : Text → Result Text (Option DistributionTenant) → Exchange
  current_read : Text → Result Text VersionedDistributionTenant → Exchange
  certificate_read : Text → Result Text ManagedCertificateLookup → Exchange
  listed : Option Text → Result Text DistributionTenantPage → Exchange
  created : CreateDistributionTenantRequest → Result Text DistributionTenant → Exchange
  updated : UpdateDistributionTenantRequest → Result Text DistributionTenant → Exchange
  invalidated : TenantInvalidationRequest → Result Text Text → Exchange

abbrev pub History : Type 0
History = List Exchange

pub record SaasClient : Type 0 where
  pub get_distribution_tenant_by_domain : History → Text → Result Text (Option DistributionTenant)
  pub get_distribution_tenant : History → Text → Result Text VersionedDistributionTenant
  pub get_managed_certificate_validation_token_host :
      History → Text → Result Text ManagedCertificateLookup
  pub list_distribution_tenants : History → Text → Option Text → Result Text DistributionTenantPage
  pub create_distribution_tenant :
      History → CreateDistributionTenantRequest → Result Text DistributionTenant
  pub update_distribution_tenant :
      History → UpdateDistributionTenantRequest → Result Text DistributionTenant
  pub create_invalidation_for_distribution_tenant :
      History → TenantInvalidationRequest → Result Text Text

-- A computation that calls the service and may fail.
abbrev pub Run : Type 0 → Type 0 → Type 0
Run E A = Action History E A

abbrev pub answered : {E A : Type 0} → (Text → E) → Result Text A → Result E A
answered f (ok a) = ok a
answered f (err message) = err (f message)

-- A call: the exchange is recorded, and a failure becomes an error.
abbrev pub call :
    {E A : Type 0} → (Text → E) → (History → Result Text A) → (Result Text A → Exchange) → Run E A
call f answer exchange history = (exchange (answer history) ∷ history, answered f (answer history))

pub Ends-call :
    {E A : Type 0} (F : E → History → Type 0) (Q : A → History → Type 0) (f : Text → E)
    (answer : Result Text A) (history : History)
    → ((a : A) → answer ≡ ok a → Q a history)
    → ((message : Text) → answer ≡ err message → F (f message) history)
    → Ends F Q (history, answered f answer)
Ends-call F Q f (ok a) history good bad = good a refl
Ends-call F Q f (err message) history good bad = bad message refl
