-- ===== src/Cdn/Tenants/Reconcile.antt =====
-- `reconcile_tenants` of src/repositories/cloudfront_saas_cdn.rs.
use rendermesh.Base.{ℕ, suc, true, Option, none, some, List, [], ◌∷◌, Text, text, if◌then◌else◌}
use rendermesh.Cdn.{
  CdnTenantConfig, CdnTenantReconcileRequest, CdnDomainReconcileResult, ManagedCertificateRequest,
}
use rendermesh.Cdn.Tenants.{
  DistributionTenant, VersionedDistributionTenant, ManagedCertificateLookup,
  CreateDistributionTenantRequest, UpdateDistributionTenantRequest, TenantError, call_failed,
  merged_tenant, managed_certificate_matches, tenant_matches, verify_distribution,
  verify_exact_host,
}
use rendermesh.Cdn.Tenants.Names.{deterministic_tenant_name}
use rendermesh.Cdn.Tenants.Service.{
  SaasClient, Run, then_run, pure, checked, call, looked_up, current_read, certificate_read,
  created, updated,
}

-- What was done for one domain.
pub data Outcome : Type 0 where
  was_added was_updated was_unchanged : Outcome

pub record Counts : Type 0 where
  pub added : ℕ
  pub updated : ℕ
  pub unchanged : ℕ

unfoldable pub count_outcome : Outcome → Counts → Counts
count_outcome was_added counts = record counts { added = suc counts.added }
count_outcome was_updated counts = record counts { updated = suc counts.updated }
count_outcome was_unchanged counts = record counts { unchanged = suc counts.unchanged }

abbrev pub result_of : Counts → CdnDomainReconcileResult
result_of counts = record {
  provider = text "cloudfront_saas";
  status = text "submitted";
  added = counts.added;
  updated = counts.updated;
  removed = 0;
  unchanged = counts.unchanged;
}

module _ (sha256 : List ℕ → List ℕ) (client : SaasClient) (config : CdnTenantConfig) where
  abbrev pub creation_of : Text → CreateDistributionTenantRequest
  creation_of domain = record {
    distribution_id = config.distribution_id;
    name = deterministic_tenant_name sha256 config.distribution_id domain;
    domains = domain ∷ [];
    connection_group_id = config.connection_group_id;
    parameters = config.parameters;
    managed_certificate = config.managed_certificate;
    enabled = true;
  }

  -- The branch for a domain without a tenant.
  unfoldable pub create_tenant : Text → Run TenantError Outcome
  create_tenant domain =
      then_run
        (call call_failed (λ h. client.create_distribution_tenant h (creation_of domain))
          (created (creation_of domain)))
        (λ tenant. pure was_added)

  -- The certificate is read only if the configuration asks for one.
  unfoldable pub read_certificate :
      Text → Option ManagedCertificateRequest → Run TenantError (Option ManagedCertificateLookup)
  read_certificate id none = pure none
  read_certificate id (some request) =
      then_run
        (call call_failed (λ h. client.get_managed_certificate_validation_token_host h id)
          (certificate_read id))
        (λ certificate. pure (some certificate))

  -- The certificate that an update asks for.
  abbrev pub requested_certificate :
      Option ManagedCertificateLookup → Option ManagedCertificateRequest
  requested_certificate certificate =
      if managed_certificate_matches config certificate then none else config.managed_certificate

  abbrev pub update_of :
      VersionedDistributionTenant
      → Text
      → Option ManagedCertificateLookup
      → UpdateDistributionTenantRequest
  update_of current domain certificate = record {
    id = current.tenant.id;
    if_match = current.etag;
    tenant = merged_tenant config current.tenant domain;
    managed_certificate = requested_certificate certificate;
  }

  unfoldable pub update_tenant :
      Text → Option ManagedCertificateLookup → VersionedDistributionTenant → Run TenantError Outcome
  update_tenant domain certificate current =
      then_run
        (call call_failed
          (λ h. client.update_distribution_tenant h (update_of current domain certificate))
          (updated (update_of current domain certificate)))
        (λ tenant. pure was_updated)

  -- From the read of the current tenant on.
  unfoldable pub refresh_tenant :
      Text → DistributionTenant → Option ManagedCertificateLookup → Run TenantError Outcome
  unfolding update_tenant
  refresh_tenant domain existing certificate =
      then_run
        (call call_failed (λ h. client.get_distribution_tenant h existing.id)
          (current_read existing.id))
        (λ current. then_run (checked (verify_distribution config current.tenant domain)) (λ _.
          then_run (checked (verify_exact_host current.tenant domain)) (λ _.
            if tenant_matches config current.tenant domain certificate
            then pure was_unchanged
            else update_tenant domain certificate current)))

  -- The branch for a domain that has a tenant.
  unfoldable pub adopt_tenant : Text → DistributionTenant → Run TenantError Outcome
  unfolding read_certificate refresh_tenant
  adopt_tenant domain existing =
      then_run (checked (verify_distribution config existing domain)) (λ _.
        then_run (checked (verify_exact_host existing domain)) (λ _.
          then_run (read_certificate existing.id config.managed_certificate) (λ certificate.
            if tenant_matches config existing domain certificate
            then pure was_unchanged
            else refresh_tenant domain existing certificate)))

  unfoldable pub reconcile_found : Text → Option DistributionTenant → Run TenantError Outcome
  unfolding create_tenant adopt_tenant
  reconcile_found domain none = create_tenant domain
  reconcile_found domain (some existing) = adopt_tenant domain existing

  -- One round of the loop.
  unfoldable pub reconcile_domain : Text → Run TenantError Outcome
  unfolding reconcile_found
  reconcile_domain domain =
      then_run
        (call call_failed (λ h. client.get_distribution_tenant_by_domain h domain)
          (looked_up domain))
        (reconcile_found domain)

  unfoldable pub reconcile_each : List Text → Counts → Run TenantError Counts
  unfolding reconcile_domain
  reconcile_each [] counts = pure counts
  reconcile_each (domain ∷ domains) counts =
      then_run (reconcile_domain domain)
        (λ outcome. reconcile_each domains (count_outcome outcome counts))

  unfoldable pub reconcile_tenants :
      CdnTenantReconcileRequest → Run TenantError CdnDomainReconcileResult
  unfolding reconcile_each
  reconcile_tenants request =
      then_run
        (reconcile_each request.desired_domains (record { added = 0; updated = 0; unchanged = 0 }))
        (λ counts. pure (result_of counts))
