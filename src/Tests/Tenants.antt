-- ===== src/Tests/Tenants.antt =====
-- Reconciling and purging distribution tenants at a concrete client.
use rendermesh.Base.{
  zero, suc, if◌then◌else◌, ◌===◌, ◌≡◌, ◌≢◌, ◌≤◌, refl, arith, Bool, true, false, Option, none,
  some, List, [], ◌∷◌, ℕ, Text, text, All, all, length, Result, ok, err,
}
use rendermesh.Cdn.{
  CdnTenantConfig, CdnTenantReconcileRequest, CdnDomainReconcileResult, CdnPurgeRequest,
  purge_paths,
}
use rendermesh.Cdn.Tenants.{DistributionTenant, no_certificate}
use rendermesh.Cdn.Tenants.Service.{SaasClient, History, Ends}
use rendermesh.Cdn.Tenants.Reconcile.{reconcile_tenants}
use rendermesh.Cdn.Tenants.Safety.{IsSafe}
use rendermesh.Cdn.Tenants.Adoption.{IsReport, reconcile_tenants-IsSafe, reconcile_tenants-IsReport}
use rendermesh.Cdn.Tenants.Purge.{purge, out_of_fuel}
use rendermesh.Cdn.Tenants.Purge.Accounts.{IsAccounted, IsComplete, requested_paths, purge-Ends}
use rendermesh.Cdn.Tenants.Purge.Paging.{HasMarkers, purge-ne-out_of_fuel}
use rendermesh.Cdn.Tenants.Names.{deterministic_tenant_name}
use rendermesh.Cdn.Tenants.Names.Bounds.{is_name_character, deterministic_tenant_name_bounds}
use rendermesh.Cdn.Tenants.Names.Encoding.{Reference, reference_bytes_inj}

-- A digest of 32 zeros stands for SHA-256.
abbrev zeros : ℕ → List ℕ
zeros zero = []
zeros (suc n) = 0 ∷ zeros n

abbrev digest : List ℕ → List ℕ
digest bytes = zeros 32

abbrev saas_config : CdnTenantConfig
saas_config = record {
  distribution_id = text "E1";
  connection_group_id = none;
  parameters = (text "key", text "new") ∷ [];
  managed_certificate = none;
}

abbrev tenant : Text → Text → DistributionTenant
tenant id domain = record {
  id = id;
  name = id;
  distribution_id = text "E1";
  domains = domain ∷ [];
  connection_group_id = none;
  parameters = [];
  customizations = none;
  enabled = some true;
}

abbrev lookup_answer : Text → Result Text (Option DistributionTenant)
lookup_answer domain =
    if domain === text "b.io" then ok (some (tenant (text "t2") (text "b.io"))) else ok none

-- It knows the tenant of b.io only, and lists two tenants on two pages.
abbrev sample_client : SaasClient
sample_client = record {
  get_distribution_tenant_by_domain = λ history domain. lookup_answer domain;
  get_distribution_tenant =
      λ history id. ok (record { tenant = tenant id (text "b.io"); etag = text "v1" });
  get_managed_certificate_validation_token_host = λ history id. ok no_certificate;
  list_distribution_tenants = λ history distribution marker. (elim marker [
    | none ↦
        ok (record {
          tenants = tenant (text "t2") (text "b.io") ∷ [];
          next_marker = some (text "m");
        })
    | some m ↦ ok (record { tenants = tenant (text "t1") (text "a.io") ∷ []; next_marker = none })
  ]);
  create_distribution_tenant = λ history request. ok (tenant (text "t9") (text "a.io"));
  update_distribution_tenant = λ history request. ok request.tenant;
  create_invalidation_for_distribution_tenant = λ history request. ok (text "I");
}

abbrev reconcile_request : CdnTenantReconcileRequest
reconcile_request = record {
  origin_id = text "docs";
  desired_domains = text "a.io" ∷ text "b.io" ∷ [];
}

abbrev reconcile_run : History
reconcile_run = (reconcile_tenants digest sample_client saas_config reconcile_request []).0

abbrev reconcile_result : CdnDomainReconcileResult
reconcile_result = record {
  provider = text "cloudfront_saas";
  status = text "submitted";
  added = 1;
  updated = 1;
  removed = 0;
  unchanged = 0;
}

reconcile_tenants-IsSafe_example :
    IsSafe saas_config reconcile_request.desired_domains
      ((reconcile_tenants digest sample_client saas_config reconcile_request []).0)
reconcile_tenants-IsSafe_example =
    reconcile_tenants-IsSafe digest sample_client saas_config reconcile_request

reconcile_tenants-IsReport_example :
    IsReport reconcile_request.desired_domains reconcile_result reconcile_run
unfolding reconcile_tenants rendermesh.Cdn.Tenants.Reconcile.count_outcome
    rendermesh.Cdn.Tenants.verify_distribution rendermesh.Cdn.Tenants.verify_exact_host
    rendermesh.Cdn.Tenants.tenant_matches rendermesh.Base.text_dec rendermesh.Base.extend
    rendermesh.Base.insert
reconcile_tenants-IsReport_example =
    reconcile_tenants-IsReport digest sample_client saas_config reconcile_request reconcile_run
      reconcile_result refl

abbrev purge_request : CdnPurgeRequest
purge_request = record {
  origin_id = text "docs";
  generation = 3;
  mode = purge_paths (text "/a" ∷ text "/b" ∷ []);
}

purge-Ends_example :
    Ends
      (IsAccounted (requested_paths purge_request.mode))
      (IsComplete sample_client saas_config digest []
        (text "a.io" ∷ [])
        purge_request
        (requested_paths purge_request.mode))
      (purge sample_client saas_config digest [] (text "a.io" ∷ []) 3 purge_request [])
purge-Ends_example =
    purge-Ends sample_client saas_config digest [] (text "a.io" ∷ []) purge_request 3

sample_client-HasMarkers : HasMarkers sample_client saas_config (text "m" ∷ [])
unfolding rendermesh.Base.member rendermesh.Base.text_dec
sample_client-HasMarkers history none page e = ground arith
sample_client-HasMarkers history (some m) page e = ground arith

purge-ne-out_of_fuel_example :
    (purge sample_client saas_config digest [] (text "a.io" ∷ []) 3 purge_request []).1
    ≢ err out_of_fuel
purge-ne-out_of_fuel_example =
    purge-ne-out_of_fuel sample_client saas_config (text "m" ∷ []) digest [] (text "a.io" ∷ []) 3
      purge_request [] sample_client-HasMarkers (omega arith)

deterministic_tenant_name_bounds_example :
    (28 ≤ length (deterministic_tenant_name digest (text "E1") (text "a.io")))
    × (length (deterministic_tenant_name digest (text "E1") (text "a.io")) ≤ 128)
    × (all is_name_character (deterministic_tenant_name digest (text "E1") (text "a.io")) ≡ true)
deterministic_tenant_name_bounds_example =
    deterministic_tenant_name_bounds digest (text "E1") (text "a.io") (λ bytes. refl)
      (λ bytes. omega arith)

abbrev sample_reference : Reference
sample_reference = record {
  namespace = 1 ∷ 2 ∷ [];
  origin_id = text "docs";
  generation = 3;
  tenant_id = text "t1";
  paths = text "/a" ∷ [];
}

reference_bytes_inj_example :
    (sample_reference.namespace ≡ sample_reference.namespace)
    × (sample_reference.origin_id ≡ sample_reference.origin_id)
    × (sample_reference.generation ≡ sample_reference.generation)
    × (sample_reference.tenant_id ≡ sample_reference.tenant_id)
    × (sample_reference.paths ≡ sample_reference.paths)
unfolding rendermesh.Base.utf8
reference_bytes_inj_example =
    reference_bytes_inj sample_reference sample_reference (omega arith) (omega arith) refl
