-- ===== src/Cdn/Tenants/Purge.antt =====
-- `purge` of src/repositories/cloudfront_saas_cdn.rs. The loop over the pages runs on fuel.
pub mod Paging
pub mod Accounts
use rendermesh.Base.{
  ℕ, zero, suc, ◌*◌, Bool, true, false, not, ◌&&◌, Option, none, some, List, [], ◌∷◌, ◌++◌, Text,
  text, TextSet, member, add, any, keep, length, is_empty, text_lt, ◌===◌, if◌then◌else◌, Result,
  ok, err,
}
use rendermesh.Cdn.{
  CdnPurgeMode, CdnPurgeRequest, CdnPurgeResult, CdnPurgeFailure, CdnTenantConfig, PurgeModeError,
  ensure_paths_mode,
}
use rendermesh.Cdn.Tenants.{DistributionTenant, DistributionTenantPage, TenantInvalidationRequest}
use rendermesh.Cdn.Tenants.Names.{invalidation_caller_reference}
use rendermesh.Cdn.Tenants.Service.{
  SaasClient, Run, then_run, pure, checked, answered, call, listed, invalidated,
}

pub data TenantPurgeError : Type 0 where
  mode_refused : PurgeModeError → TenantPurgeError
  list_failed : Text → TenantPurgeError
  repeated_marker out_of_fuel : TenantPurgeError
  invalidation_failed : CdnPurgeFailure → TenantPurgeError

abbrev pub mode_checked : {A : Type 0} → Result PurgeModeError A → Result TenantPurgeError A
mode_checked (ok a) = ok a
mode_checked (err e) = err (mode_refused e)

-- `tenants.sort_by(|left, right| left.id.cmp(&right.id))`, as insertion; the sort is stable.
unfoldable pub insert_tenant :
    DistributionTenant → List DistributionTenant → List DistributionTenant
insert_tenant t [] = t ∷ []
insert_tenant t (u ∷ us) =
    let later = insert_tenant t us in if text_lt u.id t.id then u ∷ later else t ∷ u ∷ us

unfoldable pub sort_tenants : List DistributionTenant → List DistributionTenant
unfolding insert_tenant
sort_tenants [] = []
sort_tenants (t ∷ ts) = insert_tenant t (sort_tenants ts)

abbrev pub is_disabled : Option Bool → Bool
is_disabled (some enabled) = not enabled
is_disabled none = false

-- The test of `tenants.retain`.
unfoldable pub is_purged : CdnTenantConfig → TextSet → DistributionTenant → Bool
is_purged config exact_hosts tenant =
    not (is_disabled tenant.enabled)
    && tenant.distribution_id === config.distribution_id
    && any (λ domain. member domain exact_hosts) tenant.domains

abbrev pub failure_of : List Text → List Text → Text → Text → TenantPurgeError
failure_of paths request_ids tenant_id error = invalidation_failed (record {
  provider = text "cloudfront_saas";
  request_ids = request_ids;
  submitted_items = length paths * length request_ids;
  message = text "invalidate CloudFront SaaS tenant " ++ tenant_id ++ text ": " ++ error;
})

-- What follows a page: the end of the loop, or the next round unless the marker was seen.
abbrev pub after_page :
    {A : Type 0}
    → Option Text
    → TextSet
    → A
    → (Text → Run TenantPurgeError A)
    → Run TenantPurgeError A
after_page none seen tenants go_on = pure tenants
after_page (some next) seen tenants go_on =
    if member next seen then checked (err repeated_marker) else go_on next

module _ (client : SaasClient) (config : CdnTenantConfig) where
  -- The loop, from a page that ends it or a marker to go on with.
  unfoldable pub list_pages :
      ℕ
      → Option Text
      → TextSet
      → List DistributionTenant
      → Run TenantPurgeError (List DistributionTenant)
  list_pages zero marker seen tenants = checked (err out_of_fuel)
  list_pages (suc fuel) marker seen tenants =
      then_run
        (call list_failed (λ h. client.list_distribution_tenants h config.distribution_id marker)
          (listed marker))
        (λ page.
          after_page page.next_marker seen (tenants ++ page.tenants)
            (λ next. list_pages fuel (some next) (add next seen) (tenants ++ page.tenants)))

  module _ (sha256 : List ℕ → List ℕ) (namespace : List ℕ) (request : CdnPurgeRequest)
      (paths : List Text) where
    abbrev pub invalidation_of : DistributionTenant → TenantInvalidationRequest
    invalidation_of tenant = record {
      tenant_id = tenant.id;
      caller_reference =
          invalidation_caller_reference sha256 namespace request.origin_id request.generation
            tenant.id paths;
      paths = paths;
    }

    unfoldable pub invalidate_each :
        List Text → List DistributionTenant → Run TenantPurgeError (List Text)
    invalidate_each request_ids [] = pure request_ids
    invalidate_each request_ids (tenant ∷ tenants) =
        then_run
          (call (failure_of paths request_ids tenant.id)
            (λ h. client.create_invalidation_for_distribution_tenant h (invalidation_of tenant))
            (invalidated (invalidation_of tenant)))
          (λ id. invalidate_each (request_ids ++ id ∷ []) tenants)

    abbrev pub submitted_result : List DistributionTenant → List Text → CdnPurgeResult
    submitted_result tenants request_ids = record {
      provider = text "cloudfront_saas";
      request_ids = request_ids;
      status = text "submitted";
      submitted_items = length paths * length tenants;
    }

    -- What follows the choice of the tenants.
    unfoldable pub purge_tenants : List DistributionTenant → Run TenantPurgeError CdnPurgeResult
    unfolding invalidate_each
    purge_tenants [] = pure (record {
      provider = text "cloudfront_saas";
      request_ids = [];
      status = text "skipped_no_tenants";
      submitted_items = 0;
    })
    purge_tenants (tenant ∷ tenants) =
        then_run (invalidate_each [] (tenant ∷ tenants))
          (λ request_ids. pure (submitted_result (tenant ∷ tenants) request_ids))

  unfoldable pub purge :
      (List ℕ → List ℕ)
      → List ℕ
      → TextSet
      → ℕ
      → CdnPurgeRequest
      → Run TenantPurgeError CdnPurgeResult
  unfolding list_pages purge_tenants is_purged sort_tenants
  purge sha256 namespace exact_hosts fuel request =
      then_run (checked (mode_checked (ensure_paths_mode request.mode (text "CloudFront SaaS"))))
        (λ paths. then_run (list_pages fuel none [] []) (λ tenants.
          purge_tenants sha256 namespace request paths
            (sort_tenants (keep (is_purged config exact_hosts) tenants))))
