-- ===== src/Cdn/Tenants/Steps.antt =====
-- Each step of a reconciliation of src/repositories/cloudfront_saas_cdn.rs makes justified changes.
use rendermesh.Base.{
  ◌≡◌, refl, ap, ℕ, suc, Bool, true, false, Option, none, some, List, [], ◌∷◌, arith, Text, TextSet,
  member, if◌then◌else◌, Result, ok,
}
use rendermesh.Cdn.{CdnTenantConfig, ManagedCertificateRequest}
use rendermesh.Cdn.Tenants.{
  DistributionTenant, VersionedDistributionTenant, ManagedCertificateLookup, TenantError,
  call_failed, merged_tenant, tenant_matches, verify_distribution, verify_exact_host, same_list,
  same_text,
}
use rendermesh.Cdn.Tenants.Service.{
  SaasClient, looked_up, current_read, certificate_read, created, updated, History, Ends,
  Ends-follow, Ends-call, Ends-checked, pure, checked, then_run, call,
}
use rendermesh.Cdn.Tenants.Reconcile.{
  Outcome, was_added, was_updated, was_unchanged, creation_of, create_tenant, read_certificate,
  update_of, update_tenant, refresh_tenant, adopt_tenant, reconcile_found, reconcile_domain,
}
use rendermesh.Cdn.Tenants.Safety.{IsAdoption, IsCreation, IsSafe, Stands, After, Failed}

verify_distribution-eq-ok :
    (config : CdnTenantConfig) (tenant : DistributionTenant) (domain : Text)
    → verify_distribution config tenant domain ≡ ok tt
    → tenant.distribution_id ≡ config.distribution_id
unfolding verify_distribution
verify_distribution-eq-ok config tenant domain h = ground arith

same_list-singleton :
    (xs : List Text) (x : Text) → same_list same_text xs (x ∷ []) ≡ true → xs ≡ x ∷ []
same_list-singleton [] x h = cc
same_list-singleton (y ∷ []) x h = ground arith
same_list-singleton (y ∷ z ∷ xs) x h = ground arith

verify_exact_host-eq-ok :
    (tenant : DistributionTenant) (domain : Text)
    → verify_exact_host tenant domain ≡ ok tt
    → tenant.domains ≡ domain ∷ []
unfolding verify_exact_host
verify_exact_host-eq-ok tenant domain h = same_list-singleton tenant.domains domain (ground arith)

module _ (sha256 : List ℕ → List ℕ) (client : SaasClient) (config : CdnTenantConfig)
    (desired : TextSet) where
  create_tenant-After :
      (domain : Text) (earlier : History) (a u : ℕ)
      → member domain desired ≡ true
      → Stands config desired a u earlier
      → Ends
          (Failed config desired)
          (After config desired a u)
          (create_tenant sha256 client config domain (looked_up domain (ok none) ∷ earlier))
  unfolding create_tenant
  create_tenant-After domain earlier a u m (s, n, k) =
      let before = looked_up domain (ok none) ∷ earlier in
      let request = creation_of sha256 client config domain in
      let answer = client.create_distribution_tenant before request in
      let fine : IsCreation config desired request before = record {
        domain = domain;
        earlier = earlier;
        is_desired = m;
        is_unknown = refl;
        is_of_distribution = refl;
        has_domain = refl;
      } in
      Ends-follow (Failed config desired) (λ t. Stands config desired (suc a) u)
        (After config desired a u)
        (call call_failed (λ h. client.create_distribution_tenant h request) (created request)
          before)
        (λ tenant. pure was_added)
        (Ends-call (Failed config desired) (λ t. Stands config desired (suc a) u) call_failed answer
          (created request answer ∷ before) (λ t e. ((fine, (tt, s)), rw e (ap suc n), k))
          (λ message e. (fine, (tt, s))))
        (λ t h p. p)

  read_certificate-Stands :
      (id : Text) (request : Option ManagedCertificateRequest) (before : History) (a u : ℕ)
      → Stands config desired a u before
      → Ends
          (Failed config desired)
          (λ c. Stands config desired a u)
          (read_certificate sha256 client config id request before)
  unfolding read_certificate
  read_certificate-Stands id none before a u s = s
  read_certificate-Stands id (some request) before a u (s, n, k) =
      let answer = client.get_managed_certificate_validation_token_host before id in
      Ends-follow (Failed config desired) (λ c. Stands config desired a u)
        (λ c. Stands config desired a u)
        (call call_failed (λ h. client.get_managed_certificate_validation_token_host h id)
          (certificate_read id) before)
        (λ certificate. pure (some certificate))
        (Ends-call (Failed config desired) (λ c. Stands config desired a u) call_failed answer
          (certificate_read id answer ∷ before) (λ c e. ((tt, s), n, k)) (λ message e. (tt, s)))
        (λ c h p. p)

  update_tenant-After :
      (domain asked : Text) (certificate : Option ManagedCertificateLookup)
      (current : VersionedDistributionTenant) (earlier : History) (a u : ℕ)
      → member domain desired ≡ true
      → current.tenant.distribution_id ≡ config.distribution_id
      → current.tenant.domains ≡ domain ∷ []
      → Stands config desired a u (current_read asked (ok current) ∷ earlier)
      → Ends (Failed config desired) (After config desired a u) (
          update_tenant sha256 client config domain certificate current
            (current_read asked (ok current) ∷ earlier))
  unfolding update_tenant merged_tenant
  update_tenant-After domain asked certificate current earlier a u m d x (s, n, k) =
      let before = current_read asked (ok current) ∷ earlier in
      let request = update_of sha256 client config current domain certificate in
      let answer = client.update_distribution_tenant before request in
      let fine : IsAdoption config desired request before = record {
        domain = domain;
        current = current;
        asked = asked;
        earlier = earlier;
        is_desired = m;
        is_read = refl;
        is_of_distribution = d;
        owns_domain = x;
        is_for_tenant = refl;
        is_of_version = refl;
        keeps_distribution = refl;
        keeps_domain = refl;
      } in
      Ends-follow (Failed config desired) (λ t. Stands config desired a (suc u))
        (After config desired a u)
        (call call_failed (λ h. client.update_distribution_tenant h request) (updated request)
          before)
        (λ tenant. pure was_updated)
        (Ends-call (Failed config desired) (λ t. Stands config desired a (suc u)) call_failed answer
          (updated request answer ∷ before) (λ t e. ((fine, s), n, rw e (ap suc k)))
          (λ message e. (fine, s)))
        (λ t h p. p)

  -- What comes after the two checks of a tenant may use them.
  checks-After :
      {A : Type 0} (Q : A → History → Type 0) (tenant : DistributionTenant) (domain : Text)
      (next : History → History × Result TenantError A) (before : History)
      → IsSafe config desired before
      → (tenant.distribution_id ≡ config.distribution_id
          → tenant.domains ≡ domain ∷ []
          → Ends (Failed config desired) Q (next before))
      → Ends (Failed config desired) Q (
          then_run
            (checked (verify_distribution config tenant domain))
            (λ _. then_run (checked (verify_exact_host tenant domain)) (λ _. next))
            before)
  checks-After Q tenant domain next before s k =
      Ends-follow (Failed config desired)
        (λ _ h. (h ≡ before) × (tenant.distribution_id ≡ config.distribution_id)) Q
        (before, verify_distribution config tenant domain)
        (λ _. then_run (checked (verify_exact_host tenant domain)) (λ _. next))
        (Ends-checked (Failed config desired)
          (λ _ h. (h ≡ before) × (tenant.distribution_id ≡ config.distribution_id))
          (verify_distribution config tenant domain) before
          (λ _ e. (refl, verify_distribution-eq-ok config tenant domain e)) (λ e. s))
        (λ _ h (q, d).
          Ends-follow (Failed config desired)
            (λ _ h'. (h' ≡ before) × (tenant.domains ≡ domain ∷ [])) Q
            (h, verify_exact_host tenant domain) (λ _. next)
            (Ends-checked (Failed config desired)
              (λ _ h'. (h' ≡ before) × (tenant.domains ≡ domain ∷ []))
              (verify_exact_host tenant domain) h
              (λ _ e. (q, verify_exact_host-eq-ok tenant domain e)) (λ e. rw q s))
            (λ _ h' (q', x). rw q' (k d x)))

  unchanged-After :
      (test : Bool) (next : History → History × Result TenantError Outcome) (before : History)
      (a u : ℕ)
      → Stands config desired a u before
      → Ends (Failed config desired) (After config desired a u) (next before)
      → Ends
          (Failed config desired)
          (After config desired a u)
          ((if test then pure was_unchanged else next) before)
  unchanged-After true next before a u s k = s
  unchanged-After false next before a u s k = k

  refresh_tenant-After :
      (domain : Text) (existing : DistributionTenant)
      (certificate : Option ManagedCertificateLookup) (before : History) (a u : ℕ)
      → member domain desired ≡ true
      → Stands config desired a u before
      → Ends
          (Failed config desired)
          (After config desired a u)
          (refresh_tenant sha256 client config domain existing certificate before)
  unfolding refresh_tenant
  refresh_tenant-After domain existing certificate before a u m (s, n, k) =
      let answer = client.get_distribution_tenant before existing.id in
      let Read : VersionedDistributionTenant → History → Type 0 = λ current h.
        (h ≡ current_read existing.id (ok current) ∷ before) × Stands config desired a u h in
      Ends-follow (Failed config desired) Read (After config desired a u)
        (call call_failed (λ h. client.get_distribution_tenant h existing.id)
          (current_read existing.id) before)
        (λ current. then_run (checked (verify_distribution config current.tenant domain)) (λ _.
          then_run (checked (verify_exact_host current.tenant domain)) (λ _.
            if tenant_matches config current.tenant domain certificate
            then pure was_unchanged
            else update_tenant sha256 client config domain certificate current)))
        (Ends-call (Failed config desired) Read call_failed answer
          (current_read existing.id answer ∷ before)
          (λ current e. (ap (λ r. current_read existing.id r ∷ before) e, ((tt, s), n, k)))
          (λ message e. (tt, s)))
        (λ current h (q, stands).
          checks-After (After config desired a u) current.tenant domain
            (if tenant_matches config current.tenant domain certificate
              then pure was_unchanged
              else update_tenant sha256 client config domain certificate current)
            h (stands.0)
            (λ d x.
              unchanged-After (tenant_matches config current.tenant domain certificate)
                (update_tenant sha256 client config domain certificate current) h a u stands
                (rw q (
                  update_tenant-After domain existing.id certificate current before a u m d x
                    (rw q at stands)))))

  adopt_tenant-After :
      (domain : Text) (existing : DistributionTenant) (before : History) (a u : ℕ)
      → member domain desired ≡ true
      → Stands config desired a u before
      → Ends
          (Failed config desired)
          (After config desired a u)
          (adopt_tenant sha256 client config domain existing before)
  unfolding adopt_tenant
  adopt_tenant-After domain existing before a u m stands =
      let next : Option ManagedCertificateLookup → History → History × Result TenantError Outcome =
        λ certificate.
          if tenant_matches config existing domain certificate
          then pure was_unchanged
          else refresh_tenant sha256 client config domain existing certificate in
      checks-After (After config desired a u) existing domain
        (then_run (read_certificate sha256 client config existing.id config.managed_certificate)
          next)
        before (stands.0)
        (λ d x.
          Ends-follow (Failed config desired) (λ c. Stands config desired a u)
            (After config desired a u)
            (read_certificate sha256 client config existing.id config.managed_certificate before)
            next (read_certificate-Stands existing.id config.managed_certificate before a u stands)
            (λ certificate h now.
              unchanged-After (tenant_matches config existing domain certificate)
                (refresh_tenant sha256 client config domain existing certificate) h a u now
                (refresh_tenant-After domain existing certificate h a u m now)))

  reconcile_found-After :
      (domain : Text) (found : Option DistributionTenant) (earlier : History) (a u : ℕ)
      → member domain desired ≡ true
      → Stands config desired a u earlier
      → Ends (Failed config desired) (After config desired a u) (
          reconcile_found sha256 client config domain found (looked_up domain (ok found) ∷ earlier))
  unfolding reconcile_found
  reconcile_found-After domain none earlier a u m stands =
      create_tenant-After domain earlier a u m stands
  reconcile_found-After domain (some existing) earlier a u m (s, n, k) =
      adopt_tenant-After domain existing (looked_up domain (ok (some existing)) ∷ earlier) a u m
        ((tt, s), n, k)

  pub reconcile_domain-After :
      (domain : Text) (earlier : History) (a u : ℕ)
      → member domain desired ≡ true
      → Stands config desired a u earlier
      → Ends
          (Failed config desired)
          (After config desired a u)
          (reconcile_domain sha256 client config domain earlier)
  unfolding reconcile_domain
  reconcile_domain-After domain earlier a u m stands =
      let answer = client.get_distribution_tenant_by_domain earlier domain in
      let Found : Option DistributionTenant → History → Type 0 =
        λ found h. h ≡ looked_up domain (ok found) ∷ earlier in
      Ends-follow (Failed config desired) Found (After config desired a u)
        (call call_failed (λ h. client.get_distribution_tenant_by_domain h domain)
          (looked_up domain) earlier)
        (reconcile_found sha256 client config domain)
        (Ends-call (Failed config desired) Found call_failed answer
          (looked_up domain answer ∷ earlier) (λ found e. ap (λ r. looked_up domain r ∷ earlier) e)
          (λ message e. (tt, stands.0)))
        (λ found h q. rw q (reconcile_found-After domain found earlier a u m stands))
