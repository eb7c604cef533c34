-- ===== src/Cdn/Tenants/Purge/Paging.antt =====
-- The pages of tenants end, src/repositories/cloudfront_saas_cdn.rs.
use rendermesh.Base.{
  ◌≡◌, refl, ◌≢◌, ℕ, zero, suc, ◌<◌, true, false, Option, none, some, List, [], ◌∷◌, ◌++◌, arith,
  Text, text, TextSet, member, add, member-add, length, keep, if◌then◌else◌, Bool-cases, inl, inr,
  ◌===◌, Result, ok, err,
}
use rendermesh.Cdn.{
  CdnPurgeRequest, CdnPurgeResult, CdnTenantConfig, ensure_paths_mode, PurgeModeError,
}
use rendermesh.Cdn.Tenants.{DistributionTenant, DistributionTenantPage}
use rendermesh.Cdn.Tenants.Purge.{
  TenantPurgeError, list_failed, out_of_fuel, mode_checked, is_purged, sort_tenants, after_page,
  list_pages, invalidate_each, purge_tenants, invalidation_of, failure_of, submitted_result, purge,
}
use rendermesh.Cdn.Tenants.Service.{
  SaasClient, History, Ends, Ends-follow, Ends-call, Run, pure, call, then_run, listed, invalidated,
}

-- How many of the markers were not seen.
abbrev pub unseen : List Text → TextSet → ℕ
unseen [] seen = 0
unseen (m ∷ ms) seen = let n = unseen ms seen in if member m seen then n else suc n

unseen-add_le :
    (ms : List Text) (m : Text) (seen : TextSet) → unseen ms (add m seen) < suc (unseen ms seen)
unseen-add_le [] m seen = ground arith
unseen-add_le (n ∷ ms) m seen = ground (arith, unseen-add_le ms m seen, member-add n m seen)

unseen-add_lt :
    (ms : List Text) (m : Text) (seen : TextSet)
    → member m ms ≡ true
    → member m seen ≡ false
    → unseen ms (add m seen) < unseen ms seen
unfolding member
unseen-add_lt [] m seen h fresh = cc
unseen-add_lt (n ∷ ms) m seen h fresh = elim (Bool-cases (m === n)) [
  | inl e ↦
      let same : m ≡ n = ground arith in
      let now : member n (add m seen) ≡ true = ground (arith, member-add n m seen) in
      let before : member n seen ≡ false = rw same at fresh in
      ground (arith, unseen-add_le ms m seen)
  | inr e ↦ ground (arith, unseen-add_lt ms m seen, member-add n m seen)
]

abbrev pub IsListed : List Text → Option Text → Type 0
IsListed markers none = Unit
IsListed markers (some m) = member m markers ≡ true

abbrev HasFuel : TenantPurgeError → History → Type 0
HasFuel error history = error ≢ out_of_fuel

abbrev Anything : {A : Type 0} → A → History → Type 0
Anything a history = Unit

module _ (client : SaasClient) (config : CdnTenantConfig) (markers : List Text) where
  -- Every marker that the service gives is one of these.
  abbrev pub HasMarkers : Type 0
  HasMarkers =
      (history : History) (marker : Option Text) (page : DistributionTenantPage)
      → client.list_distribution_tenants history config.distribution_id marker ≡ ok page
      → IsListed markers page.next_marker

  after_page-HasFuel :
      (fuel : ℕ) (next : Option Text) (seen : TextSet) (tenants : List DistributionTenant)
      (history : History)
      → IsListed markers next
      → unseen markers seen < suc fuel
      → ((m : Text)
          → unseen markers (add m seen) < fuel
          → Ends HasFuel Anything
              (list_pages client config fuel (some m) (add m seen) tenants history))
      → Ends HasFuel Anything (
          after_page next seen tenants
            (λ m. list_pages client config fuel (some m) (add m seen) tenants)
            history)
  after_page-HasFuel fuel none seen tenants history l f k = tt
  after_page-HasFuel fuel (some m) seen tenants history l f k = elim (Bool-cases (member m seen)) [
    | inl old ↦ rw old (λ e. cc)
    | inr fresh ↦ rw fresh (k m (ground (arith, unseen-add_lt markers m seen l fresh)))
  ]

  list_pages-HasFuel :
      HasMarkers
      → (fuel : ℕ) (marker : Option Text) (seen : TextSet) (tenants : List DistributionTenant)
        (history : History)
      → unseen markers seen < fuel
      → Ends HasFuel Anything (list_pages client config fuel marker seen tenants history)
  unfolding list_pages
  list_pages-HasFuel has zero marker seen tenants history f = absurd (omega arith)
  list_pages-HasFuel has (suc fuel) marker seen tenants history f =
      let answer = client.list_distribution_tenants history config.distribution_id marker in
      Ends-follow HasFuel (λ page h. IsListed markers page.next_marker) Anything
        (call list_failed (λ h. client.list_distribution_tenants h config.distribution_id marker)
          (listed marker) history)
        (λ page. after_page page.next_marker seen (tenants ++ page.tenants) (λ next.
          list_pages client config fuel (some next) (add next seen) (tenants ++ page.tenants)))
        (Ends-call HasFuel (λ page h. IsListed markers page.next_marker) list_failed answer
          (listed marker answer ∷ history) (has history marker) (λ message e q. cc))
        (λ page h l.
          after_page-HasFuel fuel page.next_marker seen (tenants ++ page.tenants) h l f (λ m g.
            list_pages-HasFuel has fuel (some m) (add m seen) (tenants ++ page.tenants) h g))

  module _ (sha256 : List ℕ → List ℕ) (namespace : List ℕ) (request : CdnPurgeRequest)
      (paths : List Text) where
    invalidate_each-HasFuel :
        (ids : List Text) (tenants : List DistributionTenant) (history : History)
        → Ends HasFuel Anything
            (invalidate_each client config sha256 namespace request paths ids tenants history)
    unfolding invalidate_each
    invalidate_each-HasFuel ids [] history = tt
    invalidate_each-HasFuel ids (tenant ∷ tenants) history =
        let asked = invalidation_of client config sha256 namespace request paths tenant in
        let answer = client.create_invalidation_for_distribution_tenant history asked in
        Ends-follow HasFuel Anything Anything
          (call (failure_of paths ids tenant.id)
            (λ h. client.create_invalidation_for_distribution_tenant h asked) (invalidated asked)
            history)
          (λ id.
            invalidate_each client config sha256 namespace request paths (ids ++ id ∷ []) tenants)
          (Ends-call HasFuel Anything (failure_of paths ids tenant.id) answer
            (invalidated asked answer ∷ history) (λ id e. tt) (λ message e q. cc))
          (λ id h done. invalidate_each-HasFuel (ids ++ id ∷ []) tenants h)

    purge_tenants-HasFuel :
        (tenants : List DistributionTenant) (history : History)
        → Ends HasFuel Anything
            (purge_tenants client config sha256 namespace request paths tenants history)
    unfolding purge_tenants
    purge_tenants-HasFuel [] history = tt
    purge_tenants-HasFuel (tenant ∷ tenants) history =
        Ends-follow HasFuel Anything Anything
          (invalidate_each client config sha256 namespace request paths [] (tenant ∷ tenants)
            history)
          (λ ids.
            pure (
              submitted_result client config sha256 namespace request paths (tenant ∷ tenants) ids))
          (invalidate_each-HasFuel [] (tenant ∷ tenants) history) (λ ids h done. tt)

  mode_checked-HasFuel :
      {A : Type 0} (mode : Result PurgeModeError A) (history : History)
      → Ends HasFuel Anything (history, mode_checked mode)
  mode_checked-HasFuel (ok paths) history = tt
  mode_checked-HasFuel (err e) history = λ q. cc

  purge-HasFuel :
      (sha256 : List ℕ → List ℕ) (namespace : List ℕ) (exact_hosts : TextSet) (fuel : ℕ)
      (request : CdnPurgeRequest) (history : History)
      → HasMarkers
      → unseen markers [] < fuel
      → Ends HasFuel Anything
          (purge client config sha256 namespace exact_hosts fuel request history)
  unfolding purge
  purge-HasFuel sha256 namespace exact_hosts fuel request history has f =
      let mode = ensure_paths_mode request.mode (text "CloudFront SaaS") in
      let purged : List Text → List DistributionTenant → Run TenantPurgeError CdnPurgeResult =
        λ paths tenants.
          purge_tenants client config sha256 namespace request paths
            (sort_tenants (keep (is_purged config exact_hosts) tenants)) in
      Ends-follow HasFuel Anything Anything (history, mode_checked mode)
        (λ paths. then_run (list_pages client config fuel none [] []) (purged paths))
        (mode_checked-HasFuel mode history)
        (λ paths h done.
          Ends-follow HasFuel Anything Anything (list_pages client config fuel none [] [] h)
            (purged paths) (list_pages-HasFuel has fuel none [] [] h f)
            (λ tenants h' listed.
              purge_tenants-HasFuel sha256 namespace request paths
                (sort_tenants (keep (is_purged config exact_hosts) tenants)) h'))

  unseen_none : (ms : List Text) → unseen ms [] ≡ length ms
  unfolding member
  unseen_none [] = refl
  unseen_none (m ∷ ms) = omega (arith, unseen_none ms)

  HasFuel-at_end :
      (end : History × Result TenantPurgeError CdnPurgeResult)
      → Ends HasFuel Anything end
      → end.1 ≢ err out_of_fuel
  HasFuel-at_end (history, ok result) h e = cc
  HasFuel-at_end (history, err error) h e = h (ground arith)

  -- If all markers that the service gives are among finitely many, then a purge ends by itself: with
  -- more fuel than there are markers it does not run out, whatever the service answers.
  pub purge-ne-out_of_fuel :
      (sha256 : List ℕ → List ℕ) (namespace : List ℕ) (exact_hosts : TextSet) (fuel : ℕ)
      (request : CdnPurgeRequest) (history : History)
      → HasMarkers
      → length markers < fuel
      → (purge client config sha256 namespace exact_hosts fuel request history).1 ≢ err out_of_fuel
  purge-ne-out_of_fuel sha256 namespace exact_hosts fuel request history has f =
      HasFuel-at_end (purge client config sha256 namespace exact_hosts fuel request history) (
        purge-HasFuel sha256 namespace exact_hosts fuel request history has
          (omega (arith, unseen_none markers)))
