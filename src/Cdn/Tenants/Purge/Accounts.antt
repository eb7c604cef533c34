-- ===== src/Cdn/Tenants/Purge/Accounts.antt =====
-- What a purge invalidates and reports, `purge` of src/repositories/cloudfront_saas_cdn.rs.
use mathlib.Core.List.{map-append, append_assoc, append-nil}
use rendermesh.Base.{
  ◌≡◌, refl, sym, ap, ◌∙◌, ℕ, zero, suc, ◌*◌, Option, none, some, List, [], ◌∷◌, ◌++◌, map, arith,
  Text, text, TextSet, length, length-append, keep, Result, ok, err, add, member, Bool-cases, inl,
  inr,
}
use rendermesh.Cdn.{
  CdnPurgeMode, CdnPurgeRequest, CdnPurgeResult, CdnTenantConfig, ensure_paths_mode,
}
use rendermesh.Cdn.Tenants.{DistributionTenant, TenantInvalidationRequest}
use rendermesh.Cdn.Tenants.Purge.{
  TenantPurgeError, mode_refused, list_failed, repeated_marker, out_of_fuel, invalidation_failed,
  mode_checked, is_purged, sort_tenants, after_page, list_pages, invalidate_each, purge_tenants,
  invalidation_of, failure_of, submitted_result, purge,
}
use rendermesh.Cdn.Tenants.Service.{
  SaasClient, History, Ends, Ends-follow, Ends-call, Ends-map, Run, pure, checked, call, then_run,
  listed, invalidated,
}

-- The tenants of the pages that the service gave, in order.
abbrev pub listed_tenants : History → List DistributionTenant
listed_tenants [] = []
listed_tenants (listed marker (ok page) ∷ before) = listed_tenants before ++ page.tenants
listed_tenants (exchange ∷ before) = listed_tenants before

-- The invalidations that the service was asked for, in order.
abbrev pub asked : History → List TenantInvalidationRequest
asked [] = []
asked (invalidated request answer ∷ before) = asked before ++ request ∷ []
asked (exchange ∷ before) = asked before

-- The ids of those that it accepted, in order.
abbrev pub accepted : History → List Text
accepted [] = []
accepted (invalidated request (ok id) ∷ before) = accepted before ++ id ∷ []
accepted (exchange ∷ before) = accepted before

abbrev pub value_or_nil : {E A : Type 0} → Result E (List A) → List A
value_or_nil (ok xs) = xs
value_or_nil (err e) = []

-- The paths to purge; none where the mode is refused.
abbrev pub requested_paths : CdnPurgeMode → List Text
requested_paths mode = value_or_nil (ensure_paths_mode mode (text "CloudFront SaaS"))

-- A failure reports what was accepted before it; any other error comes before the first invalidation.
abbrev pub IsAccounted : List Text → TenantPurgeError → History → Type 0
IsAccounted paths (invalidation_failed failure) history =
    (failure.request_ids ≡ accepted history)
    × (failure.submitted_items ≡ length paths * length (accepted history))
IsAccounted paths (mode_refused e) history = asked history ≡ []
IsAccounted paths (list_failed message) history = asked history ≡ []
IsAccounted paths repeated_marker history = asked history ≡ []
IsAccounted paths out_of_fuel history = asked history ≡ []

-- Nothing was invalidated, and these tenants were listed.
abbrev Listing : List DistributionTenant → History → Type 0
Listing tenants history =
    (listed_tenants history ≡ tenants) × (asked history ≡ []) × (accepted history ≡ [])

after_page-Ends :
    (F : TenantPurgeError → History → Type 0) (Q : List DistributionTenant → History → Type 0)
    (next : Option Text) (seen : TextSet) (tenants : List DistributionTenant)
    (go_on : Text → Run TenantPurgeError (List DistributionTenant)) (history : History)
    → Q tenants history
    → F repeated_marker history
    → ((m : Text) → Ends F Q (go_on m history))
    → Ends F Q (after_page next seen tenants go_on history)
after_page-Ends F Q none seen tenants go_on history q f k = q
after_page-Ends F Q (some m) seen tenants go_on history q f k = elim (Bool-cases (member m seen)) [
  | inl old ↦ rw old f
  | inr fresh ↦ rw fresh (k m)
]

module _ (client : SaasClient) (config : CdnTenantConfig) (paths : List Text) where
  list_pages-Listing :
      (fuel : ℕ) (marker : Option Text) (seen : TextSet) (tenants : List DistributionTenant)
      (history : History)
      → Listing tenants history
      → Ends (IsAccounted paths) Listing (list_pages client config fuel marker seen tenants history)
  unfolding list_pages
  list_pages-Listing zero marker seen tenants history (l, a, c) = a
  list_pages-Listing (suc fuel) marker seen tenants history (l, a, c) =
      let answer = client.list_distribution_tenants history config.distribution_id marker in
      Ends-follow (IsAccounted paths) (λ page h. Listing (tenants ++ page.tenants) h) Listing
        (call list_failed (λ h. client.list_distribution_tenants h config.distribution_id marker)
          (listed marker) history)
        (λ page. after_page page.next_marker seen (tenants ++ page.tenants) (λ next.
          list_pages client config fuel (some next) (add next seen) (tenants ++ page.tenants)))
        (Ends-call (IsAccounted paths) (λ page h. Listing (tenants ++ page.tenants) h) list_failed
          answer (listed marker answer ∷ history)
          (λ page e. rw e (ap (λ ts. ts ++ page.tenants) l, a, c)) (λ message e. a))
        (λ page h now.
          after_page-Ends (IsAccounted paths) Listing page.next_marker seen
            (tenants ++ page.tenants)
            (λ next.
              list_pages client config fuel (some next) (add next seen) (tenants ++ page.tenants))
            h now (now.1)
            (λ m. list_pages-Listing fuel (some m) (add m seen) (tenants ++ page.tenants) h now))

  module _ (sha256 : List ℕ → List ℕ) (namespace : List ℕ) (request : CdnPurgeRequest) where
    abbrev asks : List DistributionTenant → List TenantInvalidationRequest
    asks = map (invalidation_of client config sha256 namespace request paths)

    -- The tenants up to here are invalidated, with these ids.
    abbrev Done : List DistributionTenant → List DistributionTenant → List Text → History → Type 0
    Done tenants done ids history =
        (listed_tenants history ≡ tenants)
        × (asked history ≡ asks done)
        × (accepted history ≡ ids)
        × (length ids ≡ length done)

    Done-next :
        (tenants done : List DistributionTenant) (tenant : DistributionTenant) (ids : List Text)
        (id : Text) (history : History)
        → Done tenants done ids history
        → Done tenants (done ++ tenant ∷ []) (ids ++ id ∷ []) (
            invalidated
              (invalidation_of client config sha256 namespace request paths tenant)
              (ok id)
            ∷ history)
    Done-next tenants done tenant ids id history (l, a, c, n) =
        let asks_one = invalidation_of client config sha256 namespace request paths tenant in
        (
          l,
          ap (λ rs. rs ++ asks_one ∷ []) a
              ∙ sym (
                  map-append (invalidation_of client config sha256 namespace request paths) done
                    (tenant ∷ [])),
          ap (λ is. is ++ id ∷ []) c,
          omega (arith, n, length-append ids (id ∷ []), length-append done (tenant ∷ [])),
        )

    invalidate_each-Done :
        (tenants done rest : List DistributionTenant) (ids : List Text) (history : History)
        → Done tenants done ids history
        → Ends
            (IsAccounted paths)
            (Done tenants (done ++ rest))
            (invalidate_each client config sha256 namespace request paths ids rest history)
    unfolding invalidate_each
    invalidate_each-Done tenants done [] ids history d = rw (append-nil done) d
    invalidate_each-Done tenants done (tenant ∷ rest) ids history d =
        let one = invalidation_of client config sha256 namespace request paths tenant in
        let answer = client.create_invalidation_for_distribution_tenant history one in
        let Next : Text → History → Type 0 =
          λ id h. Done tenants (done ++ tenant ∷ []) (ids ++ id ∷ []) h in
        Ends-follow (IsAccounted paths) Next (Done tenants (done ++ tenant ∷ rest))
          (call (failure_of paths ids tenant.id)
            (λ h. client.create_invalidation_for_distribution_tenant h one) (invalidated one)
            history)
          (λ id. invalidate_each client config sha256 namespace request paths (ids ++ id ∷ []) rest)
          (Ends-call (IsAccounted paths) Next (failure_of paths ids tenant.id) answer
            (invalidated one answer ∷ history)
            (λ id e. rw e (Done-next tenants done tenant ids id history d))
            (λ message e. rw e (sym (d.2), ap (λ is. length paths * length is) (sym (d.2)))))
          (λ id h now.
            rw (sym (append_assoc done (tenant ∷ []) rest))
              (invalidate_each-Done tenants (done ++ tenant ∷ []) rest (ids ++ id ∷ []) h now))

    -- The tenants are invalidated, in order, and the result gives the ids and counts of the service.
    abbrev Submitted :
        List DistributionTenant → List DistributionTenant → CdnPurgeResult → History → Type 0
    Submitted listed_ones tenants result history =
        (listed_tenants history ≡ listed_ones)
        × (asked history ≡ asks tenants)
        × (result.request_ids ≡ accepted history)
        × (length result.request_ids ≡ length tenants)
        × (result.submitted_items ≡ length paths * length tenants)

    purge_tenants-Submitted :
        (listed_ones tenants : List DistributionTenant) (history : History)
        → Listing listed_ones history
        → Ends
            (IsAccounted paths)
            (Submitted listed_ones tenants)
            (purge_tenants client config sha256 namespace request paths tenants history)
    unfolding purge_tenants
    purge_tenants-Submitted listed_ones [] history (l, a, c) = (l, a, sym c, refl, omega arith)
    purge_tenants-Submitted listed_ones (tenant ∷ tenants) history (l, a, c) =
        Ends-follow (IsAccounted paths) (Done listed_ones (tenant ∷ tenants))
          (Submitted listed_ones (tenant ∷ tenants))
          (invalidate_each client config sha256 namespace request paths [] (tenant ∷ tenants)
            history)
          (λ ids.
            pure (
              submitted_result client config sha256 namespace request paths (tenant ∷ tenants) ids))
          (invalidate_each-Done listed_ones [] (tenant ∷ tenants) [] history (l, a, c, refl))
          (λ ids h (l', a', c', n). (l', a', sym c', n, refl))

module _ (client : SaasClient) (config : CdnTenantConfig) (sha256 : List ℕ → List ℕ)
    (namespace : List ℕ) (exact_hosts : TextSet) (request : CdnPurgeRequest) where
  -- The tenants to invalidate, among those that were listed.
  abbrev pub chosen : List DistributionTenant → List DistributionTenant
  chosen tenants = sort_tenants (keep (is_purged config exact_hosts) tenants)

  -- Exactly the chosen tenants were invalidated, in order, and the result has the ids that the service
  -- gave, one for each, and the number of their paths.
  abbrev pub IsComplete : List Text → CdnPurgeResult → History → Type 0
  IsComplete paths result history =
      (asked history
        ≡ map (invalidation_of client config sha256 namespace request paths)
            (chosen (listed_tenants history)))
      × (result.request_ids ≡ accepted history)
      × (length result.request_ids ≡ length (chosen (listed_tenants history)))
      × (result.submitted_items ≡ length paths * length (chosen (listed_tenants history)))

  Submitted-IsComplete :
      (paths : List Text) (tenants : List DistributionTenant) (result : CdnPurgeResult)
      (history : History)
      → Submitted client config paths sha256 namespace request tenants
          (chosen tenants)
          result
          history
      → IsComplete paths result history
  Submitted-IsComplete paths tenants result history (l, a, i, n, k) = rw l (a, i, n, k)

  purged-Ends :
      (paths : List Text) (fuel : ℕ)
      → Ends (IsAccounted paths) (IsComplete paths) (
          then_run
            (list_pages client config fuel none [] [])
            (λ tenants. purge_tenants client config sha256 namespace request paths (chosen tenants))
            [])
  purged-Ends paths fuel =
      Ends-follow (IsAccounted paths) Listing (IsComplete paths)
        (list_pages client config fuel none [] [] [])
        (λ tenants. purge_tenants client config sha256 namespace request paths (chosen tenants))
        (list_pages-Listing client config paths fuel none [] [] [] (refl, refl, refl))
        (λ tenants h now.
          Ends-map (IsAccounted paths)
            (Submitted client config paths sha256 namespace request tenants (chosen tenants))
            (IsComplete paths)
            (purge_tenants client config sha256 namespace request paths (chosen tenants) h)
            (Submitted-IsComplete paths tenants)
            (purge_tenants-Submitted client config paths sha256 namespace request tenants
              (chosen tenants) h now))

  -- However a purge ends, it is accounted for. If it ends well, then the service was asked for an
  -- invalidation of exactly the enabled tenants of the distribution, among those that it listed, that
  -- own one of the exact hosts, in the order of their ids, each with the requested paths; and the
  -- result has the ids that it gave, one for each tenant, and the number of all their paths. If an
  -- invalidation fails, then the failure has the ids of those accepted before and the number of their
  -- paths. If anything else fails, then no invalidation was asked for.
  pub purge-Ends :
      (fuel : ℕ)
      → Ends
          (IsAccounted (requested_paths request.mode))
          (IsComplete (requested_paths request.mode))
          (purge client config sha256 namespace exact_hosts fuel request [])
  unfolding purge
  purge-Ends fuel =
      (elim (ensure_paths_mode request.mode (text "CloudFront SaaS"))
        as (λ mode. Ends (IsAccounted (value_or_nil mode)) (IsComplete (value_or_nil mode)) (
          then_run (checked (mode_checked mode))
            (λ paths. then_run (list_pages client config fuel none [] []) (λ tenants.
              purge_tenants client config sha256 namespace request paths (chosen tenants)))
            [])) [ ok paths ↦ purged-Ends paths fuel | err error ↦ refl ])
