-- ===== src/Cdn/Tenants/Adoption.antt =====
-- Which tenants `reconcile_tenants` of src/repositories/cloudfront_saas_cdn.rs changes, and what it
-- counts.
use rendermesh.Base.{
  ◌≡◌, refl, sym, ℕ, suc, ◌+◌, true, ◌||◌, List, [], ◌∷◌, arith, Text, TextSet, All, All-map,
  member, length, Result, ok, err, ◌===◌,
}
use rendermesh.Cdn.{CdnTenantConfig, CdnTenantReconcileRequest, CdnDomainReconcileResult}
use rendermesh.Cdn.Tenants.{TenantError}
use rendermesh.Cdn.Tenants.Service.{SaasClient, History, Ends, Ends-follow, pure}
use rendermesh.Cdn.Tenants.Reconcile.{
  Outcome, was_added, was_updated, was_unchanged, Counts, count_outcome, reconcile_domain,
  reconcile_each, reconcile_tenants, result_of,
}
use rendermesh.Cdn.Tenants.Safety.{IsSafe, creations, updates, Stands, After, Failed}
use rendermesh.Cdn.Tenants.Steps.{reconcile_domain-After}

-- What stands after the loop, and how many domains are counted.
abbrev Counted : CdnTenantConfig → TextSet → ℕ → Counts → History → Type 0
Counted config desired total counts history =
    Stands config desired counts.added counts.updated history
    × (counts.added + counts.updated + counts.unchanged ≡ total)

IsSafe-at_end :
    {A : Type 0} (config : CdnTenantConfig) (desired : TextSet) (Q : A → History → Type 0)
    (end : History × Result TenantError A)
    → Ends (Failed config desired) (λ a history. IsSafe config desired history × Q a history) end
    → IsSafe config desired (end.0)
IsSafe-at_end config desired Q (history, ok a) h = h.0
IsSafe-at_end config desired Q (history, err e) h = h

After-Stands :
    (config : CdnTenantConfig) (desired : TextSet) (outcome : Outcome) (counts : Counts)
    (history : History)
    → After config desired counts.added counts.updated outcome history
    → Stands config desired
        (count_outcome outcome counts).added
        (count_outcome outcome counts).updated
        history
unfolding count_outcome
After-Stands config desired was_added counts history h = h
After-Stands config desired was_updated counts history h = h
After-Stands config desired was_unchanged counts history h = h

sum-count_outcome :
    (outcome : Outcome) (counts : Counts) (n total : ℕ)
    → counts.added + counts.updated + counts.unchanged + suc n ≡ total
    → (count_outcome outcome counts).added
        + (count_outcome outcome counts).updated
        + (count_outcome outcome counts).unchanged
        + n
      ≡ total
unfolding count_outcome
sum-count_outcome was_added counts n total h = ground arith
sum-count_outcome was_updated counts n total h = ground arith
sum-count_outcome was_unchanged counts n total h = ground arith

module _ (sha256 : List ℕ → List ℕ) (client : SaasClient) (config : CdnTenantConfig)
    (desired : TextSet) where
  reconcile_each-Counted :
      (domains : List Text) (counts : Counts) (earlier : History) (total : ℕ)
      → All (λ domain. member domain desired ≡ true) domains
      → Stands config desired counts.added counts.updated earlier
      → counts.added + counts.updated + counts.unchanged + length domains ≡ total
      → Ends
          (Failed config desired)
          (Counted config desired total)
          (reconcile_each sha256 client config domains counts earlier)
  unfolding reconcile_each
  reconcile_each-Counted [] counts earlier total ms stands t = (stands, ground arith)
  reconcile_each-Counted (domain ∷ domains) counts earlier total (m, ms) stands t =
      Ends-follow (Failed config desired) (After config desired counts.added counts.updated)
        (Counted config desired total) (reconcile_domain sha256 client config domain earlier)
        (λ outcome. reconcile_each sha256 client config domains (count_outcome outcome counts))
        (reconcile_domain-After sha256 client config desired domain earlier counts.added
          counts.updated m stands)
        (λ outcome h now.
          reconcile_each-Counted domains (count_outcome outcome counts) h total ms
            (After-Stands config desired outcome counts h now)
            (sum-count_outcome outcome counts (length domains) total t))

-- In a run that ends well the result counts the calls that succeeded, and every domain once.
abbrev pub IsReport : TextSet → CdnDomainReconcileResult → History → Type 0
IsReport desired result history =
    (result.added ≡ creations history)
    × (result.updated ≡ updates history)
    × (result.removed ≡ 0)
    × (result.added + result.updated + result.unchanged ≡ length desired)

All-member : (xs : List Text) → All (λ x. member x xs ≡ true) xs
unfolding member
All-member [] = tt
All-member (x ∷ xs) = (
  ground arith,
  All-map (λ y. member y xs ≡ true) (λ y. (y === x || member y xs) ≡ true) xs (λ y h. ground arith)
      (All-member xs),
)

module _ (sha256 : List ℕ → List ℕ) (client : SaasClient) (config : CdnTenantConfig)
    (request : CdnTenantReconcileRequest) where
  reconcile_tenants-Ends :
      Ends
        (λ error history. IsSafe config request.desired_domains history)
        (λ result history.
          IsSafe config request.desired_domains history
          × IsReport request.desired_domains result history)
        (reconcile_tenants sha256 client config request [])
  unfolding reconcile_tenants
  reconcile_tenants-Ends =
      let desired = request.desired_domains in
      let none_yet : Counts = record { added = 0; updated = 0; unchanged = 0 } in
      Ends-follow (Failed config desired) (Counted config desired (length desired))
        (λ result history. IsSafe config desired history × IsReport desired result history)
        (reconcile_each sha256 client config desired none_yet [])
        (λ counts. pure (result_of counts))
        (reconcile_each-Counted sha256 client config desired desired none_yet [] (length desired)
          (All-member desired) (tt, refl, refl) (ground arith))
        (λ counts history ((s, n, k), t). (s, (sym n, sym k, refl, t)))

  -- However a reconciliation ends, each of its changes was justified: a tenant was created only right
  -- after the service knew no tenant of a desired domain, in the configured distribution and for that
  -- domain alone; and a tenant was updated only right after it was read as one of the configured
  -- distribution that owns exactly one desired domain, in that version, and it keeps both.
  pub reconcile_tenants-IsSafe :
      IsSafe config request.desired_domains ((reconcile_tenants sha256 client config request []).0)
  reconcile_tenants-IsSafe =
      IsSafe-at_end config request.desired_domains (IsReport request.desired_domains)
        (reconcile_tenants sha256 client config request []) reconcile_tenants-Ends

  -- If a reconciliation ends well, then its result counts as added and updated exactly the calls that
  -- created and updated tenants, nothing as removed, and every desired domain once in all.
  pub reconcile_tenants-IsReport :
      (history : History) (result : CdnDomainReconcileResult)
      → reconcile_tenants sha256 client config request [] ≡ (history, ok result)
      → IsReport request.desired_domains result history
  reconcile_tenants-IsReport history result h = (rw h at reconcile_tenants-Ends).1
