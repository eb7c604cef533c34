-- ===== src/Cdn/Tenants/Safety.antt =====
-- What is justified about the changes of a reconciliation, src/repositories/cloudfront_saas_cdn.rs.
use rendermesh.Base.{
  ◌≡◌, ℕ, suc, Bool, true, false, none, [], ◌∷◌, Text, TextSet, member, if◌then◌else◌, ok, err,
}
use rendermesh.Cdn.{CdnTenantConfig}
use rendermesh.Cdn.Tenants.{
  VersionedDistributionTenant, CreateDistributionTenantRequest, UpdateDistributionTenantRequest,
  TenantError,
}
use rendermesh.Cdn.Tenants.Service.{
  Exchange, looked_up, current_read, certificate_read, listed, created, updated, invalidated,
  History,
}
use rendermesh.Cdn.Tenants.Reconcile.{Outcome, was_added, was_updated, was_unchanged}

-- The latest call before an update read a tenant of the distribution whose only domain is a desired
-- one, and the update changes that version of it, keeping the distribution and the domain.
pub record IsAdoption (config : CdnTenantConfig) (desired : TextSet)
    (request : UpdateDistributionTenantRequest) (before : History) : Type 0 where
  pub domain : Text
  pub current : VersionedDistributionTenant
  pub asked : Text
  pub earlier : History
  pub is_desired : member domain desired ≡ true
  pub is_read : before ≡ current_read asked (ok current) ∷ earlier
  pub is_of_distribution : current.tenant.distribution_id ≡ config.distribution_id
  pub owns_domain : current.tenant.domains ≡ domain ∷ []
  pub is_for_tenant : request.id ≡ current.tenant.id
  pub is_of_version : request.if_match ≡ current.etag
  pub keeps_distribution : request.tenant.distribution_id ≡ config.distribution_id
  pub keeps_domain : request.tenant.domains ≡ domain ∷ []

-- The latest call before a creation found no tenant of a desired domain, and the new tenant has that
-- domain only.
pub record IsCreation (config : CdnTenantConfig) (desired : TextSet)
    (request : CreateDistributionTenantRequest) (before : History) : Type 0 where
  pub domain : Text
  pub earlier : History
  pub is_desired : member domain desired ≡ true
  pub is_unknown : before ≡ looked_up domain (ok none) ∷ earlier
  pub is_of_distribution : request.distribution_id ≡ config.distribution_id
  pub has_domain : request.domains ≡ domain ∷ []

abbrev pub IsJustified : CdnTenantConfig → TextSet → Exchange → History → Type 0
IsJustified config desired (created request answer) before =
    IsCreation config desired request before
IsJustified config desired (updated request answer) before =
    IsAdoption config desired request before
IsJustified config desired (invalidated request answer) before = ⊥
IsJustified config desired (looked_up domain answer) before = Unit
IsJustified config desired (current_read id answer) before = Unit
IsJustified config desired (certificate_read id answer) before = Unit
IsJustified config desired (listed marker answer) before = Unit

-- Every change in the history is justified by what came before it.
abbrev pub IsSafe : CdnTenantConfig → TextSet → History → Type 0
IsSafe config desired [] = Unit
IsSafe config desired (exchange ∷ before) =
    IsJustified config desired exchange before × IsSafe config desired before

-- How many calls that create, or update, a tenant succeeded.
abbrev pub is_creation : Exchange → Bool
is_creation (created request (ok tenant)) = true
is_creation (created request (err message)) = false
is_creation _ = false

abbrev pub is_update : Exchange → Bool
is_update (updated request (ok tenant)) = true
is_update (updated request (err message)) = false
is_update _ = false

abbrev pub count : (Exchange → Bool) → History → ℕ
count test [] = 0
count test (exchange ∷ before) = let n = count test before in if test exchange then suc n else n

abbrev pub creations : History → ℕ
creations = count is_creation

abbrev pub updates : History → ℕ
updates = count is_update

-- What was added and updated so far, and that all changes are justified.
abbrev pub Stands : CdnTenantConfig → TextSet → ℕ → ℕ → History → Type 0
Stands config desired a u history =
    IsSafe config desired history × (creations history ≡ a) × (updates history ≡ u)

abbrev pub After : CdnTenantConfig → TextSet → ℕ → ℕ → Outcome → History → Type 0
After config desired a u was_added = Stands config desired (suc a) u
After config desired a u was_updated = Stands config desired a (suc u)
After config desired a u was_unchanged = Stands config desired a u

-- Where a run of a reconciliation fails, the changes up to there are justified.
abbrev pub Failed : CdnTenantConfig → TextSet → TenantError → History → Type 0
Failed config desired error history = IsSafe config desired history
