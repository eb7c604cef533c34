-- ===== src/Cdn/Cloudflare/Records.antt =====
-- `reconcile_domains` of src/repositories/cloudflare_cdn.rs.
use rendermesh.Base.{
  ℕ, suc, Bool, true, false, not, ◌&&◌, Option, none, some, List, [], ◌∷◌, Text, text, member,
  ◌===◌, if◌then◌else◌, to_ascii_lowercase,
}
use rendermesh.Base.Actions.{Action, then_run, pure}
use rendermesh.Cdn.{CdnDomainReconcileRequest, CdnDomainReconcileResult}
use rendermesh.Cdn.Cloudflare.{
  CloudflareDnsRecord, CloudflareCdnRepository, CloudflareError, History, create_request,
  update_request, delete_request, mutate, list_dns_records,
}

abbrev pub is_dns_match : Text → CloudflareDnsRecord → Bool
is_dns_match domain record' = to_ascii_lowercase record'.name === to_ascii_lowercase domain

-- `records.iter().find(|record| record.name.eq_ignore_ascii_case(domain))`
unfoldable pub find_record : Text → List CloudflareDnsRecord → Option CloudflareDnsRecord
find_record domain [] = none
find_record domain (first ∷ records) =
    let later = find_record domain records in
    if is_dns_match domain first then some first else later

-- The three counts of the first loop.
pub record DomainCounts : Type 0 where
  pub added : ℕ
  pub updated : ℕ
  pub unchanged : ℕ

abbrev pub same_bool : Bool → Bool → Bool
same_bool true b = b
same_bool false b = not b

module _ (repository : CloudflareCdnRepository) (request : CdnDomainReconcileRequest) where
  -- The guard of the first arm.
  abbrev pub is_current : CloudflareDnsRecord → Bool
  is_current found =
      (found.record_type === text "CNAME")
      && (found.content === request.origin_domain)
      && same_bool found.proxied request.proxied

  abbrev pub reconcile_found :
      Text → DomainCounts → Option CloudflareDnsRecord → Action History CloudflareError DomainCounts
  reconcile_found domain counts none =
      then_run
        (mutate repository (create_request repository domain request.origin_domain request.proxied))
        (λ _. pure (record counts { added = suc counts.added }))
  reconcile_found domain counts (some found) =
      if is_current found
      then pure (record counts { unchanged = suc counts.unchanged })
      else then_run
          (mutate repository
            (update_request repository found request.origin_domain request.proxied))
          (λ _. pure (record counts { updated = suc counts.updated }))

  module _ (records : List CloudflareDnsRecord) where
    unfoldable pub reconcile_listed :
        List Text → DomainCounts → Action History CloudflareError DomainCounts
    reconcile_listed [] counts = pure counts
    reconcile_listed (domain ∷ domains) counts =
        then_run (reconcile_found domain counts (find_record domain records))
          (reconcile_listed domains)

  abbrev pub is_extra : CloudflareDnsRecord → Bool
  is_extra found =
      (found.record_type === text "CNAME")
      && (found.content === request.origin_domain)
      && not (member found.name request.desired_domains)

  unfoldable pub remove_extra : List CloudflareDnsRecord → ℕ → Action History CloudflareError ℕ
  remove_extra [] removed = pure removed
  remove_extra (found ∷ records) removed =
      if is_extra found
      then then_run (mutate repository (delete_request repository found.id))
          (λ _. remove_extra records (suc removed))
      else remove_extra records removed

  abbrev pub domains_result : DomainCounts → ℕ → CdnDomainReconcileResult
  domains_result counts removed = record {
    provider = text "cloudflare";
    status = text "submitted";
    added = counts.added;
    updated = counts.updated;
    removed = removed;
    unchanged = counts.unchanged;
  }

  -- What follows the listing.
  unfoldable pub reconcile_records :
      List CloudflareDnsRecord → Action History CloudflareError CdnDomainReconcileResult
  unfolding reconcile_listed remove_extra
  reconcile_records records =
      then_run
        (reconcile_listed records request.desired_domains
          (record { added = 0; updated = 0; unchanged = 0 }))
        (λ counts.
          then_run (if request.remove_extra_domains then remove_extra records 0 else pure 0)
            (λ removed. pure (domains_result counts removed)))

  unfoldable pub reconcile_domains : Action History CloudflareError CdnDomainReconcileResult
  unfolding list_dns_records reconcile_records
  reconcile_domains = then_run (list_dns_records repository) reconcile_records
