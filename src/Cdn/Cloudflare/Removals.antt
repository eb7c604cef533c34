-- ===== src/Cdn/Cloudflare/Removals.antt =====
-- Removing the extra records, src/repositories/cloudflare_cdn.rs.
use rendermesh.Base.{
  ◌≡◌, refl, ◌∙◌, inl, inr, ℕ, suc, ◌+◌, true, List, [], ◌∷◌, All, Any, if◌then◌else◌, Bool-cases,
  arith,
}
use rendermesh.Base.Actions.{Ends, Ends-follow, Ends-map}
use rendermesh.Cdn.{CdnDomainReconcileRequest}
use rendermesh.Cdn.Cloudflare.{
  CloudflareDnsRecord, http_post, http_put, http_delete, History, CloudflareCdnRepository,
  delete_request, mutate,
}
use rendermesh.Cdn.Cloudflare.Records.{is_extra, remove_extra}
use rendermesh.Cdn.Cloudflare.Histories.{succeeded, Extends, Extends-trans}
use rendermesh.Cdn.Cloudflare.Calls.{IsCalledFor, Justified, IsMutated, mutate-Ends}

module _ (repository : CloudflareCdnRepository) (request : CdnDomainReconcileRequest) where
  -- How many listed records are extra.
  unfoldable pub count_extra : List CloudflareDnsRecord → ℕ
  count_extra [] = 0
  count_extra (found ∷ more) =
      let rest = count_extra more in if is_extra repository request found then suc rest else rest

module _ (repository : CloudflareCdnRepository) (request : CdnDomainReconcileRequest)
    (records : List CloudflareDnsRecord) where
  abbrev pub IsRemoved : List CloudflareDnsRecord → ℕ → History → ℕ → History → Type 0
  IsRemoved listed removed before next after =
      All (IsCalledFor repository request records) after
      × Extends before after
      × (next ≡ removed + count_extra repository request listed)
      × (next + succeeded http_delete before ≡ removed + succeeded http_delete after)
      × (succeeded http_post after ≡ succeeded http_post before)
      × (succeeded http_put after ≡ succeeded http_put before)

  pub remove_extra-Ends :
      (listed : List CloudflareDnsRecord) (removed : ℕ) (history : History)
      → request.remove_extra_domains ≡ true
      → ((found : CloudflareDnsRecord) → Any (λ r. r ≡ found) listed → Any (λ r. r ≡ found) records)
      → All (IsCalledFor repository request records) history
      → Ends
          (Justified repository request records)
          (IsRemoved listed removed history)
          (remove_extra repository request listed removed history)
  unfolding remove_extra count_extra
  remove_extra-Ends [] removed history allowed inside h =
      (h, ([], refl), ground arith, refl, refl, refl)
  remove_extra-Ends (found ∷ listed) removed history allowed inside h =
      elim (Bool-cases (is_extra repository request found)) [
        | inl extra ↦ rw extra (
            Ends-follow (Justified repository request records)
              (IsMutated repository request records (delete_request repository found.id) history)
              (IsRemoved (found ∷ listed) removed history)
              (mutate repository (delete_request repository found.id) history) _
              (mutate-Ends repository request records (delete_request repository found.id) history
                (λ reply. inr (inr (found, allowed, inside found (inl refl), extra, refl))) h)
              (λ done middle (j, x, d, c).
                let posted = c http_post in
                let put = c http_put in
                let deleted = c http_delete in
                Ends-map (Justified repository request records)
                  (IsRemoved listed (suc removed) middle)
                  (IsRemoved (found ∷ listed) removed history)
                  (remove_extra repository request listed (suc removed) middle)
                  (λ last after (j', x', e', d', p', u').
                    (j', Extends-trans x x', ground arith, omega arith, p' ∙ posted, u' ∙ put))
                  (remove_extra-Ends listed (suc removed) middle allowed
                    (λ other m. inside other (inr m)) j)))
        | inr kept ↦ rw kept (
            Ends-map (Justified repository request records) (IsRemoved listed removed history)
              (IsRemoved (found ∷ listed) removed history)
              (remove_extra repository request listed removed history)
              (λ last after (j, x, e, d, p, u). (j, x, ground arith, d, p, u))
              (remove_extra-Ends listed removed history allowed (λ other m. inside other (inr m))
                h))
      ]
