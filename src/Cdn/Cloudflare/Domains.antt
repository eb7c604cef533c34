-- ===== src/Cdn/Cloudflare/Domains.antt =====
-- What reconciling the domains asks of Cloudflare, src/repositories/cloudflare_cdn.rs.
use rendermesh.Base.{
  ◌≡◌, refl, ◌∙◌, inl, inr, ℕ, ◌+◌, Bool, true, false, Option, none, some, List, [], ◌∷◌, All,
  All-map, All-member, Text, member, length, if◌then◌else◌, Bool-cases, arith,
}
use rendermesh.Base.Actions.{pure, Ends, Ends-follow, Ends-map}
use rendermesh.Cdn.{CdnDomainReconcileRequest, CdnDomainReconcileResult}
use rendermesh.Cdn.Cloudflare.{
  CloudflareDnsRecord, http_post, http_put, http_delete, History, CloudflareCdnRepository, mutate,
}
use rendermesh.Cdn.Cloudflare.Records.{
  find_record, DomainCounts, is_current, reconcile_found, reconcile_listed, is_extra, remove_extra,
  reconcile_records,
}
use rendermesh.Cdn.Cloudflare.Histories.{succeeded, Extends, Extends-trans}
use rendermesh.Cdn.Cloudflare.Calls.{
  create, update, IsCalledFor, IsServed, IsServed-Extends, Justified, IsMutated, mutate-Ends,
}
use rendermesh.Cdn.Cloudflare.Removals.{count_extra, IsRemoved, remove_extra-Ends}

module _ (repository : CloudflareCdnRepository) (request : CdnDomainReconcileRequest)
    (records : List CloudflareDnsRecord) where
  abbrev total : DomainCounts → ℕ
  total counts = counts.added + counts.updated + counts.unchanged

  abbrev IsReconciled : List Text → DomainCounts → History → DomainCounts → History → Type 0
  IsReconciled domains counts before next after =
      All (IsCalledFor repository request records) after
      × Extends before after
      × All (IsServed repository request records after) domains
      × (total next ≡ total counts + length domains)
      × (next.added + succeeded http_post before ≡ counts.added + succeeded http_post after)
      × (next.updated + succeeded http_put before ≡ counts.updated + succeeded http_put after)
      × (succeeded http_delete after ≡ succeeded http_delete before)

  -- The listed record that is taken for a domain, if there is one, is named exactly as a desired domain.
  abbrev pub IsExact : Option CloudflareDnsRecord → Type 0
  IsExact none = Unit {0}
  IsExact (some found) = member found.name request.desired_domains ≡ true

  member-kept :
      (found : CloudflareDnsRecord)
      → member found.name request.desired_domains ≡ true
      → is_extra repository request found ≡ false
  member-kept found e = ground arith

  reconcile_found-Ends :
      (domain : Text) (counts : DomainCounts) (found : Option CloudflareDnsRecord)
      (history : History)
      → IsExact found
      → find_record domain records ≡ found
      → member domain request.desired_domains ≡ true
      → All (IsCalledFor repository request records) history
      → Ends
          (Justified repository request records)
          (IsReconciled (domain ∷ []) counts history)
          (reconcile_found repository request domain counts found history)
  reconcile_found-Ends domain counts none history exact e m h =
      Ends-follow (Justified repository request records)
        (IsMutated repository request records (create repository request records domain) history)
        (IsReconciled (domain ∷ []) counts history)
        (mutate repository (create repository request records domain) history) _
        (mutate-Ends repository request records (create repository request records domain) history
          (λ reply. inl (domain, m, e, refl)) h)
        (λ done after (j, x, d, c).
          let posted = c http_post in
          let put = c http_put in
          let deleted = c http_delete in
          (j, x, (inr (e, d), tt), ground arith, omega arith, omega arith, deleted))
  reconcile_found-Ends domain counts (some found) history exact e m h =
      elim (Bool-cases (is_current repository request found)) [
        | inl current ↦ rw current (
          h,
          ([], refl),
          (inl (found, e, member-kept found exact, inl current), tt),
          ground arith,
          omega arith,
          omega arith,
          refl,
        )
        | inr stale ↦ rw stale (
            Ends-follow (Justified repository request records)
              (IsMutated repository request records (update repository request records found)
                history)
              (IsReconciled (domain ∷ []) counts history)
              (mutate repository (update repository request records found) history) _
              (mutate-Ends repository request records (update repository request records found)
                history (λ reply. inr (inl (domain, found, m, e, stale, refl))) h)
              (λ done after (j, x, d, c).
                let posted = c http_post in
                let put = c http_put in
                let deleted = c http_delete in
                let kept = member-kept found exact in
                (
                  j,
                  x,
                  (inl (found, e, kept, inr d), tt),
                  ground arith,
                  omega arith,
                  omega arith,
                  deleted,
                )))
      ]

  reconcile_listed-Ends :
      (domains : List Text) (counts : DomainCounts) (history : History)
      → All (λ domain. IsExact (find_record domain records)) domains
      → All (λ domain. member domain request.desired_domains ≡ true) domains
      → All (IsCalledFor repository request records) history
      → Ends
          (Justified repository request records)
          (IsReconciled domains counts history)
          (reconcile_listed repository request records domains counts history)
  unfolding reconcile_listed
  reconcile_listed-Ends [] counts history exact m h =
      (h, ([], refl), tt, ground arith, refl, refl, refl)
  reconcile_listed-Ends (domain ∷ domains) counts history (exact, exacts) (m, ms) h =
      Ends-follow (Justified repository request records) (IsReconciled (domain ∷ []) counts history)
        (IsReconciled (domain ∷ domains) counts history)
        (reconcile_found repository request domain counts (find_record domain records) history) _
        (reconcile_found-Ends domain counts (find_record domain records) history exact refl m h)
        (λ next middle (j, x, (served, _), e, a, u, d).
          Ends-map (Justified repository request records) (IsReconciled domains next middle)
            (IsReconciled (domain ∷ domains) counts history)
            (reconcile_listed repository request records domains next middle)
            (λ last after (j', x', served', e', a', u', d'). (
              j',
              Extends-trans x x',
              (IsServed-Extends repository request records domain x' served, served'),
              ground arith,
              omega arith,
              omega arith,
              d' ∙ d,
            ))
            (reconcile_listed-Ends domains next middle exacts ms j))

  -- The result counts every desired domain once, and the removed records.
  pub record IsResult (history : History) (result : CdnDomainReconcileResult) : Type 0 where
    pub called : All (IsCalledFor repository request records) history
    pub served : All (IsServed repository request records history) request.desired_domains
    pub domains : result.added + result.updated + result.unchanged ≡ length request.desired_domains
    pub added : result.added ≡ succeeded http_post history
    pub updated : result.updated ≡ succeeded http_put history
    pub deleted : result.removed ≡ succeeded http_delete history
    pub removed :
        result.removed
        ≡ (if request.remove_extra_domains then (count_extra repository request) records else 0)

  abbrev IsCleared : Bool → History → ℕ → History → Type 0
  IsCleared wanted before removed after =
      All (IsCalledFor repository request records) after
      × Extends before after
      × (removed ≡ (if wanted then (count_extra repository request) records else 0))
      × (removed + succeeded http_delete before ≡ succeeded http_delete after)
      × (succeeded http_post after ≡ succeeded http_post before)
      × (succeeded http_put after ≡ succeeded http_put before)

  removed-Ends :
      (wanted : Bool) (history : History)
      → request.remove_extra_domains ≡ wanted
      → All (IsCalledFor repository request records) history
      → Ends
          (Justified repository request records)
          (IsCleared wanted history)
          ((if wanted then remove_extra repository request records 0 else pure 0) history)
  removed-Ends true history allowed h =
      Ends-map (Justified repository request records)
        (IsRemoved repository request records records 0 history) (IsCleared true history)
        (remove_extra repository request records 0 history)
        (λ removed after (j, x, e, d, p, u). (j, x, ground arith, omega arith, p, u))
        (remove_extra-Ends repository request records records 0 history allowed (λ found m. m) h)
  removed-Ends false history allowed h = (h, ([], refl), refl, omega arith, refl, refl)

  -- Let every listed record that is taken for a desired domain be named exactly as a desired domain,
  -- in the case of its letters too. Behind the listing, whether the run succeeds or stops at a failure,
  -- every request creates a record for a desired domain that no listed record has, updates the listed
  -- record of a desired domain that differs from what is desired, or deletes a listed `CNAME` record
  -- that points to the origin's domain and is not desired, this last only if extra domains are to be
  -- removed. On success every desired domain has a listed record that is not one of those to delete
  -- and that is as desired or whose update was answered with a success, or it had none and the request
  -- to create it was answered with a success. The added, updated and removed counts are the `POST`,
  -- `PUT` and `DELETE` requests that were answered with a success; the added, updated and unchanged
  -- ones together count every desired domain once, and the removed ones the records to delete, or none
  -- if none is to be removed.
  pub reconcile_records-Ends :
      All (λ domain. IsExact (find_record domain records)) request.desired_domains
      → Ends
          (Justified repository request records)
          (λ result history. IsResult history result)
          (reconcile_records repository request records [])
  unfolding reconcile_records succeeded
  reconcile_records-Ends exact =
      let none_yet : DomainCounts = record { added = 0; updated = 0; unchanged = 0 } in
      Ends-follow (Justified repository request records)
        (IsReconciled request.desired_domains none_yet [])
        (λ result history. IsResult history result)
        (reconcile_listed repository request records request.desired_domains none_yet []) _
        (reconcile_listed-Ends request.desired_domains none_yet [] exact
          (All-member request.desired_domains) tt)
        (λ counts middle (j, x, served, e, a, u, d).
          Ends-follow (Justified repository request records)
            (IsCleared request.remove_extra_domains middle)
            (λ result history. IsResult history result)
            ((if request.remove_extra_domains
                then remove_extra repository request records 0
                else pure 0)
              middle)
            _ (removed-Ends request.remove_extra_domains middle refl j)
            (λ removed after (j', x', r, d', p', u'). record {
              called = j';
              served =
                  All-map (IsServed repository request records middle)
                    (IsServed repository request records after) request.desired_domains
                    (λ domain. IsServed-Extends repository request records domain x') served;
              domains = ground arith;
              added = omega arith;
              updated = omega arith;
              deleted = omega arith;
              removed = r;
            }))
