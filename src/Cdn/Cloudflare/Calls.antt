-- ===== src/Cdn/Cloudflare/Calls.antt =====
-- What the requests of reconciling domains are called for, src/repositories/cloudflare_cdn.rs.
use rendermesh.Base.{
  ◌≡◌, refl, ◌⊎◌, inl, inr, suc, true, false, Option, none, some, List, [], ◌∷◌, All, Any, Text,
  member, if◌then◌else◌, Bool-cases,
}
use rendermesh.Base.Actions.{then_run, follow, checked, pure, Ends}
use rendermesh.Cdn.{CdnDomainReconcileRequest}
use rendermesh.Cdn.Cloudflare.{
  CloudflareDnsRecord, HttpMethod, HttpRequest, HttpReply, Exchange, History, CloudflareError,
  is_success, CloudflareCdnRepository, create_request, update_request, delete_request, mutate, send,
  successful, replied,
}
use rendermesh.Cdn.Cloudflare.Records.{find_record, is_current, is_extra}
use rendermesh.Cdn.Cloudflare.Histories.{same_method, succeeded, Done, Extends, Done-Extends}

module _ (repository : CloudflareCdnRepository) (request : CdnDomainReconcileRequest)
    (records : List CloudflareDnsRecord) where
  abbrev pub create : Text → HttpRequest
  create domain = create_request repository domain request.origin_domain request.proxied

  abbrev pub update : CloudflareDnsRecord → HttpRequest
  update found = update_request repository found request.origin_domain request.proxied

  -- A request to change the zone that the listed records call for.
  abbrev pub IsCalledFor : Exchange → Type 0
  IsCalledFor (sent, reply) =
      ((domain : Text) × (member domain request.desired_domains ≡ true)
        × (find_record domain records ≡ none)
        × (sent ≡ create domain))
      ⊎ ((domain : Text) × (found : CloudflareDnsRecord) × (member domain request.desired_domains
            ≡ true)
          × (find_record domain records ≡ some found)
          × (is_current repository request found ≡ false)
          × (sent ≡ update found))
      ⊎ ((found : CloudflareDnsRecord) × (request.remove_extra_domains ≡ true)
          × Any (λ r. r ≡ found) records
          × (is_extra repository request found ≡ true)
          × (sent ≡ delete_request repository found.id))

  -- A listed record of the domain is none of the extra ones, and is as desired or was updated; or there
  -- was none, and one was created.
  abbrev pub IsServed : History → Text → Type 0
  IsServed history domain =
      ((found : CloudflareDnsRecord) × (find_record domain records ≡ some found)
        × (is_extra repository request found ≡ false)
        × ((is_current repository request found ≡ true) ⊎ Done (update found) history))
      ⊎ ((find_record domain records ≡ none) × Done (create domain) history)

  pub IsServed-Extends :
      {a b : History} (domain : Text) → Extends a b → IsServed a domain → IsServed b domain
  IsServed-Extends domain e (inl (found, f, k, inl c)) = inl (found, f, k, inl c)
  IsServed-Extends domain e (inl (found, f, k, inr d)) =
      inl (found, f, k, inr (Done-Extends (update found) e d))
  IsServed-Extends domain e (inr (f, d)) = inr (f, Done-Extends (create domain) e d)

  abbrev pub Justified : CloudflareError → History → Type 0
  Justified error history = All IsCalledFor history

  -- One more request with the method of this one succeeded.
  abbrev pub IsCounted : HttpRequest → History → History → Type 0
  IsCounted sent before after =
      (method : HttpMethod)
      → succeeded method after ≡ (
          if same_method method sent.method
          then suc (succeeded method before)
          else succeeded method before)

  abbrev pub IsMutated : HttpRequest → History → Unit {0} → History → Type 0
  IsMutated sent before done after =
      All IsCalledFor after × Extends before after × Done sent after × IsCounted sent before after

  replied-Ends :
      (sent : HttpRequest) (history : History) (reply : Option HttpReply)
      → All IsCalledFor ((sent, reply) ∷ history)
      → Ends Justified (IsMutated sent history) (
          follow
            ((sent, reply) ∷ history, replied repository reply)
            (λ answer. then_run (checked (successful repository answer)) (λ _. pure tt)))
  unfolding succeeded
  replied-Ends sent history none h = h
  replied-Ends sent history (some reply) h = elim (Bool-cases (is_success reply.status)) [
    | inl good ↦
        let counted : IsCounted sent history ((sent, some reply) ∷ history) =
          λ method. rw good refl in
        rw good (h, ((sent, some reply) ∷ [], refl), inl (refl, good), counted)
    | inr bad ↦ rw bad h
  ]

  pub mutate-Ends :
      (sent : HttpRequest) (history : History)
      → ((reply : Option HttpReply) → IsCalledFor (sent, reply))
      → All IsCalledFor history
      → Ends Justified (IsMutated sent history) (mutate repository sent history)
  unfolding mutate send
  mutate-Ends sent history called h =
      replied-Ends sent history ((repository.client).send history sent)
        (called ((repository.client).send history sent), h)
