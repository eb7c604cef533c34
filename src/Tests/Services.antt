-- ===== src/Tests/Services.antt =====
-- The routes and the Cloudflare client at concrete requests.
use rendermesh.Base.{
  ◌≡◌, refl, true, false, Option, none, some, List, [], ◌∷◌, Text, text, TextSet, member, Result,
  ok, err,
}
use rendermesh.Base.Actions.{Ends}
use rendermesh.Cdn.{CdnDomainReconcileRequest}
use rendermesh.Cdn.Cloudflare.{CloudflareDnsRecord, CloudflareCdnRepository, mutate, send}
use rendermesh.Cdn.Cloudflare.Records.{
  find_record, reconcile_listed, remove_extra, reconcile_records, domains_result,
}
use rendermesh.Cdn.Cloudflare.Calls.{Justified}
use rendermesh.Cdn.Cloudflare.Domains.{IsResult, reconcile_records-Ends}
use rendermesh.Routes.{sync_origin}
use rendermesh.Routes.Authorization.{IsGuarded, sync_origin-IsGuarded}
use rendermesh.Tests.Refreshes.{sample_host, sample_origins, sample_state}

sync_origin-IsGuarded_example :
    IsGuarded sample_host
      (λ e. text "failed")
      (some (text "secret"))
      (some sample_origins)
      (text "docs")
      ((text "authorization", some (text "Bearer guess")) ∷ [])
      sample_state
      (sync_origin sample_host
        (λ e. text "failed")
        (some (text "secret"))
        (some sample_origins)
        (text "docs")
        ((text "authorization", some (text "Bearer guess")) ∷ [])
        sample_state)
sync_origin-IsGuarded_example =
    sync_origin-IsGuarded sample_host (λ e. text "failed") (some (text "secret"))
      (some sample_origins) (text "docs") ((text "authorization", some (text "Bearer guess")) ∷ [])
      sample_state

-- A zone with a record to update and one to remove, behind an API that accepts everything.
abbrev accepting : CloudflareCdnRepository
accepting = record {
  client = record {
    send = λ history request. some (record { status = 200; body = some [] });
    parse_purge = λ body. none;
    parse_records = λ body. none;
  };
  api_base = text "https://api";
  zone_id = text "zone";
  api_token = text "token";
}

abbrev cname : Text → Text → Text → CloudflareDnsRecord
cname id name content = record {
  id = id;
  record_type = text "CNAME";
  name = name;
  content = content;
  proxied = true;
}

abbrev zone_records : List CloudflareDnsRecord
zone_records =
    cname (text "1") (text "a.io") (text "elsewhere.net")
    ∷ cname (text "2") (text "old.io") (text "mesh.net")
    ∷ []

abbrev two_domains : CdnDomainReconcileRequest
two_domains = record {
  origin_id = text "docs";
  desired_domains = text "a.io" ∷ text "b.io" ∷ [];
  origin_domain = text "mesh.net";
  certificate_arn = none;
  proxied = true;
  remove_extra_domains = true;
}

two_domains_result :
    (reconcile_records accepting two_domains zone_records []).1
    ≡ ok (domains_result accepting two_domains (record { added = 1; updated = 1; unchanged = 0 }) 1)
unfolding member rendermesh.Base.text_dec rendermesh.Base.to_ascii_lowercase find_record mutate send
    reconcile_listed remove_extra reconcile_records
two_domains_result = refl

reconcile_records-Ends_example :
    Ends
      (Justified accepting two_domains zone_records)
      (λ result history. IsResult accepting two_domains zone_records history result)
      (reconcile_records accepting two_domains zone_records [])
unfolding member rendermesh.Base.text_dec rendermesh.Base.to_ascii_lowercase find_record
reconcile_records-Ends_example =
    reconcile_records-Ends accepting two_domains zone_records (refl, (tt, tt))
