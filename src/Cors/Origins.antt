-- ===== src/Cors/Origins.antt =====
-- The CORS policy (src/services/cors.rs) allows exactly the HTTPS origins of the hosts that the
-- manifest maps to the origin.
use rendermesh.Base.{
  ◌≡◌, ◌↔◌, ◌⊎◌, refl, sym, ap, subst, ◌∙◌, inl, inr, true, false, Option, none, some, [], arith,
  Any, Any-map, Text, text, Option-cases, Bool-cases,
}
use rendermesh.Cors.{
  Url, from_manifest, is_plain_https, host_of_url, parse_https_origin_host, allowed_origin_for,
}
use rendermesh.Cors.Rules.{IsHostOf, rule_of-Matching}
use rendermesh.Cors.Laws.{Permits, allowed_origin_for_rules}
use rendermesh.Hosts.Names.{normalize_host}
use rendermesh.Manifest.{HostConfig, RenderMeshManifest}

-- An HTTPS URL with the default port, without path, query, fragment and credentials, and its host.
pub record IsPlainHttps (url : Url) (host : Text) : Type 0 where
  pub scheme : url.scheme ≡ text "https"
  pub path : url.path ≡ text "/"
  pub query : url.query ≡ none
  pub fragment : url.fragment ≡ none
  pub username : url.username ≡ []
  pub password : url.password ≡ none
  pub port : (url.port ≡ none) ⊎ (url.port ≡ some 443)
  pub host_str : (raw : Text) × (url.host_str ≡ some raw) × (normalize_host raw ≡ some host)

permits_host :
    (origin_id host : Text) (entry : Text × HostConfig)
    → Permits origin_id host entry ↔ IsHostOf origin_id host entry
permits_host origin_id host (name, config) =
    let (there, back) = rule_of-Matching name host in
    (λ (same, m). (same, there m), λ (same, s). (same, back s))

is_plain_https_iff :
    (url : Url)
    → (is_plain_https url ≡ true) ↔ (
        (url.scheme ≡ text "https")
        × (url.path ≡ text "/")
        × (url.query ≡ none)
        × (url.fragment ≡ none)
        × (url.username ≡ [])
        × (url.password ≡ none)
        × ((url.port ≡ none) ⊎ (url.port ≡ some 443)))
is_plain_https_iff url = ground arith

host_of_url_iff :
    (url : Url) (host : Text)
    → (host_of_url url ≡ some host)
      ↔ ((raw : Text) × (url.host_str ≡ some raw) × (normalize_host raw ≡ some host))
host_of_url_iff url host = elim (Option-cases url.host_str) [
  | inl e ↦ (
    λ h. let bad : none ≡ some host = sym (rw (host_of_url, e) refl) ∙ h in cc,
    λ (raw, f, n). let bad : none ≡ some raw = sym e ∙ f in cc,
  )
  | inr (raw, e) ↦
      let at_raw : host_of_url url ≡ normalize_host raw = rw (host_of_url, e) refl in
      (
        λ h. (raw, e, sym at_raw ∙ h),
        λ (other, f, n). let same : raw ≡ other = cc in at_raw ∙ ap normalize_host same ∙ n,
      )
]

plain_iff :
    (url : Url) (host : Text)
    → ((is_plain_https url ≡ true) × (host_of_url url ≡ some host)) ↔ IsPlainHttps url host
plain_iff url host =
    let (there, back) = is_plain_https_iff url in
    (
      λ (p, h).
          let (a, b, c, d, e, f, g) = there p in
          record {
            scheme = a;
            path = b;
            query = c;
            fragment = d;
            username = e;
            password = f;
            port = g;
            host_str = (host_of_url_iff url host).0 h;
          },
      λ p. (
        back (p.scheme, p.path, p.query, p.fragment, p.username, p.password, p.port),
        (host_of_url_iff url host).1 p.host_str,
      ),
    )

module _ (parse_url : Text → Option Url) where
  -- What a request's origin has to be to name a host.
  abbrev pub IsHttpsOrigin : Text → Text → Type 0
  IsHttpsOrigin request_origin host =
      (url : Url) × (parse_url request_origin ≡ some url) × IsPlainHttps url host

  parse_https_origin_host_iff :
      (request_origin host : Text)
      → (parse_https_origin_host parse_url request_origin ≡ some host)
        ↔ IsHttpsOrigin request_origin host
  unfolding parse_https_origin_host
  parse_https_origin_host_iff request_origin host = elim (Option-cases (parse_url request_origin)) [
    | inl e ↦ (
      λ h. let bad : none ≡ some host = sym (rw (parse_https_origin_host, e) refl) ∙ h in cc,
      λ (url, f, _). let bad : none ≡ some url = sym e ∙ f in cc,
    )
    | inr (url, e) ↦ elim (Bool-cases (is_plain_https url)) [
      | inl plain ↦
          let at_url : parse_https_origin_host parse_url request_origin ≡ host_of_url url =
            rw (parse_https_origin_host, e, plain) refl in
          (
            λ h. (url, e, (plain_iff url host).0 (plain, sym at_url ∙ h)),
            λ (other, f, p).
                let same : other ≡ url = cc in
                at_url ∙ ((plain_iff url host).1 (subst (λ u. IsPlainHttps u host) same p)).1,
          )
      | inr bent ↦
          let at_url : parse_https_origin_host parse_url request_origin ≡ none =
            rw (parse_https_origin_host, e, bent) refl in
          (
            λ h. let bad : none ≡ some host = sym at_url ∙ h in cc,
            λ (other, f, p).
                let same : other ≡ url = cc in
                let bad : false ≡ true =
                  sym bent ∙ ((plain_iff url host).1 (subst (λ u. IsPlainHttps u host) same p)).0 in
                cc,
          )
    ]
  ]

  -- The policy of a manifest allows a request's origin for one of its origins exactly if that parses
  -- as an HTTPS URL on the default port, with no path but `/` and no query, fragment or credentials,
  -- whose normalised host some entry of the manifest with that origin stands for: the entry's name
  -- is no wildcard and normalises to the host, or it is `*.` and a normalised suffix that the host has
  -- behind something and a dot. The answer is then the request's origin as it was sent.
  pub allowed_origin_for_iff :
      {Value : Type 0} (m : RenderMeshManifest Value) (origin_id request_origin answer : Text)
      → (allowed_origin_for parse_url (from_manifest m) origin_id request_origin ≡ some answer) ↔ (
          (host : Text) × IsHttpsOrigin request_origin host
          × Any (IsHostOf origin_id host) m.hosts
          × (answer ≡ request_origin))
  allowed_origin_for_iff m origin_id request_origin answer =
      let (there, back) = allowed_origin_for_rules parse_url m origin_id request_origin answer in
      (
        λ h.
            let (host, p, permitted, same) = there h in
            (
              host,
              (parse_https_origin_host_iff request_origin host).0 p,
              Any-map _ _ m.hosts (λ entry. (permits_host origin_id host entry).0) permitted,
              same,
            ),
        λ (host, p, permitted, same). back (
          host,
          (parse_https_origin_host_iff request_origin host).1 p,
          Any-map _ _ m.hosts (λ entry. (permits_host origin_id host entry).1) permitted,
          same,
        ),
      )
