-- ===== src/Cdn/Hosts/Membership.antt =====
-- Which hosts the CDN of an origin gets, src/services/cdn_domains.rs and src/services/cdn_tenants.rs.
use rendermesh.Base.{
  ◌≡◌, ◌≢◌, is_some, text_dec, refl, sym, ap, ◌∙◌, ◌++◌, text, trim, to_ascii_lowercase,
  strip_prefix, strip_prefix-eq-some, strip_prefix_of_eq, starts_with, Any-map, Option-cases, ◌===◌,
  Bool, true, false, Option, none, some, List, [], ◌∷◌, ◌↔◌, ◌⊎◌, inl, inr, arith, Text, TextMap,
  Any, member, member-collect_set,
}
use rendermesh.Cdn.Hosts.{
  normalize_cdn_host, listed_if, with_wildcard, select_hosts, is_desired,
  desired_domains_for_origin,
}
use rendermesh.Hosts.Names.{normalize_host}
use rendermesh.Manifest.{CdnDomainConfig, HostConfig, RenderMeshManifest}

-- An entry that passes the test and has the name.
abbrev pub IsNamed :
    (Text × HostConfig → Bool) → (Text → Option Text) → Text → Text × HostConfig → Type 0
IsNamed test name p entry = (test entry ≡ true) × (name (entry.0) ≡ some p)

member-listed_if :
    (test : Bool) (name : Option Text) (p : Text) (rest : List Text)
    → (member p (listed_if test name rest) ≡ true)
      ↔ (((test ≡ true) × (name ≡ some p)) ⊎ (member p rest ≡ true))
unfolding member
member-listed_if true (some host) p rest = ground arith
member-listed_if true none p rest = ground arith
member-listed_if false name p rest = ground arith

member-select_hosts :
    (test : Text × HostConfig → Bool) (name : Text → Option Text) (p : Text)
    (hosts : TextMap HostConfig)
    → (member p (select_hosts test name hosts) ≡ true) ↔ Any (IsNamed test name p) hosts
unfolding select_hosts member
member-select_hosts test name p [] = ground arith
member-select_hosts test name p (entry ∷ hosts) =
    let (there, back) = member-select_hosts test name p hosts in
    let (out, in_) =
      member-listed_if (test entry) (name (entry.0)) p (select_hosts test name hosts) in
    (
      λ m. elim (out m) [ inl here ↦ inl here | inr later ↦ inr (there later) ],
      λ a. elim a [ inl here ↦ in_ (inl here) | inr later ↦ in_ (inr (back later)) ],
    )

-- The name of a host for its CDN: normalised, with a leading `*.` kept; the global `*` has none.
abbrev pub IsDomain : Text → Text → Type 0
IsDomain host p =
    ((suffix : Text) × (bare : Text) × (to_ascii_lowercase (trim host) ≡ text "*." ++ suffix)
      × (normalize_host suffix ≡ some bare)
      × (p ≡ text "*." ++ bare))
    ⊎ ((to_ascii_lowercase (trim host) ≢ text "*")
        × (starts_with (to_ascii_lowercase (trim host)) (text "*.") ≡ false)
        × (normalize_host (to_ascii_lowercase (trim host)) ≡ some p))

-- A host of the origin that is no wildcard, or wildcards are included, with the domain as its name.
abbrev pub IsDesired : Text → CdnDomainConfig → Text → Text × HostConfig → Type 0
IsDesired origin_id config p (host, host_config) =
    (host_config.origin ≡ origin_id)
    × ((config.include_wildcards ≡ true) ⊎ (starts_with (trim host) (text "*.") ≡ false))
    × IsDomain host p

with_wildcard_iff :
    (name : Option Text) (p : Text)
    → (with_wildcard name ≡ some p) ↔ ((bare : Text) × (name ≡ some bare) × (p ≡ text "*." ++ bare))
with_wildcard_iff none p = (λ h. cc, λ (bare, f, _). cc)
with_wildcard_iff (some bare) p = (λ h. (bare, refl, cc), λ (other, f, q). cc)

module _ (host : Text) where
  abbrev lowered : Text
  lowered = to_ascii_lowercase (trim host)

  name_of_star : lowered ≡ text "*" → normalize_cdn_host host ≡ none
  unfolding normalize_cdn_host
  name_of_star e = ground arith

  name_of_wildcard :
      (suffix : Text)
      → lowered ≡ text "*." ++ suffix
      → normalize_cdn_host host ≡ with_wildcard (normalize_host suffix)
  unfolding normalize_cdn_host
  name_of_wildcard suffix e =
      let found = strip_prefix_of_eq lowered (text "*.") suffix e in
      let other : (lowered === text "*") ≡ false = ground arith in rw (other, found) refl

  name_of_other :
      lowered ≢ text "*"
      → strip_prefix lowered (text "*.") ≡ none
      → normalize_cdn_host host ≡ normalize_host lowered
  unfolding normalize_cdn_host
  name_of_other ne e =
      let other : (lowered === text "*") ≡ false = ground arith in rw (other, e) refl

  normalize_cdn_host_iff : (p : Text) → (normalize_cdn_host host ≡ some p) ↔ IsDomain host p
  unfolding starts_with
  normalize_cdn_host_iff p = elim (Option-cases (strip_prefix lowered (text "*."))) [
    | inr (suffix, e) ↦
        let whole = strip_prefix-eq-some lowered (text "*.") suffix e in
        let name = name_of_wildcard suffix whole in
        let (there, back) = with_wildcard_iff (normalize_host suffix) p in
        (
          λ h. let (bare, f, q) = there (sym name ∙ h) in inl (suffix, bare, whole, f, q),
          λ d. elim d [
            | inl (other, bare, w, f, q) ↦
                name_of_wildcard other w
                ∙ (with_wildcard_iff (normalize_host other) p).1 (bare, f, q)
            | inr (_, n, _) ↦ absurd (ground arith)
          ],
        )
    | inl e ↦ (
      λ h. elim (text_dec lowered (text "*")) [
        | yes star ↦ let bad : none ≡ some p = sym (name_of_star star) ∙ h in cc
        | no ne ↦ inr (ne, ap is_some e, sym (name_of_other ne e) ∙ h)
      ],
      λ d. elim d [
        | inl (suffix, bare, w, _, _) ↦
            let bad : none ≡ some suffix =
              sym e ∙ strip_prefix_of_eq lowered (text "*.") suffix w in
            cc
        | inr (ne, _, n) ↦ name_of_other ne e ∙ n
      ],
    )
  ]

IsNamed-iff :
    (origin_id : Text) (config : CdnDomainConfig) (p : Text) (entry : Text × HostConfig)
    → IsNamed (is_desired origin_id config) normalize_cdn_host p entry
      ↔ IsDesired origin_id config p entry
IsNamed-iff origin_id config p (host, host_config) =
    let (there, back) = normalize_cdn_host_iff host p in
    (λ (t, n). (ground arith, ground arith, there n), λ (o, w, d). (ground arith, back d))

module _ {Value : Type 0} where
  -- A domain is desired of the CDN of an origin exactly when some host of the manifest has that
  -- origin, does not begin with `*.` or wildcards are included, and names the domain: either the host
  -- is `*.` and a suffix, and the domain is `*.` and the normal form of the suffix, or it is neither
  -- that nor `*`, and the domain is its normal form.
  pub desired_domains_for_origin_iff :
      (manifest : RenderMeshManifest Value) (origin_id : Text) (config : CdnDomainConfig) (p : Text)
      → (member p (desired_domains_for_origin manifest origin_id config) ≡ true)
        ↔ Any (IsDesired origin_id config p) manifest.hosts
  unfolding desired_domains_for_origin member
  desired_domains_for_origin_iff manifest origin_id config p =
      let listed = select_hosts (is_desired origin_id config) normalize_cdn_host manifest.hosts in
      let (there, back) =
        member-select_hosts (is_desired origin_id config) normalize_cdn_host p manifest.hosts in
      let same = member-collect_set p [] listed in
      (
        λ m.
            Any-map _ _ manifest.hosts (λ entry. (IsNamed-iff origin_id config p entry).0)
              (there (ground arith)),
        λ a.
            let m =
              back (
                Any-map _ _ manifest.hosts (λ entry. (IsNamed-iff origin_id config p entry).1) a) in
            ground arith,
      )
