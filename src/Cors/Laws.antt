-- ===== src/Cors/Laws.antt =====
-- The CORS policy answers by the rules of the hosts that the manifest maps to an origin,
-- src/services/cors.rs.
use mathlib.Core.List.{append_assoc, append-nil}
use rendermesh.Base.{
  ◌≡◌, ◌↔◌, ◌⊎◌, refl, sym, ap, subst, ◌∙◌, inl, inr, Bool, true, Option, none, some, List, [], ◌∷◌,
  ◌++◌, arith, Any, Text, TextMap, get, get-insert, if◌then◌else◌, ◌===◌, Option-cases, Bool-cases,
}
use rendermesh.Manifest.{HostConfig, RenderMeshManifest}
use rendermesh.Cors.{
  CorsHostRule, CorsPolicy, Url, rule_of, rules_for, push_rule, push_found, add_hosts,
  from_manifest, rule_matches, any_rule_matches, parse_https_origin_host, answered,
  allowed_origin_for,
}

-- The rules of the hosts that are mapped to an origin, in the order of the manifest.
abbrev rule_list : Option CorsHostRule → List CorsHostRule
rule_list none = []
rule_list (some rule) = rule ∷ []

abbrev rules_if : Bool → Option CorsHostRule → List CorsHostRule
rules_if here rule = if here then rule_list rule else []

listed_rules : Text → TextMap HostConfig → List CorsHostRule
listed_rules origin [] = []
listed_rules origin ((host, config) ∷ hosts) =
    rules_if (origin === config.origin) (rule_of host) ++ listed_rules origin hosts

rules_for-push_found :
    (policy : CorsPolicy) (o origin : Text) (rule : Option CorsHostRule)
    → rules_for (push_found policy origin rule) o
      ≡ rules_for policy o ++ rules_if (o === origin) rule
unfolding push_rule
rules_for-push_found policy o origin none = elim (Bool-cases (o === origin)) [
  | inl here ↦ rw here (sym (append-nil (rules_for policy o)))
  | inr other ↦ rw other (sym (append-nil (rules_for policy o)))
]
rules_for-push_found policy o origin (some rule) = elim (Bool-cases (o === origin)) [
  | inl here ↦
      let same : o ≡ origin = ground arith in
      rw (get-insert, here) (ap (λ k. rules_for policy k ++ rule ∷ []) (sym same))
  | inr other ↦ rw (get-insert, other) (sym (append-nil (rules_for policy o)))
]

rules_for-add_hosts :
    (policy : CorsPolicy) (o : Text) (hosts : TextMap HostConfig)
    → rules_for (add_hosts policy hosts) o ≡ rules_for policy o ++ listed_rules o hosts
unfolding add_hosts listed_rules
rules_for-add_hosts policy o [] = sym (append-nil _)
rules_for-add_hosts policy o ((host, config) ∷ hosts) =
    rules_for-add_hosts (push_found policy config.origin (rule_of host)) o hosts
    ∙ ap (λ rs. rs ++ listed_rules o hosts)
        (rules_for-push_found policy o config.origin (rule_of host))
    ∙ append_assoc (rules_for policy o) (rules_if (o === config.origin) (rule_of host))
        (listed_rules o hosts)

rules_for-from_manifest :
    {Value : Type 0} (m : RenderMeshManifest Value) (o : Text)
    → rules_for (from_manifest m) o ≡ listed_rules o m.hosts
unfolding from_manifest get
rules_for-from_manifest m o = rules_for-add_hosts (record { rules_by_origin = [] }) o m.hosts

-- A host entry that is mapped to the origin and whose rule matches.
abbrev pub Permits : Text → Text → Text × HostConfig → Type 0
Permits origin host entry =
    (entry.1.origin ≡ origin)
    × ((rule : CorsHostRule) × (rule_of (entry.0) ≡ some rule) × (rule_matches host rule ≡ true))

permits_here :
    (origin host name : Text) (config : HostConfig) (rest : List CorsHostRule)
    → (any_rule_matches host (rules_if (origin === config.origin) (rule_of name) ++ rest) ≡ true)
      ↔ (Permits origin host (name, config) ⊎ (any_rule_matches host rest ≡ true))
unfolding any_rule_matches
permits_here origin host name config rest = elim (Bool-cases (origin === config.origin)) [
  | inr other ↦
      rw other (λ h. inr h, λ h. elim h [ inl (same, _) ↦ absurd (ground arith) | inr r ↦ r ])
  | inl here ↦ elim (Option-cases (rule_of name)) [
    | inl e ↦
        rw (here, e)
          (λ h. inr h, λ h. elim h [ inl (_, (rule, e', _)) ↦ absurd (ground arith) | inr r ↦ r ])
    | inr (rule, e) ↦
        rw (here, e)
          (
            λ h. elim (Bool-cases (rule_matches host rule)) [
              | inl hit ↦ inl (ground arith, (rule, refl, hit))
              | inr miss ↦ inr (ground arith)
            ],
            λ h. elim h [ inl (_, (rule', e', hit)) ↦ ground arith | inr r ↦ ground arith ],
          )
  ]
]

permits_iff :
    (origin host : Text) (hosts : TextMap HostConfig)
    → (any_rule_matches host (listed_rules origin hosts) ≡ true) ↔ Any (Permits origin host) hosts
unfolding any_rule_matches listed_rules
permits_iff origin host [] = (λ h. cc, λ h. absurd h)
permits_iff origin host ((name, config) ∷ hosts) =
    let ih = permits_iff origin host hosts in
    let step = permits_here origin host name config (listed_rules origin hosts) in
    (
      λ h. elim (step.0 h) [ inl p ↦ inl p | inr r ↦ inr (ih.0 r) ],
      λ h. step.1 (elim h [ inl p ↦ inl p | inr r ↦ inr (ih.1 r) ]),
    )

answered-rules_for :
    (policy : CorsPolicy) (origin_id request_origin host : Text)
    → answered policy origin_id request_origin host
      ≡ (if any_rule_matches host (rules_for policy origin_id) then some request_origin else none)
unfolding any_rule_matches answered
answered-rules_for policy origin_id request_origin host =
    elim (Option-cases (get origin_id policy.rules_by_origin)) [
      | inl e ↦ rw (e, answered)
      | inr (rules, e) ↦ rw (e, answered)
    ]

decided :
    (hosts : TextMap HostConfig) (origin_id request_origin answer host : Text)
    → ((if any_rule_matches host (listed_rules origin_id hosts) then some request_origin else none)
        ≡ some answer)
      ↔ ((h : Text) × (some host ≡ some h)
          × Any (Permits origin_id h) hosts
          × (answer ≡ request_origin))
decided hosts origin_id request_origin answer host =
    let p = permits_iff origin_id host hosts in
    (
      λ h. (host, refl, p.0 (ground arith), ground arith),
      λ (h, e, found, same).
          let here : h ≡ host = ground arith in
          let hit = p.1 (subst (λ n. Any (Permits origin_id n) hosts) here found) in ground arith,
    )

module _ (parse_url : Text → Option Url) where
  pub allowed_origin_for_rules :
      {Value : Type 0} (m : RenderMeshManifest Value) (origin_id request_origin answer : Text)
      → (allowed_origin_for parse_url (from_manifest m) origin_id request_origin ≡ some answer) ↔ (
          (host : Text) × (parse_https_origin_host parse_url request_origin ≡ some host)
          × Any (Permits origin_id host) m.hosts
          × (answer ≡ request_origin))
  unfolding allowed_origin_for
  allowed_origin_for_rules m origin_id request_origin answer =
      let rules_eq = rules_for-from_manifest m origin_id in
      elim (Option-cases (parse_https_origin_host parse_url request_origin)) [
        | inl e ↦ rw (e, allowed_origin_for) (λ h. cc, λ (host, e', _, _). absurd (ground arith))
        | inr (host, e) ↦
            rw (e, allowed_origin_for)
              (rw (answered-rules_for (from_manifest m) origin_id request_origin host, rules_eq)
                (decided m.hosts origin_id request_origin answer host))
      ]
