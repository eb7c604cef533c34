-- ===== src/Cors/Rules.antt =====
-- What the rule of a host of the manifest matches, src/services/cors.rs.
use rendermesh.Base.{
  ◌≡◌, ◌≢◌, ◌↔◌, ◌⊎◌, refl, sym, ap, subst, ◌∙◌, inl, inr, ◌+◌, true, false, Option, none, some, [],
  ◌∷◌, ◌++◌, arith, Text, text, ltb, ◌===◌, text_dec, byte_len, trim, to_ascii_lowercase,
  starts_with, ends_with_iff, strip_prefix, strip_prefix-eq-some, strip_prefix_of_eq, is_some,
  Option-cases,
}
use rendermesh.Cors.{
  CorsHostRule, exact, wildcard_suffix, suffix_rule, exact_rule, rule_of, rule_matches,
}
use rendermesh.Hosts.Names.{normalize_host}
use rendermesh.Manifest.{HostConfig}

-- A host that a name of the manifest stands for: the host itself, or one with something in front of
-- the suffix of a wildcard. The global `*` stands for none.
abbrev pub StandsFor : Text → Text → Type 0
StandsFor name host =
    ((suffix : Text) × (label : Text) × (to_ascii_lowercase (trim name) ≡ text "*." ++ suffix)
      × (normalize_host suffix ≡ some suffix)
      × (label ≢ [])
      × (host ≡ label ++ (text "." ++ suffix)))
    ⊎ ((to_ascii_lowercase (trim name) ≢ text "*")
        × (starts_with (to_ascii_lowercase (trim name)) (text "*.") ≡ false)
        × (normalize_host (to_ascii_lowercase (trim name)) ≡ some host))

-- A host entry of the origin that stands for the host.
abbrev pub IsHostOf : Text → Text → Text × HostConfig → Type 0
IsHostOf origin_id host (name, config) = (config.origin ≡ origin_id) × StandsFor name host

byte_len-append : (s t : Text) → byte_len (s ++ t) ≡ byte_len s + byte_len t
byte_len-append [] t = omega arith
byte_len-append (c ∷ s) t = let rest = byte_len-append s t in ground arith

-- A suffix is shorter exactly if something stands in front of it.
shorter_iff : (s t : Text) → (ltb (byte_len t) (byte_len (s ++ t)) ≡ true) ↔ (s ≢ [])
shorter_iff [] t = (λ h e. ground arith, λ ne. absurd (ne refl))
shorter_iff (c ∷ s) t = let whole = byte_len-append s t in (λ h e. cc, λ ne. ground arith)

suffix_matches_iff :
    (host suffix : Text)
    → (rule_matches host (wildcard_suffix suffix) ≡ true)
      ↔ ((label : Text) × (label ≢ []) × (host ≡ label ++ suffix))
unfolding rule_matches
suffix_matches_iff host suffix = (
  λ h.
      let (label, e) = (ends_with_iff host suffix).0 (ground arith) in
      let longer : ltb (byte_len suffix) (byte_len host) ≡ true = ground arith in
      (
        label,
        (shorter_iff label suffix).0
            (ap (λ t. ltb (byte_len suffix) (byte_len t)) (sym e) ∙ longer),
        e,
      ),
  λ (label, ne, e).
      let ends = (ends_with_iff host suffix).1 (label, e) in
      let longer =
        ap (λ t. ltb (byte_len suffix) (byte_len t)) e ∙ (shorter_iff label suffix).1 ne in
      ground arith,
)

abbrev Matching : Text → Option CorsHostRule → Type 0
Matching host rule = (r : CorsHostRule) × (rule ≡ some r) × (rule_matches host r ≡ true)

Matching-none : (host : Text) (rule : Option CorsHostRule) → rule ≡ none → ¬ Matching host rule
Matching-none host rule e (r, f, _) = let bad : none ≡ some r = sym e ∙ f in cc

-- An optional rule that is known matches where the rule does.
Matching-iff :
    (host : Text) (rule : Option CorsHostRule) (known : CorsHostRule)
    → rule ≡ some known
    → Matching host rule ↔ (rule_matches host known ≡ true)
Matching-iff host rule known e = (
  λ (r, f, m). let same : r ≡ known = cc in subst (λ x. rule_matches host x ≡ true) same m,
  λ m. (known, e, m),
)

suffix_rule-eq :
    (suffix : Text)
    → normalize_host suffix ≡ some suffix
    → suffix_rule suffix ≡ some (wildcard_suffix (text "." ++ suffix))
suffix_rule-eq suffix e =
    let same : (suffix === suffix) ≡ true = ground arith in rw (suffix_rule, e, same) refl

suffix_rule-none : (suffix : Text) → normalize_host suffix ≢ some suffix → suffix_rule suffix ≡ none
suffix_rule-none suffix ne = elim (Option-cases (normalize_host suffix)) [
  | inl e ↦ rw (suffix_rule, e) refl
  | inr (found, e) ↦ elim (text_dec found suffix) [
    | yes same ↦ absurd (ne (e ∙ ap some same))
    | no different ↦
        let miss : (found === suffix) ≡ false = ground arith in rw (suffix_rule, e, miss) refl
  ]
]

-- The text of an option is this one, or it is not.
some_dec : (o : Option Text) (t : Text) → (o ≡ some t) ⊎ (o ≢ some t)
some_dec none t = inr (λ e. cc)
some_dec (some s) t = elim (text_dec s t) [ yes e ↦ inl (ap some e) | no ne ↦ inr (λ e. ne cc) ]

suffix_rule-Matching :
    (suffix host : Text)
    → Matching host (suffix_rule suffix) ↔ (
        (normalize_host suffix ≡ some suffix)
        × ((label : Text) × (label ≢ []) × (host ≡ label ++ (text "." ++ suffix))))
suffix_rule-Matching suffix host = elim (some_dec (normalize_host suffix) suffix) [
  | inl e ↦
      let rule = wildcard_suffix (text "." ++ suffix) in
      let (there, back) = Matching-iff host (suffix_rule suffix) rule (suffix_rule-eq suffix e) in
      let (out, in_) = suffix_matches_iff host (text "." ++ suffix) in
      (λ m. (e, out (there m)), λ (_, found). back (in_ found))
  | inr ne ↦ (
    λ m. absurd (Matching-none host (suffix_rule suffix) (suffix_rule-none suffix ne) m),
    λ (e, _). absurd (ne e),
  )
]

exact_rule-eq :
    (name found : Text) → normalize_host name ≡ some found → exact_rule name ≡ some (exact found)
exact_rule-eq name found e = rw (exact_rule, e) refl

exact_rule-none : (name : Text) → normalize_host name ≡ none → exact_rule name ≡ none
exact_rule-none name e = rw (exact_rule, e) refl

exact_rule-Matching :
    (name host : Text) → Matching host (exact_rule name) ↔ (normalize_host name ≡ some host)
unfolding rule_matches
exact_rule-Matching name host = elim (Option-cases (normalize_host name)) [
  | inl e ↦ (
    λ m. absurd (Matching-none host (exact_rule name) (exact_rule-none name e) m),
    λ h. let bad : none ≡ some host = sym e ∙ h in cc,
  )
  | inr (found, e) ↦
      let (there, back) =
        Matching-iff host (exact_rule name) (exact found) (exact_rule-eq name found e) in
      (
        λ m. let hit = there m in let same : found ≡ host = ground arith in e ∙ ap some same,
        λ h. let same : found ≡ host = cc in back (ground arith),
      )
]

module _ (name : Text) where
  abbrev lowered : Text
  lowered = to_ascii_lowercase (trim name)

  rule_of_star : lowered ≡ text "*" → rule_of name ≡ none
  unfolding rule_of
  rule_of_star e = ground arith

  rule_of_wildcard :
      (suffix : Text) → lowered ≡ text "*." ++ suffix → rule_of name ≡ suffix_rule suffix
  unfolding rule_of
  rule_of_wildcard suffix e =
      let found = strip_prefix_of_eq lowered (text "*.") suffix e in
      let other : (lowered === text "*") ≡ false = ground arith in rw (other, found) refl

  rule_of_other :
      lowered ≢ text "*"
      → strip_prefix lowered (text "*.") ≡ none
      → rule_of name ≡ exact_rule lowered
  unfolding rule_of
  rule_of_other ne e =
      let other : (lowered === text "*") ≡ false = ground arith in rw (other, e) refl

  -- The rule of a name matches exactly the hosts that the name stands for.
  pub rule_of-Matching : (host : Text) → Matching host (rule_of name) ↔ StandsFor name host
  unfolding starts_with
  rule_of-Matching host = elim (Option-cases (strip_prefix lowered (text "*."))) [
    | inr (suffix, e) ↦
        let whole = strip_prefix-eq-some lowered (text "*.") suffix e in
        let rule = rule_of_wildcard suffix whole in
        let (out, in_) = suffix_rule-Matching suffix host in
        (
          λ m.
              let (n, (label, ne, h)) = out (subst (Matching host) rule m) in
              inl (suffix, label, whole, n, ne, h),
          λ s. elim s [
            | inl (other, label, w, n, ne, h) ↦
                subst (Matching host) (sym (rule_of_wildcard other w))
                  ((suffix_rule-Matching other host).1 (n, (label, ne, h)))
            | inr (_, n, _) ↦ absurd (ground arith)
          ],
        )
    | inl e ↦ (
      λ m. elim (text_dec lowered (text "*")) [
        | yes star ↦ absurd (Matching-none host (rule_of name) (rule_of_star star) m)
        | no ne ↦ inr (
          ne,
          ap is_some e,
          (exact_rule-Matching lowered host).0 (subst (Matching host) (rule_of_other ne e) m),
        )
      ],
      λ s. elim s [
        | inl (suffix, label, w, _, _, _) ↦
            let bad : none ≡ some suffix =
              sym e ∙ strip_prefix_of_eq lowered (text "*.") suffix w in
            cc
        | inr (ne, _, n) ↦
            subst (Matching host) (sym (rule_of_other ne e))
              ((exact_rule-Matching lowered host).1 n)
      ],
    )
  ]
