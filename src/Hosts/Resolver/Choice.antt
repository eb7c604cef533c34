-- ===== src/Hosts/Resolver/Choice.antt =====
-- What `HostResolver::resolve` (src/services/manifest.rs) chooses, case by case.
use rendermesh.Base.{
  ◌≡◌, sym, ap, subst, ◌∙◌, ◌⊎◌, inl, inr, ◌≢◌, true, false, none, some, List, [], ◌∷◌, ◌++◌, arith,
  Any,
}
use rendermesh.Base.{Text, text, byte_len, ltb, ends_with_iff, get, Option-cases, Bool-cases}
use rendermesh.Hosts.Names.{normalize_host}
use rendermesh.Hosts.Resolver.{
  ResolvedHost, WildcardHost, HostResolver, wildcard_matches, find_wildcard, resolve,
  resolve_normalized, resolve_inexact,
}

abbrev pub In : WildcardHost → List WildcardHost → Type 0
In w ws = Any (λ v. v ≡ w) ws

-- The host is a proper subdomain: something non-empty before the suffix.
abbrev pub IsBelow : Text → Text → Type 0
IsBelow host suffix = (sub : Text) × (sub ≢ []) × (host ≡ sub ++ suffix)

pub wildcard_matches-IsBelow :
    (host : Text) (w : WildcardHost) → wildcard_matches host w ≡ true → IsBelow host w.suffix
unfolding wildcard_matches
wildcard_matches-IsBelow host w h =
    let (sub, e) = (ends_with_iff host w.suffix).0 (ground arith) in
    (
      sub,
      λ empty.
          let same : host ≡ w.suffix = e ∙ ap (λ t. t ++ w.suffix) empty in
          let shorter : ltb (byte_len w.suffix) (byte_len host) ≡ true = ground arith in
          let bad : ltb (byte_len w.suffix) (byte_len w.suffix) ≡ true =
            ap (λ t. ltb (byte_len w.suffix) (byte_len t)) (sym same) ∙ shorter in
          ground arith,
      e,
    )

pub find_wildcard-eq-some :
    (host : Text) (ws : List WildcardHost) (w : WildcardHost)
    → find_wildcard host ws ≡ some w
    → In w ws × (wildcard_matches host w ≡ true)
unfolding find_wildcard
find_wildcard-eq-some host [] w h = cc
find_wildcard-eq-some host (v ∷ ws) w h = elim (Bool-cases (wildcard_matches host v)) [
  | inl hit ↦
      let same : v ≡ w = ground arith in (inl same, ap (wildcard_matches host) (sym same) ∙ hit)
  | inr miss ↦ let (found, hit) = find_wildcard-eq-some host ws w (ground arith) in (inr found, hit)
]

pub find_wildcard-eq-none :
    (host : Text) (ws : List WildcardHost) (w : WildcardHost)
    → find_wildcard host ws ≡ none
    → In w ws
    → wildcard_matches host w ≡ false
unfolding find_wildcard
find_wildcard-eq-none host [] w h m = elim m [ ]
find_wildcard-eq-none host (v ∷ ws) w h (inl same) =
    ap (wildcard_matches host) (sym same) ∙ ground arith
find_wildcard-eq-none host (v ∷ ws) w h (inr m) = find_wildcard-eq-none host ws w (ground arith) m

module _ (r : HostResolver) (res : ResolvedHost) where
  open res use {normalized_host as host, matched_host as matched, origin_id as origin}

  abbrev pub ByExact : Type 0
  ByExact = (get host r.exact ≡ some origin) × (matched ≡ host)

  abbrev pub ByWildcard : Type 0
  ByWildcard =
      (get host r.exact ≡ none)
      × ((w : WildcardHost) × In w r.wildcards
          × IsBelow host w.suffix
          × (matched ≡ w.pattern)
          × (origin ≡ w.origin_id))

  abbrev pub ByFallback : Type 0
  ByFallback =
      (get host r.exact ≡ none)
      × (find_wildcard host r.wildcards ≡ none)
      × (r.fallback ≡ some origin)
      × (matched ≡ text "*")

  resolve_inexact_cases :
      (name : Text)
      → get name r.exact ≡ none
      → resolve_inexact r name ≡ some res
      → (name ≡ host) × (ByWildcard ⊎ ByFallback)
  resolve_inexact_cases name absent h = elim (Option-cases (find_wildcard name r.wildcards)) [
    | inr (w, e) ↦
        let (listed, hit) = find_wildcard-eq-some name r.wildcards w e in
        let here : name ≡ host = ground arith in
        (
          here,
          inl (
            ap (λ n. get n r.exact) (sym here) ∙ absent,
            (
              w,
              listed,
              subst (λ n. IsBelow n w.suffix) here (wildcard_matches-IsBelow name w hit),
              ground arith,
              ground arith,
            ),
          ),
        )
    | inl e ↦
        let here : name ≡ host = ground arith in
        (
          here,
          inr (
            ap (λ n. get n r.exact) (sym here) ∙ absent,
            ap (λ n. find_wildcard n r.wildcards) (sym here) ∙ e,
            ground arith,
            ground arith,
          ),
        )
  ]

  resolve_normalized_cases :
      (name : Text)
      → resolve_normalized r name ≡ some res
      → (name ≡ host) × (ByExact ⊎ ByWildcard ⊎ ByFallback)
  resolve_normalized_cases name h = elim (Option-cases (get name r.exact)) [
    | inr (origin', e) ↦
        let here : name ≡ host = ground arith in
        (here, inl (ap (λ n. get n r.exact) (sym here) ∙ e ∙ ground arith, ground arith))
    | inl e ↦ let (here, rest) = resolve_inexact_cases name e (ground arith) in (here, inr rest)
  ]

  -- A resolved host is the normal form of the header. It was found among the exact hosts; or, if it
  -- is not one of them, by a listed wildcard of which it is a proper subdomain; or, if no wildcard
  -- matches either, by the fallback, whose matched host is "*".
  pub resolve_cases :
      (header : Text)
      → resolve r header ≡ some res
      → (normalize_host header ≡ some host) × (ByExact ⊎ ByWildcard ⊎ ByFallback)
  unfolding resolve
  resolve_cases header h = elim (Option-cases (normalize_host header)) [
    | inl e ↦ let bad : none ≡ some res = ground arith in cc
    | inr (name, e) ↦
        let (here, rest) = resolve_normalized_cases name (ground arith) in (e ∙ ap some here, rest)
  ]
