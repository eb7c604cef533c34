-- ===== src/Hosts/Resolver/Origins.antt =====
-- The origins that `HostResolver` (src/services/manifest.rs) can answer with are those of the
-- manifest's host entries.
use rendermesh.Base.{
  ◌≡◌, sym, subst, inl, inr, Option, none, some, List, [], ◌∷◌, ◌++◌, arith, All, All-append,
}
use rendermesh.Base.{
  Text, text, TextMap, get, insert, All-insert, Option-cases, Bool-cases, ok, >>=-eq-ok, ◌===◌,
  trim, to_ascii_lowercase, strip_prefix,
}
use rendermesh.Manifest.{RenderMeshManifest, HostConfig}
use rendermesh.Hosts.Names.{normalize_host}
use rendermesh.Hosts.Resolver.{
  ResolvedHost, WildcardHost, HostResolver, resolve, insert_sorted, sort_wildcards, new, add_host,
  add_hosts, set_fallback, push_wildcard, insert_exact, empty_resolver,
}
use rendermesh.Hosts.Resolver.Choice.{In, resolve_cases}

module _ (P : Text → Type 0) where
  -- The fallback, where there is one, satisfies `P`.
  abbrev OnFallback : Option Text → Type 0
  OnFallback none = Unit
  OnFallback (some origin) = P origin

  abbrev OnExact : Text × Text → Type 0
  OnExact entry = P (entry.1)

  abbrev OnWildcard : WildcardHost → Type 0
  OnWildcard w = P w.origin_id

  abbrev OnHost : Text × HostConfig → Type 0
  OnHost entry = P (entry.1.origin)

  record Origins (r : HostResolver) : Type 0 where
    exact : All OnExact r.exact
    wildcards : All OnWildcard r.wildcards
    fallback : OnFallback r.fallback

  set_fallback-Origins :
      (r r' : HostResolver) (origin : Text)
      → Origins r
      → P origin
      → set_fallback r origin ≡ ok r'
      → Origins r'
  set_fallback-Origins r r' origin o p h = elim (Option-cases r.fallback) [
    | inr (_, e) ↦ absurd (ground arith)
    | inl e ↦
        let same : record r { fallback = some origin } ≡ r' = ground arith in
        subst Origins same (record { exact = o.exact; wildcards = o.wildcards; fallback = p })
  ]

  push_wildcard-Origins :
      (r r' : HostResolver) (host normalized suffix origin : Text)
      → Origins r
      → P origin
      → push_wildcard r host normalized suffix origin ≡ ok r'
      → Origins r'
  push_wildcard-Origins r r' host normalized suffix origin o p h =
      let ws : List WildcardHost =
        r.wildcards
        ++ record { pattern = normalized; suffix = text "." ++ suffix; origin_id = origin } ∷ [] in
      let same : record r { wildcards = ws } ≡ r' = ground arith in
      subst Origins same (record {
        exact = o.exact;
        wildcards = All-append OnWildcard r.wildcards _ o.wildcards (p, tt);
        fallback = o.fallback;
      })

  insert_exact-Origins :
      (r r' : HostResolver) (host normalized origin : Text)
      → Origins r
      → P origin
      → insert_exact r host normalized origin ≡ ok r'
      → Origins r'
  insert_exact-Origins r r' host normalized origin o p h =
      elim (Option-cases (normalize_host normalized)) [
        | inl e ↦ absurd (ground arith)
        | inr (name, e) ↦
            let same : record r { exact = insert name origin r.exact } ≡ r' = ground arith in
            subst Origins same (record {
              exact = All-insert OnExact name origin r.exact p o.exact;
              wildcards = o.wildcards;
              fallback = o.fallback;
            })
      ]

  add_host-Origins :
      (r r' : HostResolver) (host : Text) (config : HostConfig)
      → Origins r
      → P config.origin
      → add_host r host config ≡ ok r'
      → Origins r'
  unfolding add_host
  add_host-Origins r r' host config o p h =
      let n = to_ascii_lowercase (trim host) in
      elim (Bool-cases (n === text "*")) [
        | inl global ↦ set_fallback-Origins r r' config.origin o p (ground arith)
        | inr other ↦ elim (Option-cases (strip_prefix n (text "*."))) [
          | inr (suffix, e) ↦
              push_wildcard-Origins r r' host n suffix config.origin o p (ground arith)
          | inl e ↦ insert_exact-Origins r r' host n config.origin o p (ground arith)
        ]
      ]

  add_hosts-Origins :
      (r r' : HostResolver) (hosts : TextMap HostConfig)
      → Origins r
      → All OnHost hosts
      → add_hosts r hosts ≡ ok r'
      → Origins r'
  unfolding add_hosts
  add_hosts-Origins r r' [] o h e = subst Origins (ground arith) o
  add_hosts-Origins r r' ((host, config) ∷ hosts) o (p, h) e =
      let (q, one, rest) = >>=-eq-ok (add_host r host config) (λ q. add_hosts q hosts) e in
      add_hosts-Origins q r' hosts (add_host-Origins r q host config o p one) h rest

  All-insert_sorted :
      (w : WildcardHost) (ws : List WildcardHost)
      → P w.origin_id
      → All OnWildcard ws
      → All OnWildcard (insert_sorted w ws)
  unfolding insert_sorted
  All-insert_sorted w [] p h = (p, tt)
  All-insert_sorted w (v ∷ ws) p (q, h) = ground (arith, All-insert_sorted w ws p h)

  All-sort_wildcards :
      (ws : List WildcardHost) → All OnWildcard ws → All OnWildcard (sort_wildcards ws)
  unfolding sort_wildcards
  All-sort_wildcards [] h = tt
  All-sort_wildcards (w ∷ ws) (p, h) = All-insert_sorted w _ p (All-sort_wildcards ws h)

  new-Origins :
      {Value : Type 0} (m : RenderMeshManifest Value) (r : HostResolver)
      → All OnHost m.hosts
      → new m ≡ ok r
      → Origins r
  unfolding new
  new-Origins m r h e =
      let (q, added, rest) = >>=-eq-ok (add_hosts empty_resolver m.hosts) _ e in
      let same : record q { wildcards = sort_wildcards q.wildcards } ≡ r = ground arith in
      let none_yet : Origins empty_resolver = record {
        exact = tt;
        wildcards = tt;
        fallback = tt;
      } in
      let o = add_hosts-Origins empty_resolver q m.hosts none_yet h added in
      subst Origins same (record {
        exact = o.exact;
        wildcards = All-sort_wildcards q.wildcards o.wildcards;
        fallback = o.fallback;
      })

  get-exact : (k v : Text) (m : TextMap Text) → All OnExact m → get k m ≡ some v → P v
  unfolding get
  get-exact k v [] h e = absurd (ground arith)
  get-exact k v ((j, w) ∷ m) (p, h) e = elim (Bool-cases (k === j)) [
    | inl hit ↦ let same : w ≡ v = ground arith in subst P same p
    | inr miss ↦ get-exact k v m h (ground arith)
  ]

  In-wildcards :
      (w : WildcardHost) (ws : List WildcardHost) → All OnWildcard ws → In w ws → P w.origin_id
  In-wildcards w [] h m = elim m [ ]
  In-wildcards w (v ∷ ws) (p, h) (inl e) = subst OnWildcard e p
  In-wildcards w (v ∷ ws) (p, h) (inr m) = In-wildcards w ws h m

  -- Whatever holds of the origin of every host entry of the manifest holds of the origin that a
  -- request's host is resolved to.
  pub resolve-origin :
      {Value : Type 0} (m : RenderMeshManifest Value) (r : HostResolver) (header : Text)
      (res : ResolvedHost)
      → All OnHost m.hosts
      → new m ≡ ok r
      → resolve r header ≡ some res
      → P res.origin_id
  resolve-origin m r header res h built e =
      let o = new-Origins m r h built in
      elim ((resolve_cases r res header e).1) [
        | inl (found, _) ↦ get-exact _ _ r.exact o.exact found
        | inr (inl (_, (w, listed, _, _, same))) ↦
            subst P (sym same) (In-wildcards w r.wildcards o.wildcards listed)
        | inr (inr (_, _, found, _)) ↦ subst OnFallback found o.fallback
      ]
