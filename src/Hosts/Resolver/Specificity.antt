-- ===== src/Hosts/Resolver/Specificity.antt =====
-- `HostResolver::new` sorts the wildcards, so `resolve` takes the most specific one
-- (src/services/manifest.rs).
use native.Mathlib.Nat.{le_refl}
use rendermesh.Base.{
  ◌≤◌, ◌≡◌, refl, ap, subst, ◌∙◌, inl, inr, true, none, some, List, [], ◌∷◌, arith, All,
}
use rendermesh.Base.{Text, byte_len, get, Bool-cases, ok, >>=-eq-ok}
use rendermesh.Manifest.{RenderMeshManifest}
use rendermesh.Hosts.Names.{normalize_host}
use rendermesh.Hosts.Resolver.{
  WildcardHost, HostResolver, wildcard_matches, find_wildcard, resolve, insert_sorted,
  sort_wildcards, new, add_hosts, empty_resolver,
}
use rendermesh.Hosts.Resolver.Choice.{In}

-- The suffix of each wildcard is no shorter than those behind it.
abbrev NoLonger : WildcardHost → WildcardHost → Type 0
NoLonger w v = byte_len v.suffix ≤ byte_len w.suffix

abbrev IsSorted : List WildcardHost → Type 0
IsSorted [] = Unit
IsSorted (w ∷ ws) = All (NoLonger w) ws × IsSorted ws

All-insert_sorted :
    (u w : WildcardHost) (ws : List WildcardHost)
    → NoLonger u w
    → All (NoLonger u) ws
    → All (NoLonger u) (insert_sorted w ws)
unfolding insert_sorted
All-insert_sorted u w [] h k = (h, tt)
All-insert_sorted u w (v ∷ ws) h k = ground (arith, All-insert_sorted u w ws h)

All-trans :
    (w v : WildcardHost) (ws : List WildcardHost)
    → NoLonger w v
    → All (NoLonger v) ws
    → All (NoLonger w) ws
All-trans w v [] h k = tt
All-trans w v (u ∷ ws) h (p, k) = (omega arith, All-trans w v ws h k)

insert_sorted-IsSorted :
    (w : WildcardHost) (ws : List WildcardHost) → IsSorted ws → IsSorted (insert_sorted w ws)
unfolding insert_sorted
insert_sorted-IsSorted w [] h = (tt, tt)
insert_sorted-IsSorted w (v ∷ ws) h =
    ground (arith, insert_sorted-IsSorted w ws, All-insert_sorted v w ws, All-trans w v ws)

sort_wildcards-IsSorted : (ws : List WildcardHost) → IsSorted (sort_wildcards ws)
unfolding sort_wildcards
sort_wildcards-IsSorted [] = tt
sort_wildcards-IsSorted (w ∷ ws) = insert_sorted-IsSorted w _ (sort_wildcards-IsSorted ws)

new-IsSorted :
    {Value : Type 0} (m : RenderMeshManifest Value) (r : HostResolver)
    → new m ≡ ok r
    → IsSorted r.wildcards
unfolding new
new-IsSorted m r h =
    let (r', _, e) = >>=-eq-ok (add_hosts empty_resolver m.hosts) _ h in
    let same : sort_wildcards r'.wildcards ≡ r.wildcards = ground arith in
    subst IsSorted same (sort_wildcards-IsSorted r'.wildcards)

All-of_In :
    (w v : WildcardHost) (ws : List WildcardHost) → All (NoLonger w) ws → In v ws → NoLonger w v
All-of_In w v [] h m = elim m [ ]
All-of_In w v (u ∷ ws) (p, h) (inl e) = rw (← e) p
All-of_In w v (u ∷ ws) (p, h) (inr m) = All-of_In w v ws h m

find_wildcard_longest :
    (host : Text) (ws : List WildcardHost) (v : WildcardHost)
    → IsSorted ws
    → In v ws
    → wildcard_matches host v ≡ true
    → (w : WildcardHost) × (find_wildcard host ws ≡ some w)
      × In w ws
      × (wildcard_matches host w ≡ true)
      × (byte_len v.suffix ≤ byte_len w.suffix)
unfolding find_wildcard
find_wildcard_longest host [] v s m hit = elim m [ ]
find_wildcard_longest host (u ∷ ws) v (first, s) (inl e) hit =
    let here : wildcard_matches host u ≡ true = ap (wildcard_matches host) e ∙ hit in
    (u, ground arith, inl refl, here, rw (← e) (le_refl (byte_len u.suffix)))
find_wildcard_longest host (u ∷ ws) v (first, s) (inr m) hit =
    elim (Bool-cases (wildcard_matches host u)) [
      | inl here ↦ (u, ground arith, inl refl, here, All-of_In u v ws first m)
      | inr miss ↦
          let (w, found, inside, matching, longer) = find_wildcard_longest host ws v s m hit in
          (w, ground arith, inr inside, matching, longer)
    ]

-- If the resolver built from a manifest has no exact entry for a host, and lists a wildcard that
-- matches it, then the host resolves by a wildcard that is listed, that matches the host too, and
-- whose suffix is at least as long.
pub resolve_most_specific :
    {Value : Type 0} (m : RenderMeshManifest Value) (r : HostResolver) (header host : Text)
    (v : WildcardHost)
    → new m ≡ ok r
    → normalize_host header ≡ some host
    → get host r.exact ≡ none
    → In v r.wildcards
    → wildcard_matches host v ≡ true
    → (w : WildcardHost) × (resolve r header
        ≡ some
            (record { normalized_host = host; matched_host = w.pattern; origin_id = w.origin_id }))
      × In w r.wildcards
      × (wildcard_matches host w ≡ true)
      × (byte_len v.suffix ≤ byte_len w.suffix)
unfolding resolve
resolve_most_specific m r header host v built named absent listed hit =
    let (w, found, inside, matching, longer) =
      find_wildcard_longest host r.wildcards v (new-IsSorted m r built) listed hit in
    (w, ground arith, inside, matching, longer)
