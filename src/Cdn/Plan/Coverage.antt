-- ===== src/Cdn/Plan/Coverage.antt =====
-- What is purged is what changed, src/services/cdn_refresh.rs.
use rendermesh.Base.{
  All-map, trim_end_matches, text, starts_with, starts_with-char, ◌≡◌, refl, ap, ◌∙◌, Bool, true,
  false, ◌||◌, Option, none, some, List, [], ◌∷◌, ◌++◌, map, ◌↔◌, inl, inr, arith, Text, All,
  member, member-append, member-collect_set, is_empty, not, is_some, ◌&&◌, ◌===◌, NodupKeys, get,
  Bool-cases,
}
use rendermesh.Cdn.Plan.{
  refresh_all, refresh_paths, refresh_urls, CdnRefreshPlan, format_cdn_path, format_url,
  purged_paths, urls_of, plan_for, build_cdn_refresh_plan,
}
use rendermesh.Freshness.{
  OriginFreshnessDiff, OriginFreshnessIndex, OriginFileState, same_source_state,
  diff_origin_indexes,
}
use rendermesh.Freshness.Changes.{is_added, is_kept, files_of, diff_origin_indexes-IsClassified}
use rendermesh.Manifest.{CdnRefreshStrategy, changed_paths, all_paths}

-- The plan purges the path, under every prefix, of which there is one, where it purges by URL.
abbrev pub Covers : List Text → Text → Option CdnRefreshPlan → Type 0
Covers prefixes path none = ⊥
Covers prefixes path (some plan) = elim plan.mode [
  | refresh_all ↦ Unit
  | refresh_paths paths ↦ member (format_cdn_path path) paths ≡ true
  | refresh_urls urls ↦
      (is_empty prefixes ≡ false)
      × All (λ prefix. member (format_url prefix path) urls ≡ true) prefixes
]

member-map :
    (f : Text → Text) (p : Text) (xs : List Text)
    → member p xs ≡ true
    → member (f p) (map f xs) ≡ true
unfolding member
member-map f p [] h = ground arith
member-map f p (x ∷ xs) h = elim (Bool-cases (p === x)) [
  | inl e ↦ let here : p ≡ x = ground arith in let same : f p ≡ f x = ap f here in ground arith
  | inr e ↦ ground (arith, member-map f p xs)
]

is_empty_of_member : (p : Text) (xs : List Text) → member p xs ≡ true → is_empty xs ≡ false
unfolding member
is_empty_of_member p [] h = cc
is_empty_of_member p (x ∷ xs) h = refl

map-member :
    (f : Text → Text) (p : Text) (xs : List Text)
    → member p (map f xs) ≡ true
    → (x : Text) × (member x xs ≡ true) × (p ≡ f x)
unfolding member
map-member f p [] h = cc
map-member f p (x ∷ xs) h = elim (Bool-cases (p === f x)) [
  | inl e ↦ (x, ground arith, ground arith)
  | inr e ↦
      let later : member p (map f xs) ≡ true = ground arith in
      let (y, m, q) = map-member f p xs later in (y, ground arith, q)
]

-- The paths that changed, added ones first.
abbrev pub changes : OriginFreshnessDiff → List Text
changes diff = diff.added ++ diff.modified ++ diff.removed

purged_paths-changes :
    (diff : OriginFreshnessDiff) (p : Text)
    → member p (purged_paths diff) ≡ member p (map format_cdn_path (changes diff))
unfolding purged_paths member
purged_paths-changes diff p =
    member-collect_set p [] (map format_cdn_path (changes diff)) ∙ ground arith

member-changes :
    (diff : OriginFreshnessDiff) (p : Text)
    → member p (changes diff)
      ≡ (member p diff.added || member p diff.modified || member p diff.removed)
member-changes diff p = ground (
  arith,
  member-append p (diff.added ++ diff.modified) diff.removed,
  member-append p diff.added diff.modified,
)

module _ {Time : Type 0} where
  -- A file that came, went or has another state than before.
  unfoldable pub differs : Option (OriginFileState Time) → Option (OriginFileState Time) → Bool
  differs none none = false
  differs none (some next_file) = true
  differs (some previous_file) none = true
  differs (some previous_file) (some next_file) = not (same_source_state previous_file next_file)

  differs-eq :
      (o n : Option (OriginFileState Time))
      → (is_added o n || is_kept false o n || (is_some o && not (is_some n))) ≡ differs o n
  unfolding differs
  differs-eq none none = ground arith
  differs-eq none (some n) = ground arith
  differs-eq (some o) none = ground arith
  differs-eq (some o) (some n) = ground arith

  -- The path has another file, or none, in the next index.
  abbrev pub Differs :
      Option (OriginFreshnessIndex Time) → OriginFreshnessIndex Time → Text → Type 0
  Differs previous next path = differs (get path (files_of previous)) (get path next.files) ≡ true

  changes_iff :
      (previous : Option (OriginFreshnessIndex Time)) (next : OriginFreshnessIndex Time)
      (path : Text)
      → NodupKeys next.files
      → member path (changes (diff_origin_indexes previous next))
        ≡ differs (get path (files_of previous)) (get path next.files)
  changes_iff previous next path u =
      let diff = diff_origin_indexes previous next in
      let c = diff_origin_indexes-IsClassified previous next path u in
      let listed = member-changes diff path in
      let same = differs-eq (get path (files_of previous)) (get path next.files) in
      ground (arith, c.added, c.modified, c.removed)

  -- If no path stands twice in the next index, then the paths to purge are exactly the paths, with
  -- a leading slash, that the next index has and the previous one has not, that it no longer has,
  -- or that both have with different states.
  pub purged_paths_iff :
      (previous : Option (OriginFreshnessIndex Time)) (next : OriginFreshnessIndex Time) (p : Text)
      → NodupKeys next.files
      → (member p (purged_paths (diff_origin_indexes previous next)) ≡ true)
        ↔ ((path : Text) × Differs previous next path × (p ≡ format_cdn_path path))
  purged_paths_iff previous next p u =
      let diff = diff_origin_indexes previous next in
      let purged = purged_paths-changes diff p in
      (
        λ h.
            let (path, m, e) = map-member format_cdn_path p (changes diff) (ground arith) in
            (path, ground (arith, changes_iff previous next path u), e),
        λ (path, d, e).
            let m : member path (changes diff) ≡ true =
              ground (arith, changes_iff previous next path u) in
            let formatted = member-map format_cdn_path path (changes diff) m in
            let same = ap (λ q. member q (map format_cdn_path (changes diff))) e in ground arith,
      )

format_cdn_path-format_cdn_path :
    (path : Text) → format_cdn_path (format_cdn_path path) ≡ format_cdn_path path
unfolding format_cdn_path
format_cdn_path-format_cdn_path path = elim (Bool-cases (starts_with path (text "/"))) [
  | inl e ↦ rw (e, e) refl
  | inr e ↦ rw e (rw (starts_with-char b'/' b'/' path) (ground arith))
]

format_url-format_cdn_path :
    (prefix path : Text) → format_url prefix (format_cdn_path path) ≡ format_url prefix path
unfolding format_url
format_url-format_cdn_path prefix path =
    ap (λ p. trim_end_matches b'/' prefix ++ p) (format_cdn_path-format_cdn_path path)

All-urls_of :
    (paths : List Text) (path : Text) (prefixes : List Text)
    → member (format_cdn_path path) paths ≡ true
    → All (λ prefix. member (format_url prefix path) (urls_of prefixes paths) ≡ true) prefixes
unfolding urls_of
All-urls_of paths path [] h = tt
All-urls_of paths path (prefix ∷ prefixes) h =
    let here = map (format_url prefix) paths in
    let later = urls_of prefixes paths in
    let hit = member-map (format_url prefix) (format_cdn_path path) paths h in
    let same = ap (λ u. member u here) (format_url-format_cdn_path prefix path) in
    (
      ground (arith, member-append (format_url prefix path) here later),
      All-map (λ q. member (format_url q path) later ≡ true)
          (λ q. member (format_url q path) (here ++ later) ≡ true) prefixes
          (λ q m. ground (arith, member-append (format_url q path) here later))
          (All-urls_of paths path prefixes h),
    )

plan_for-Covers :
    (strategy : CdnRefreshStrategy) (diff : OriginFreshnessDiff) (prefixes paths : List Text)
    (path : Text)
    → member (format_cdn_path path) paths ≡ true
    → Covers prefixes path (some (plan_for strategy diff prefixes paths))
plan_for-Covers all_paths diff prefixes paths path h = tt
plan_for-Covers changed_paths diff [] paths path h = h
plan_for-Covers changed_paths diff (prefix ∷ prefixes) paths path h =
    (refl, All-urls_of paths path (prefix ∷ prefixes) h)

module _ {Time : Type 0} where
  -- If no path stands twice in the next index, and a path came, went or has another state than in
  -- the previous index, then there is a plan, and it purges everything, or that path with a leading
  -- slash, or its URL under every one of the prefixes, of which there is at least one.
  pub build_cdn_refresh_plan-Covers :
      (strategy : CdnRefreshStrategy) (previous : Option (OriginFreshnessIndex Time))
      (next : OriginFreshnessIndex Time) (prefixes : List Text) (path : Text)
      → NodupKeys next.files
      → Differs previous next path
      → Covers prefixes path
          (build_cdn_refresh_plan strategy (diff_origin_indexes previous next) prefixes)
  unfolding build_cdn_refresh_plan
  build_cdn_refresh_plan-Covers strategy previous next prefixes path u d =
      let paths = purged_paths (diff_origin_indexes previous next) in
      let listed : member (format_cdn_path path) paths ≡ true =
        (purged_paths_iff previous next (format_cdn_path path) u).1 (path, d, refl) in
      rw (is_empty_of_member (format_cdn_path path) paths listed)
        (plan_for-Covers strategy (diff_origin_indexes previous next) prefixes paths path listed)
