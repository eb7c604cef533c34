-- ===== src/Hosts/Resolver.antt =====
-- `HostResolver`, src/services/manifest.rs: exact hosts, wildcards by falling length, and the
-- global fallback.
pub mod Choice
pub mod Specificity
pub mod Origins
use rendermesh.Base.{
  ℕ, Bool, true, false, not, ◌&&◌, ◌||◌, Option, none, some, List, [], ◌∷◌, ◌++◌, Text, TextMap,
  get, insert, if◌then◌else◌,
}
use rendermesh.Base.{
  ltb, leb, ◌===◌, text, byte_len, trim, to_ascii_lowercase, strip_prefix, ends_with, Result, ok,
  err, ◌>>=◌,
}
use rendermesh.Manifest.{HostConfig, RenderMeshManifest}
use rendermesh.Hosts.Names.{normalize_host}

pub record ResolvedHost : Type 0 where
  pub normalized_host : Text
  pub matched_host : Text
  pub origin_id : Text

pub record WildcardHost : Type 0 where
  pub pattern : Text
  pub suffix : Text
  pub origin_id : Text

pub record HostResolver : Type 0 where
  pub exact : TextMap Text
  pub wildcards : List WildcardHost
  pub fallback : Option Text

-- The errors of `HostResolver::new`.
pub data HostError : Type 0 where
  duplicate_global_wildcard : HostError
  invalid_wildcard_host invalid_host : Text → HostError

-- `normalize_host(suffix).as_deref() == Some(suffix)`
abbrev pub is_normalized : Text → Bool
is_normalized suffix = elim (normalize_host suffix) [ some name ↦ name === suffix | none ↦ false ]

abbrev pub set_fallback : HostResolver → Text → Result HostError HostResolver
set_fallback r origin = elim r.fallback [
  | some _ ↦ err duplicate_global_wildcard
  | none ↦ ok (record r { fallback = some origin })
]

abbrev pub push_wildcard : HostResolver → Text → Text → Text → Text → Result HostError HostResolver
push_wildcard r host normalized suffix origin =
    if is_normalized suffix
    then ok (record r {
      wildcards =
          r.wildcards
          ++ record { pattern = normalized; suffix = text "." ++ suffix; origin_id = origin } ∷ [];
    })
    else err (invalid_wildcard_host host)

abbrev pub insert_exact : HostResolver → Text → Text → Text → Result HostError HostResolver
insert_exact r host normalized origin = elim (normalize_host normalized) [
  | some name ↦ ok (record r { exact = insert name origin r.exact })
  | none ↦ err (invalid_host host)
]

-- One round of the loop of `new`.
unfoldable pub add_host : HostResolver → Text → HostConfig → Result HostError HostResolver
add_host r host config =
    let normalized = to_ascii_lowercase (trim host) in
    if normalized === text "*"
    then set_fallback r config.origin
    else elim (strip_prefix normalized (text "*.")) [
      | some suffix ↦ push_wildcard r host normalized suffix config.origin
      | none ↦ insert_exact r host normalized config.origin
    ]

unfoldable pub add_hosts : HostResolver → TextMap HostConfig → Result HostError HostResolver
unfolding add_host
add_hosts r [] = ok r
add_hosts r ((host, config) ∷ hosts) = add_host r host config >>= λ r'. add_hosts r' hosts

-- `wildcards.sort_by(|left, right| right.suffix.len().cmp(&left.suffix.len()))`: a stable sort.
unfoldable pub insert_sorted : WildcardHost → List WildcardHost → List WildcardHost
insert_sorted w [] = w ∷ []
insert_sorted w (v ∷ vs) =
    let later = insert_sorted w vs in
    if leb (byte_len v.suffix) (byte_len w.suffix) then w ∷ v ∷ vs else v ∷ later

unfoldable pub sort_wildcards : List WildcardHost → List WildcardHost
unfolding insert_sorted
sort_wildcards [] = []
sort_wildcards (w ∷ ws) = insert_sorted w (sort_wildcards ws)

abbrev empty_resolver : HostResolver
empty_resolver = record { exact = []; wildcards = []; fallback = none }

module _ {Value : Type 0} where
  -- `HostResolver::new`
  unfoldable pub new : RenderMeshManifest Value → Result HostError HostResolver
  new manifest = add_hosts empty_resolver manifest.hosts >>= λ r.
      ok (record r { wildcards = sort_wildcards r.wildcards })

-- The test of the loop of `resolve`.
unfoldable pub wildcard_matches : Text → WildcardHost → Bool
wildcard_matches host w = ends_with host w.suffix && ltb (byte_len w.suffix) (byte_len host)

unfoldable pub find_wildcard : Text → List WildcardHost → Option WildcardHost
unfolding wildcard_matches
find_wildcard host [] = none
find_wildcard host (w ∷ ws) = if wildcard_matches host w then some w else find_wildcard host ws

abbrev pub resolve_inexact : HostResolver → Text → Option ResolvedHost
resolve_inexact r host = elim (find_wildcard host r.wildcards) [
  | some w ↦
      some (record { normalized_host = host; matched_host = w.pattern; origin_id = w.origin_id })
  | none ↦ elim r.fallback [
    | some origin ↦
        some (record { normalized_host = host; matched_host = text "*"; origin_id = origin })
    | none ↦ none
  ]
]

abbrev pub resolve_normalized : HostResolver → Text → Option ResolvedHost
resolve_normalized r host = elim (get host r.exact) [
  | some origin ↦ some (record { normalized_host = host; matched_host = host; origin_id = origin })
  | none ↦ resolve_inexact r host
]

unfoldable pub resolve : HostResolver → Text → Option ResolvedHost
resolve r host_header = elim (normalize_host host_header) [
  | none ↦ none
  | some host ↦ resolve_normalized r host
]
