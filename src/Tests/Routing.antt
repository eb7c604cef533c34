-- ===== src/Tests/Routing.antt =====
-- Manifests, hosts, policies and object paths at concrete inputs.
use rendermesh.Base.{
  ℕ, ◌≡◌, ◌↔◌, ◌⊎◌, ◌≤◌, inl, inr, refl, Bool, true, false, Option, none, some, List, [], ◌∷◌, ◌++◌,
  Text, text, TextMap, get, All, Any, byte_len, Result, ok, err, contains_key, trim,
  trim_start_matches, components, join, split, text_dec, is_empty, trim_start, trim_end,
  rsplit_once, strip_prefix, starts_with, ends_with, insert, Descends, interior,
}
use rendermesh.Manifest.{
  RenderMeshManifest, RuntimeConfig, HostConfig, OriginConfig, s3, local, S3OriginConfig,
  LocalOriginConfig,
}
use rendermesh.Manifest.Validation.{validate_manifest}
use rendermesh.Manifest.Validation.WellFormed.{IsWellFormed, validate_manifest_iff}
use rendermesh.Hosts.Names.{normalize_host}
use rendermesh.Hosts.Names.Laws.{normalize_host_idem}
use rendermesh.Hosts.Resolver.{
  HostResolver, ResolvedHost, WildcardHost, new, resolve, wildcard_matches,
}
use rendermesh.Hosts.Resolver.Choice.{In, ByExact, ByWildcard, ByFallback, resolve_cases}
use rendermesh.Hosts.Resolver.Specificity.{resolve_most_specific}
use rendermesh.Hosts.Declared.{resolve-declared}
use rendermesh.ObjectPaths.{
  normalize_object_path, normalize_remote_key, object_path, synced_object_path,
  is_reserved_metadata_key,
}
use rendermesh.ObjectPaths.Keys.{IsKey, BeginsElsewhere, normalize_object_path_iff}
use rendermesh.ObjectPaths.Containment.{object_path-Descends, synced_object_path-Descends}
use rendermesh.Cors.{Url, from_manifest, allowed_origin_for}
use rendermesh.Cors.Rules.{IsHostOf}
use rendermesh.Cors.Origins.{IsHttpsOrigin, allowed_origin_for_iff}

abbrev docs_origin : LocalOriginConfig ℕ
docs_origin = record {
  path = text "docs";
  sync_interval_seconds = none;
  activation_barrier_path = some (text "ready");
  cdn = none;
  edge_context = none;
}

abbrev site_origin : S3OriginConfig ℕ
site_origin = record {
  bucket = text "assets";
  endpoint_env = text "ENDPOINT";
  region_env = text "REGION";
  access_key_id_env = none;
  secret_access_key_env = none;
  force_path_style_env = none;
  sync_interval_seconds = some 30;
  activation_barrier_path = none;
  cdn = none;
  edge_context = none;
}

abbrev served_by : Text → HostConfig
served_by origin = record { origin = origin }

abbrev pub example_manifest : RenderMeshManifest ℕ
example_manifest = record {
  version = 1;
  runtime = record { local_store_dir = text "store"; sync_interval_seconds = 60 };
  origins = (text "docs", local docs_origin) ∷ (text "site", s3 site_origin) ∷ [];
  hosts =
      (text "*", served_by (text "site"))
      ∷ (text "*.docs.io", served_by (text "docs"))
      ∷ (text "*.io", served_by (text "site"))
      ∷ (text "site.io", served_by (text "site"))
      ∷ [];
}

abbrev docs_wildcard : WildcardHost
docs_wildcard = record {
  pattern = text "*.docs.io";
  suffix = text ".docs.io";
  origin_id = text "docs";
}

abbrev io_wildcard : WildcardHost
io_wildcard = record { pattern = text "*.io"; suffix = text ".io"; origin_id = text "site" }

abbrev example_resolver : HostResolver
example_resolver = record {
  exact = (text "site.io", text "site") ∷ [];
  wildcards = docs_wildcard ∷ io_wildcard ∷ [];
  fallback = some (text "site");
}

abbrev docs_host : ResolvedHost
docs_host = record {
  normalized_host = text "a.docs.io";
  matched_host = text "*.docs.io";
  origin_id = text "docs";
}

validate_manifest_iff_example :
    (validate_manifest example_manifest ≡ ok tt) ↔ IsWellFormed example_manifest
validate_manifest_iff_example = validate_manifest_iff example_manifest

resolve_most_specific_example :
    (w : WildcardHost) × (resolve example_resolver (text "A.docs.io:80")
      ≡ some (record {
        normalized_host = text "a.docs.io";
        matched_host = w.pattern;
        origin_id = w.origin_id;
      }))
    × In w example_resolver.wildcards
    × (wildcard_matches (text "a.docs.io") w ≡ true)
    × (byte_len (text ".io") ≤ byte_len w.suffix)
unfolding new rendermesh.Hosts.Resolver.add_hosts text_dec rendermesh.Base.to_ascii_lowercase trim
    strip_prefix normalize_host rsplit_once rendermesh.Hosts.Names.is_valid_host insert
    rendermesh.Hosts.Resolver.sort_wildcards get wildcard_matches
resolve_most_specific_example =
    resolve_most_specific example_manifest example_resolver (text "A.docs.io:80") (text "a.docs.io")
      io_wildcard refl refl refl (inr (inl refl)) refl

resolve-declared_example : contains_key (text "docs") example_manifest.origins ≡ true
unfolding resolve new rendermesh.Hosts.Resolver.add_hosts text_dec
    rendermesh.Base.to_ascii_lowercase trim strip_prefix normalize_host rsplit_once
    rendermesh.Hosts.Names.is_valid_host insert rendermesh.Hosts.Resolver.sort_wildcards get
    wildcard_matches validate_manifest rendermesh.Manifest.Validation.validate_origin
    rendermesh.Manifest.Validation.validate_host rendermesh.Manifest.Validation.is_blank
    rendermesh.Manifest.Validation.validate_cdn_config rendermesh.ObjectPaths.is_origin_id
    rendermesh.Base.is_ascii_alphanumeric contains_key normalize_remote_key starts_with
    rendermesh.Base.is_control rendermesh.Base.is_absolute components split
    rendermesh.ObjectPaths.climbs rendermesh.Base.is_ascii_digit
    rendermesh.Hosts.Resolver.find_wildcard rendermesh.Manifest.sync_interval_seconds
    rendermesh.Manifest.activation_barrier_path
resolve-declared_example =
    resolve-declared example_manifest example_resolver (text "A.docs.io:80") docs_host refl refl
      refl

resolve_cases_example :
    (normalize_host (text "A.docs.io:80") ≡ some (text "a.docs.io"))
    × (ByExact example_resolver docs_host
        ⊎ ByWildcard example_resolver docs_host
        ⊎ ByFallback example_resolver docs_host)
unfolding resolve normalize_host trim rsplit_once rendermesh.Base.is_ascii_digit
    rendermesh.Hosts.Names.is_valid_host rendermesh.Base.to_ascii_lowercase get text_dec
    rendermesh.Hosts.Resolver.find_wildcard
resolve_cases_example = resolve_cases example_resolver docs_host (text "A.docs.io:80") refl

normalize_host_idem_example : normalize_host (text "a.docs.io") ≡ some (text "a.docs.io")
unfolding normalize_host trim rsplit_once rendermesh.Base.is_ascii_digit
    rendermesh.Hosts.Names.is_valid_host rendermesh.Base.to_ascii_lowercase
normalize_host_idem_example = normalize_host_idem (text " A.docs.io:80") (text "a.docs.io") refl

object_path-Descends_example :
    (object_path (text "store") (text "docs") (text " //a/b.html")
      ≡ ok (text "store/docs/a/b.html"))
    × (components (text "store/docs/a/b.html")
        ≡ components (text "store/docs") ++ interior (split b'/' (text "a/b.html")))
    × All Descends (interior (split b'/' (text "a/b.html")))
unfolding rendermesh.ObjectPaths.is_origin_id rendermesh.Base.is_ascii_alphanumeric
    normalize_object_path trim_start_matches trim rendermesh.Base.is_control
    rendermesh.Base.is_absolute starts_with components split text_dec rendermesh.ObjectPaths.climbs
    is_reserved_metadata_key join ends_with
object_path-Descends_example =
    object_path-Descends (text "store") (text "docs") (text " //a/b.html") (text "a/b.html") refl
      refl

synced_object_path-Descends_example :
    (synced_object_path (text "store/docs") (text "a/b.html") ≡ ok (text "store/docs/a/b.html"))
    × (components (text "store/docs/a/b.html")
        ≡ components (text "store/docs") ++ interior (split b'/' (text "a/b.html")))
    × All Descends (interior (split b'/' (text "a/b.html")))
unfolding normalize_remote_key starts_with rendermesh.Base.is_control rendermesh.Base.is_absolute
    components split text_dec rendermesh.ObjectPaths.climbs join ends_with
synced_object_path-Descends_example =
    synced_object_path-Descends (text "store/docs") (text "a/b.html") (text "a/b.html") refl refl

normalize_object_path_iff_example :
    (normalize_object_path (text " //a/b.html") ≡ ok (text "a/b.html")) ↔ (
      (text "a/b.html" ≡ trim_start_matches b'/' (trim (text " //a/b.html")))
      × IsKey (text "a/b.html")
      × BeginsElsewhere (text "a/b.html"))
normalize_object_path_iff_example = normalize_object_path_iff (text " //a/b.html") (text "a/b.html")

-- A parser that knows one URL.
abbrev parse_example_url : Text → Option Url
parse_example_url request_origin = some (record {
  scheme = text "https";
  path = text "/";
  query = none;
  fragment = none;
  username = [];
  password = none;
  port = none;
  host_str = some (text "a.docs.io");
})

allowed_origin_for_iff_example :
    (allowed_origin_for parse_example_url
        (from_manifest example_manifest)
        (text "docs")
        (text "https://a.docs.io")
      ≡ some (text "https://a.docs.io"))
    ↔ ((host : Text) × IsHttpsOrigin parse_example_url (text "https://a.docs.io") host
        × Any (IsHostOf (text "docs") host) example_manifest.hosts
        × (text "https://a.docs.io" ≡ text "https://a.docs.io"))
allowed_origin_for_iff_example =
    allowed_origin_for_iff parse_example_url example_manifest (text "docs")
      (text "https://a.docs.io") (text "https://a.docs.io")
