-- ===== src/Tests/Cdns.antt =====
-- Hosts and purges of a CDN, and templates, at concrete manifests and indexes.
use rendermesh.Base.{
  ◌≡◌, ◌↔◌, refl, sym, ap, arith, ℕ, Bool, true, false, Option, none, some, List, [], ◌∷◌, ◌++◌,
  Text, text, TextMap, Any, member, get, if◌then◌else◌, ◌===◌, unwrap_or, ok, err,
}
use rendermesh.Cdn.Hosts.{desired_domains_for_origin}
use rendermesh.Cdn.Hosts.Membership.{IsDesired, desired_domains_for_origin_iff}
use rendermesh.Cdn.Plan.{format_cdn_path, purged_paths, build_cdn_refresh_plan}
use rendermesh.Cdn.Plan.Coverage.{Covers, Differs, purged_paths_iff, build_cdn_refresh_plan-Covers}
use rendermesh.Freshness.{diff_origin_indexes}
use rendermesh.Manifest.{CdnDomainConfig, dns_records, changed_paths}
use rendermesh.Mirror.{Files, absent, content, no_metadata, read_object}
use rendermesh.Templates.{TemplateEngine, compile_template_update_from_mirror}
use rendermesh.Templates.Tracking.{IsRegistry, template_at, compile_template_update-template}
use rendermesh.Tests.Indexes.{indexed}
use rendermesh.Tests.Routing.{example_manifest}

abbrev domain_config : CdnDomainConfig
domain_config = record {
  enabled = true;
  mode = dns_records;
  origin_domain_env = text "DOMAIN";
  certificate_arn_env = none;
  proxied = true;
  include_wildcards = true;
  remove_extra_domains = false;
}

desired_domains_for_origin_iff_example :
    (member (text "*.io") (desired_domains_for_origin example_manifest (text "site") domain_config)
      ≡ true)
    ↔ Any (IsDesired (text "site") domain_config (text "*.io")) example_manifest.hosts
desired_domains_for_origin_iff_example =
    desired_domains_for_origin_iff example_manifest (text "site") domain_config (text "*.io")

purged_paths_iff_example :
    (member
        (text "/b")
        (purged_paths (diff_origin_indexes (some (indexed 5 (text "1"))) (indexed 9 (text "2"))))
      ≡ true)
    ↔ ((path : Text) × Differs (some (indexed 5 (text "1"))) (indexed 9 (text "2")) path
        × (text "/b" ≡ format_cdn_path path))
unfolding get rendermesh.Base.text_dec
purged_paths_iff_example =
    purged_paths_iff (some (indexed 5 (text "1"))) (indexed 9 (text "2")) (text "/b")
      (refl, (refl, tt))

build_cdn_refresh_plan-Covers_example : Covers (text "https://site.io" ∷ []) (text "b") (
    build_cdn_refresh_plan changed_paths
      (diff_origin_indexes (some (indexed 5 (text "1"))) (indexed 9 (text "2")))
      (text "https://site.io" ∷ []))
unfolding get rendermesh.Base.text_dec rendermesh.Cdn.Plan.Coverage.differs
    rendermesh.Freshness.same_source_state rendermesh.Freshness.Changes.files_of
build_cdn_refresh_plan-Covers_example =
    build_cdn_refresh_plan-Covers changed_paths (some (indexed 5 (text "1"))) (indexed 9 (text "2"))
      (text "https://site.io" ∷ []) (text "b") (refl, (refl, tt)) refl

-- Registries as functions from names to texts, with an engine that compiles everything.
abbrev pub Registry : Type 0
Registry = Text → Option Text

abbrev pub sample_engine : TemplateEngine Registry
sample_engine = record {
  new_registry = λ k. none;
  unregister_template = λ registry j k. if k === j then none else registry k;
  register_template_string =
      λ registry j body. some (λ k. if k === j then some body else registry k);
}

sample_engine-IsRegistry : IsRegistry sample_engine (λ registry k. registry k)
sample_engine-IsRegistry = record {
  template_new = λ k. refl;
  template_unregister = λ registry j k. refl;
  template_register = λ registry next j k body e. ap (λ o. unwrap_or o registry k) (sym e);
}

abbrev pub sample_files : Files
sample_files = record {
  is_dir = λ path. false;
  read = λ path. content (text "new");
  read_to_string = λ path. absent;
  parse_metadata = λ source. none;
  sha256 = λ key. 171 ∷ [];
}

abbrev old_registry : Registry
old_registry k = if k === text "a.html" then some (text "old") else none

abbrev new_registry : Registry
new_registry k = if k === text "a.html" then some (text "new") else old_registry k

compile_template_update-template_example :
    new_registry (text "a.html")
    ≡ template_at
        (λ bytes. some bytes)
        (text "a.html")
        (read_object sample_files (text "/sync") (text "docs-1") (text "a.html"))
unfolding compile_template_update_from_mirror get member rendermesh.Base.text_dec read_object
    rendermesh.Templates.compile_object rendermesh.Edge.Hooks.is_html
    rendermesh.ObjectPaths.origin_dir rendermesh.ObjectPaths.object_path
    rendermesh.ObjectPaths.normalize_object_path rendermesh.ObjectPaths.is_origin_id
    rendermesh.Base.is_ascii_alphanumeric rendermesh.Base.trim_start_matches rendermesh.Base.trim
    rendermesh.Base.is_control rendermesh.Base.is_absolute rendermesh.Base.starts_with
    rendermesh.Base.components rendermesh.Base.split rendermesh.ObjectPaths.climbs
    rendermesh.ObjectPaths.is_reserved_metadata_key rendermesh.Base.path_starts_with
    rendermesh.Base.join rendermesh.Base.ends_with rendermesh.Mirror.read_metadata
    rendermesh.ObjectPaths.metadata_sidecar_path rendermesh.Base.to_ascii_lowercase
compile_template_update-template_example =
    compile_template_update-template sample_engine (λ registry k. registry k)
      sample_engine-IsRegistry (λ bytes. some bytes) ((text "docs", old_registry) ∷ [])
      (text "docs") (text "docs-1") sample_files (text "/sync")
      (record { added = []; modified = text "a.html" ∷ []; removed = []; unchanged = [] })
      new_registry (text "a.html") refl (λ a m r. cc) (λ a m r. cc)
