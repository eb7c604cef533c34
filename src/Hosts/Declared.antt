-- ===== src/Hosts/Declared.antt =====
-- Validation and resolution together (src/services/manifest.rs): what a request is routed to.
use rendermesh.Base.{◌≡◌, some, true, All-map, Text, contains_key, ok}
use rendermesh.Manifest.{RenderMeshManifest}
use rendermesh.Manifest.Validation.{validate_manifest}
use rendermesh.Manifest.Validation.WellFormed.{validate_manifest_iff, GoodHost}
use rendermesh.Hosts.Resolver.{HostResolver, ResolvedHost, new, resolve}
use rendermesh.Hosts.Resolver.Origins.{resolve-origin}

-- With a manifest that passes validation, every host that resolves is served by an origin that the
-- manifest declares.
pub resolve-declared :
    {Value : Type 0} (m : RenderMeshManifest Value) (r : HostResolver) (header : Text)
    (res : ResolvedHost)
    → validate_manifest m ≡ ok tt
    → new m ≡ ok r
    → resolve r header ≡ some res
    → contains_key res.origin_id m.origins ≡ true
resolve-declared m r header res valid built found =
    let w = (validate_manifest_iff m).0 valid in
    resolve-origin (λ origin. contains_key origin m.origins ≡ true) m r header res
      (All-map (GoodHost m.origins) _ m.hosts (λ entry h. h.1) w.hosts) built found
