-- ===== src/Lib.antt =====
-- RenderMesh: a gateway that serves static sites of several origins from a local mirror. A manifest
-- declares origins and maps hosts to them; each origin has an edge configuration with redirects,
-- rewrites and hooks; a request is resolved to an origin, passes the hooks, and is answered with a
-- redirect, an object of the mirror, a rendered template or what is configured for missing paths.
--
-- Parts and files, with paths from the repository's root:
-- - Base: texts as lists of code points, maps and sets in key order as association lists, results,
--   and the components of Unix paths as `std::path` documents them.
-- - Manifest, Manifest/Origins, Manifest/Cdn: the records of src/dto/manifest.rs.
--   Manifest/Validation: `validate_manifest` of src/services/manifest.rs, one error constructor for
--   each message.
-- - Hosts/Names: `normalize_host`; Hosts/Resolver: `HostResolver::new` and `resolve`, with the loops
--   as recursion and the stable sort of the wildcards as insertion (src/services/manifest.rs).
-- - ObjectPaths: keys and paths of src/repositories/local_mirror.rs, and `normalize_remote_key` and
--   `object_path` of src/repositories/sync.rs, here `synced_object_path`.
-- - Mirror: `read_object` and `read_metadata` of src/repositories/local_mirror.rs.
-- - Cors: src/services/cors.rs.
-- - Edge: the records of src/dto/edge.rs; Edge/Config: `validate_edge_config` of
--   src/services/edge_config.rs; Edge/Rules: src/services/static_rules.rs; Edge/Hooks:
--   src/services/edge_hooks.rs.
-- - Gateway: src/services/render_gateway.rs. Gateway/Headers has the requests and responses of
--   src/dto/render.rs and the header functions; Gateway/Stores the store of
--   src/services/edge_config_store.rs and `TemplateStore::render` of
--   src/services/template_store.rs; Gateway/Objects serves objects and missing paths; Gateway/Chain
--   runs the edge hooks; Gateway/Handler is `handle_inner`. The other modules of Gateway prove.
-- - Freshness: src/services/freshness.rs, the index of an origin's files and the difference of two.
-- - Templates: the compiling part of src/services/template_store.rs.
-- - Sync: src/repositories/sync.rs, as actions on a disk. Sync/Objects has what is done with one
--   object, Sync/Walks the loops over directories, Sync/Staging the staging of a mirror and
--   `sync_origin`, Sync/Swap the exchange of the staged mirror for the active one.
-- - Refresh: src/services/origin_refresh.rs. Refresh itself is `validate_activation_barrier`;
--   Refresh/EdgeConfigs loads the edge configuration (with `parse_edge_config` of
--   src/services/edge_config.rs), Refresh/Purge records the purge, Refresh/Snapshot is
--   `refresh_origin_snapshot` on the shared stores of Refresh/Stores, Refresh/Locks the locks and Refresh/Service
--   `refresh_origin`. The responses are those of src/dto/origin_sync.rs.
-- - Runtime: src/services/origin_runtime.rs, the store of what is known of each origin.
-- - Routes: src/routes/system/origins.rs, which starts a refresh for an operator; Routes/Render:
--   src/routes/render.rs.
-- - Startup: src/services/startup/initial_sync.rs with the reconciliation of
--   src/services/startup/cdn.rs, and the interval of src/services/startup/background.rs.
-- - Cdn: the requests and results of src/repositories/cdn.rs. Cdn/Hosts selects the hosts of an
--   origin (src/services/cdn_domains.rs, src/services/cdn_tenants.rs, src/services/startup/cdn.rs),
--   Cdn/Plan is src/services/cdn_refresh.rs, Cdn/Tenants with its modules is
--   src/repositories/cloudfront_saas_cdn.rs, and Cdn/Cloudflare src/repositories/cloudflare_cdn.rs.
-- - Tests: the theorems applied to concrete manifests, configurations, requests, disks and services.
-- A file below another one of these names holds theorems about it, where none is named above.
--
-- How the parts interact: a refresh stages a mirror with Sync, asks the barrier, loads the edge
-- configuration and compiles the templates from the staged mirror, activates it, puts everything into
-- the stores that the gateway reads, and purges the CDN; the routes and the timers call it.
--
-- How code becomes definitions: a failing function returns a `Result` with an error type of its
-- component; a `for` loop with early returns is recursion on the list, so no fuel is needed; mutated
-- state (the headers of the edge chain, a response's headers) is passed on and returned. A method that
-- changes shared state or calls a service is an `Action` of Base/Actions: it takes the state, or the
-- history of the calls, and gives it back with its result. A status is its number, and
-- `StatusCode::from_u16` accepts 100 to 999 as the `http` crate documents. Rust's byte lengths are
-- those of UTF-8.
--
-- Fuel: the walks over directories have fuel for the directories that they visit, which are finitely
-- many on a disk; `list_pages` of Cdn/Tenants/Purge has fuel for the pages, and its theorem says how
-- much is enough. Running out is an error of its own, never a success.
--
-- Parameters, for what is not in the repository: `url::Url::parse` (`parse_url`, `scheme_of`), the
-- file system as it is read (`Files`) and written (`FileSystem`), with the metadata encoder, the
-- parser and SHA-256, the template engine (`Engine`, `TemplateEngine`), the query parser and the
-- replies of edge hooks (`Platform`), the YAML and JSON parser of configurations (`parse_config`), the
-- UTF-8 decoder, the clock, the object store (`RemoteStorage`), CloudFront (`SaasClient`) and the HTTP
-- client for Cloudflare (`HttpClient`). JSON values are the type `Value`, the engine's compiled
-- templates the type `Registry`, instants the type `Time`.
--
-- Not modelled: the clients of object stores, of edge hooks, of AWS and of one CloudFront
-- distribution, which convert between records and an SDK; the parsing of manifests; the echo and
-- health routes; the part of startup that builds the services from the environment; and spans, logs
-- and timing. A request reads one state of the stores; replacing that state under a running request
-- is left out, as is the interleaving of refreshes of different origins.
pub mod Base
pub mod Manifest
pub mod Hosts
pub mod ObjectPaths
pub mod Edge
pub mod Cors
pub mod Gateway
pub mod Mirror
pub mod Freshness
pub mod Sync
pub mod Refresh
pub mod Routes
pub mod Startup
pub mod Runtime
pub mod Cdn
pub mod Templates
pub mod Tests
