-- ===== src/Startup.antt =====
-- What happens to the origins at startup: src/services/startup/initial_sync.rs, with the reconciliation
-- of src/services/startup/cdn.rs, src/services/cdn_domains.rs and src/services/cdn_tenants.rs. A CDN
-- repository is the function of its trait; its errors are messages.
use rendermesh.Base.{
  ℕ, Option, none, some, List, [], ◌∷◌, Text, TextMap, get, keys, Result, ok, err, unwrap_or,
}
use rendermesh.Cdn.{CdnDomainReconcileRequest, CdnDomainReconcileResult, CdnTenantReconcileRequest}
use rendermesh.Cdn.Hosts.{desired_domains_for_origin, exact_hosts_for_origin}
use rendermesh.Manifest.{CdnDomainConfig, RenderMeshManifest, sync_interval_seconds}
use rendermesh.Refresh.Service.{OriginRefreshError, Origins, RefreshState, refresh_origin}
use rendermesh.Refresh.Stores.{Host, SnapshotError}
use rendermesh.Runtime.{OriginRuntimeStore, set_cdn_domain_result, set_cdn_domain_error}

pub record OriginCdnDomains : Type 0 where
  pub reconcile_domains : CdnDomainReconcileRequest → Result Text CdnDomainReconcileResult
  pub config : CdnDomainConfig
  pub origin_domain : Text
  pub certificate_arn : Option Text

pub record OriginCdnTenants : Type 0 where
  pub reconcile_tenants : CdnTenantReconcileRequest → Result Text CdnDomainReconcileResult

-- The `match` on an outcome; that of the services has the fields of the repository's result.
unfoldable pub record_domains :
    Text → OriginRuntimeStore → Text → Result Text CdnDomainReconcileResult → OriginRuntimeStore
record_domains now origin_runtime origin_id (ok outcome) =
    set_cdn_domain_result now origin_runtime origin_id outcome.provider outcome.status outcome.added
      outcome.updated outcome.removed outcome.unchanged
record_domains now origin_runtime origin_id (err error) =
    set_cdn_domain_error origin_runtime origin_id error

module _ {Value : Type 0} (manifest : RenderMeshManifest Value) where
  -- `OriginCdnDomains::reconcile`
  unfoldable pub reconcile_desired : OriginCdnDomains → Text → Result Text CdnDomainReconcileResult
  reconcile_desired domains origin_id = domains.reconcile_domains (record {
    origin_id = origin_id;
    desired_domains = desired_domains_for_origin manifest origin_id domains.config;
    origin_domain = domains.origin_domain;
    certificate_arn = domains.certificate_arn;
    proxied = domains.config.proxied;
    remove_extra_domains = domains.config.remove_extra_domains;
  })

  -- `OriginCdnTenants::reconcile`
  unfoldable pub reconcile_exact : OriginCdnTenants → Text → Result Text CdnDomainReconcileResult
  reconcile_exact tenants origin_id = tenants.reconcile_tenants (record {
    origin_id = origin_id;
    desired_domains = exact_hosts_for_origin manifest origin_id;
  })

  unfoldable pub reconcile_origin_cdn_domains :
      Text → Text → Option OriginCdnDomains → OriginRuntimeStore → OriginRuntimeStore
  unfolding record_domains reconcile_desired
  reconcile_origin_cdn_domains now origin_id none origin_runtime = origin_runtime
  reconcile_origin_cdn_domains now origin_id (some domains) origin_runtime =
      record_domains now origin_runtime origin_id (reconcile_desired domains origin_id)

  unfoldable pub reconcile_origin_cdn_tenants :
      Text → Text → Option OriginCdnTenants → OriginRuntimeStore → OriginRuntimeStore
  unfolding record_domains reconcile_exact
  reconcile_origin_cdn_tenants now origin_id none origin_runtime = origin_runtime
  reconcile_origin_cdn_tenants now origin_id (some tenants) origin_runtime =
      record_domains now origin_runtime origin_id (reconcile_exact tenants origin_id)

  -- The interval of the timer that refreshes an origin, `spawn_background_sync` of
  -- src/services/startup/background.rs.
  unfoldable pub background_interval : Text → ℕ
  background_interval origin_id = elim (get origin_id manifest.origins) [
    | none ↦ manifest.runtime.sync_interval_seconds
    | some origin ↦ unwrap_or (sync_interval_seconds origin) manifest.runtime.sync_interval_seconds
  ]

  module _ {Disk Registry Time : Type 0} (host : Host Disk Registry Time)
      (message_of : SnapshotError → Text) (origins : Origins) (now : Text)
      (cdn_domains_by_origin : TextMap OriginCdnDomains)
      (cdn_tenants_by_origin : TextMap OriginCdnTenants) where
    abbrev pub reconcile_cdn :
        Text → RefreshState Disk Registry Time → RefreshState Disk Registry Time
    reconcile_cdn origin_id state =
        let domains =
          reconcile_origin_cdn_domains now origin_id (get origin_id cdn_domains_by_origin)
            state.stores.origin_runtime in
        record state {
          stores = record state.stores {
            origin_runtime =
                reconcile_origin_cdn_tenants now origin_id (get origin_id cdn_tenants_by_origin)
                  domains;
          };
        }

    -- The first refresh that fails ends the loop.
    unfoldable pub sync_origins :
        List Text
        → RefreshState Disk Registry Time
        → RefreshState Disk Registry Time × Result OriginRefreshError (Unit {0})
    unfolding refresh_origin reconcile_origin_cdn_domains reconcile_origin_cdn_tenants
    sync_origins [] state = (state, ok tt)
    sync_origins (origin_id ∷ origin_ids) state =
        let (next, result) = refresh_origin host message_of origins origin_id state in
        elim result [
          | err error ↦ (next, err error)
          | ok response ↦ sync_origins origin_ids (reconcile_cdn origin_id next)
        ]

    unfoldable pub sync_origins_at_startup :
        RefreshState Disk Registry Time
        → RefreshState Disk Registry Time × Result OriginRefreshError (Unit {0})
    unfolding sync_origins
    sync_origins_at_startup state = sync_origins (keys manifest.origins) state
