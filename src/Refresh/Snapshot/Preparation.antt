-- ===== src/Refresh/Snapshot/Preparation.antt =====
-- What the preparation of a refresh gives, `refresh_origin_snapshot` of
-- src/services/origin_refresh.rs.
use rendermesh.Base.{◌≡◌, refl, Option, Text, get, Result, ok, err, IfOk, IfOk->>=, ◌>>=◌}
use rendermesh.Edge.{EdgeConfig}
use rendermesh.Edge.Config.WellFormed.{IsWellFormed}
use rendermesh.Freshness.{OriginFreshnessDiff}
use rendermesh.Refresh.{BarrierError, validate_activation_barrier}
use rendermesh.Refresh.EdgeConfigs.{LoadError, staged_origin_mirror, load_origin_edge_config}
use rendermesh.Refresh.EdgeConfigs.Validity.{load_origin_edge_config-IsWellFormed}
use rendermesh.Refresh.Snapshot.{of_barrier, of_config, of_templates, prepare}
use rendermesh.Refresh.Stores.{Host, Stores}
use rendermesh.Sync.{StagedOriginSync}
use rendermesh.Templates.{TemplateLoadError, compile_template_update_from_mirror}

of_barrier-ok :
    (result : Result BarrierError (Unit {0})) → IfOk (λ _. result ≡ ok tt) (of_barrier result)
of_barrier-ok (ok tt) = refl
of_barrier-ok (err e) = tt

of_config-ok :
    {A : Type 0} (result : Result LoadError A) → IfOk (λ a. result ≡ ok a) (of_config result)
of_config-ok (ok a) = refl
of_config-ok (err e) = tt

module _ {Disk Registry Time : Type 0} (host : Host Disk Registry Time) (origin_id : Text) where
  -- The configuration and the registry are those of the staged directory on the disk, for an update
  -- by the difference.
  pub record IsFromMirror (before : Stores Disk Registry Time) (staging_dir : Text) (disk : Disk)
      (diff : OriginFreshnessDiff) (config : EdgeConfig) (registry : Registry) : Type 0 where
    pub root : Text
    pub stage_id : Text
    pub split :
        staged_origin_mirror ((host.fs).parent staging_dir) ((host.fs).file_name staging_dir)
        ≡ ok (root, stage_id)
    pub loaded :
        load_origin_edge_config host.scheme_of host.parse_config host.from_utf8
          ((host.fs).files disk)
          root
          stage_id
        ≡ ok config
    pub compiled :
        compile_template_update_from_mirror host.engine host.from_utf8 before.templates origin_id
          stage_id
          ((host.fs).files disk)
          root
          diff
        ≡ ok registry

module _ {Disk Registry Time : Type 0} (host : Host Disk Registry Time) (origin_id : Text)
    (barrier : Option Text) where
  -- What a prepared configuration and registry rest on.
  abbrev pub IsPrepared :
      Stores Disk Registry Time → Disk → StagedOriginSync Time → EdgeConfig × Registry → Type 0
  IsPrepared before disk staged (config, registry) =
      IsWellFormed host.scheme_of config
      × (validate_activation_barrier (get origin_id before.freshness_indexes) staged.index
            staged.diff barrier
          ≡ ok tt)
      × IsFromMirror host origin_id before staged.staging_dir disk staged.diff config registry

  IfOk-paired :
      (before : Stores Disk Registry Time) (disk : Disk) (staged : StagedOriginSync Time)
      (config : EdgeConfig) (compiled : Result TemplateLoadError Registry)
      → ((registry : Registry)
          → compiled ≡ ok registry
          → IsPrepared before disk staged (config, registry))
      → IfOk
          (IsPrepared before disk staged)
          (of_templates compiled >>= λ registry. ok (config, registry))
  IfOk-paired before disk staged config (ok registry) h = h registry refl
  IfOk-paired before disk staged config (err error) h = tt

  -- The loaded configuration, with the equation that it stands in.
  IfOk-loaded :
      (loaded : Result LoadError EdgeConfig)
      → IfOk (IsWellFormed host.scheme_of) loaded
      → IfOk
          (λ config. IsWellFormed host.scheme_of config × (loaded ≡ ok config))
          (of_config loaded)
  IfOk-loaded (ok config) h = (h, refl)
  IfOk-loaded (err error) h = tt

  pub IfOk-prepare :
      (before : Stores Disk Registry Time) (disk : Disk) (staged : StagedOriginSync Time)
      → IfOk (IsPrepared before disk staged) (
          prepare host
            (record before { disk = disk })
            origin_id
            (get origin_id before.freshness_indexes)
            barrier
            staged)
  unfolding prepare
  IfOk-prepare before disk staged =
      IfOk->>= _ (IsPrepared before disk staged) _ _
        (of_barrier-ok (
          validate_activation_barrier (get origin_id before.freshness_indexes) staged.index
            staged.diff barrier))
        (λ _ passed.
          IfOk->>= _ (IsPrepared before disk staged) _ _
            (of_config-ok (
              staged_origin_mirror ((host.fs).parent staged.staging_dir)
                ((host.fs).file_name staged.staging_dir)))
            (λ (root, stage_id) split.
              let files = (host.fs).files disk in
              let loaded =
                load_origin_edge_config host.scheme_of host.parse_config host.from_utf8 files root
                  stage_id in
              IfOk->>= (λ config. IsWellFormed host.scheme_of config × (loaded ≡ ok config))
                (IsPrepared before disk staged) (of_config loaded) _
                (IfOk-loaded loaded (
                  load_origin_edge_config-IsWellFormed host.scheme_of host.parse_config
                    host.from_utf8 files root stage_id))
                (λ config (well_formed, e).
                  IfOk-paired before disk staged config
                    (compile_template_update_from_mirror host.engine host.from_utf8 before.templates
                      origin_id stage_id files root staged.diff)
                    (λ registry f. (
                      well_formed,
                      passed,
                      record {
                        root = root;
                        stage_id = stage_id;
                        split = split;
                        loaded = e;
                        compiled = f;
                      },
                    )))))
