-- ===== src/Refresh/EdgeConfigs/Validity.antt =====
-- What is loaded from a staged origin is well formed, src/services/origin_refresh.rs.
use rendermesh.Base.{
  ◌≡◌, refl, ℕ, Option, none, some, List, [], ◌∷◌, Text, Result, ok, err, ok_or, ◌>>=◌, IfOk, text,
  starts_with, split, is_control, text_dec, IfOk->>=, IfOk-any,
}
use rendermesh.Edge.{EdgeConfig, default_edge_config}
use rendermesh.Edge.Config.{EdgeConfigError, validate_edge_config}
use rendermesh.Edge.Config.WellFormed.{IsWellFormed, IsAbsolute, validate_edge_config_iff}
use rendermesh.Mirror.{Files, LocalObject, MirrorError, read_object}
use rendermesh.Refresh.EdgeConfigs.{
  LoadError, config_not_parsed, config_not_utf8, edge_config_paths, readable, validated,
  parse_edge_config, config_of_object, first_edge_config, load_origin_edge_config,
}

index-IsAbsolute : IsAbsolute (text "/index.html")
unfolding starts_with split is_control text_dec
index-IsAbsolute = record { rooted = refl; printable = refl; descends = refl }

module _ (scheme_of : Text → Option Text) (parse_config : Text → Option EdgeConfig)
    (from_utf8 : List ℕ → Option Text) where
  default_edge_config-IsWellFormed : IsWellFormed scheme_of default_edge_config
  unfolding default_edge_config
  default_edge_config-IsWellFormed = record {
    version = refl;
    root_object = index-IsAbsolute;
    missing = (index-IsAbsolute, refl, refl, refl);
    redirects = tt;
    rewrites = tt;
    edges = tt;
  }

  IfOk-validated :
      (config : EdgeConfig) (result : Result EdgeConfigError (Unit {0}))
      → validate_edge_config scheme_of config ≡ result
      → IfOk (IsWellFormed scheme_of) (validated result >>= λ _. ok config)
  IfOk-validated config (ok tt) e = (validate_edge_config_iff scheme_of config).0 e
  IfOk-validated config (err error) e = tt

  IfOk-parsed :
      (input : Text) (parsed : Option EdgeConfig)
      → IfOk (IsWellFormed scheme_of) (
          ok_or parsed (config_not_parsed input) >>= λ config.
          validated (validate_edge_config scheme_of config) >>= λ _. ok config)
  IfOk-parsed input none = tt
  IfOk-parsed input (some config) =
      IfOk-validated config (validate_edge_config scheme_of config) refl

  parse_edge_config-IsWellFormed :
      (input : Text)
      → IfOk (IsWellFormed scheme_of) (parse_edge_config scheme_of parse_config from_utf8 input)
  unfolding parse_edge_config
  parse_edge_config-IsWellFormed input = IfOk-parsed input (parse_config input)

  IfOk-config_of_object :
      (path : Text) (object : Option LocalObject) (rest : Result LoadError EdgeConfig)
      → IfOk (IsWellFormed scheme_of) rest
      → IfOk
          (IsWellFormed scheme_of)
          (config_of_object scheme_of parse_config from_utf8 path object rest)
  IfOk-config_of_object path none rest h = h
  IfOk-config_of_object path (some object) rest h =
      IfOk->>= (λ _. Unit) (IsWellFormed scheme_of)
        (ok_or (from_utf8 object.body) (config_not_utf8 path))
        (λ input. parse_edge_config scheme_of parse_config from_utf8 input)
        (IfOk-any (ok_or (from_utf8 object.body) (config_not_utf8 path)))
        (λ input _. parse_edge_config-IsWellFormed input)

  IfOk-first_edge_config :
      (read : Text → Result MirrorError (Option LocalObject)) (paths : List Text)
      → IfOk
          (IsWellFormed scheme_of)
          (first_edge_config scheme_of parse_config from_utf8 read paths)
  unfolding first_edge_config
  IfOk-first_edge_config read [] = default_edge_config-IsWellFormed
  IfOk-first_edge_config read (path ∷ paths) =
      IfOk->>= (λ _. Unit) (IsWellFormed scheme_of) (readable (read path))
        (λ object.
          config_of_object scheme_of parse_config from_utf8 path object
            (first_edge_config scheme_of parse_config from_utf8 read paths))
        (IfOk-any (readable (read path)))
        (λ object _. IfOk-config_of_object path object _ (IfOk-first_edge_config read paths))

  pub load_origin_edge_config-IsWellFormed :
      (files : Files) (root origin_id : Text)
      → IfOk
          (IsWellFormed scheme_of)
          (load_origin_edge_config scheme_of parse_config from_utf8 files root origin_id)
  unfolding load_origin_edge_config
  load_origin_edge_config-IsWellFormed files root origin_id =
      IfOk-first_edge_config (read_object files root origin_id) edge_config_paths
