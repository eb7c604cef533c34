-- ===== src/Refresh/EdgeConfigs.antt =====
-- Loading the edge configuration of a staged origin: `staged_origin_mirror` and
-- `load_origin_edge_config` of src/services/origin_refresh.rs, and `parse_edge_config` of
-- src/services/edge_config.rs. The YAML and JSON parser is a parameter, as is the UTF-8 decoder.
pub mod Validity
use rendermesh.Base.{
  ℕ, Option, none, some, List, [], ◌∷◌, Text, text, Result, ok, err, ◌>>=◌, ok_or,
}
use rendermesh.Edge.{EdgeConfig, default_edge_config}
use rendermesh.Edge.Config.{EdgeConfigError, validate_edge_config}
use rendermesh.Mirror.{Files, LocalObject, MirrorError, read_object}

pub data LoadError : Type 0 where
  staging_has_no_parent staging_has_no_name : LoadError
  config_unreadable : MirrorError → LoadError
  config_not_utf8 config_not_parsed : Text → LoadError
  config_refused : EdgeConfigError → LoadError

-- `EDGE_CONFIG_PATHS`; the deprecated ones are only logged.
abbrev pub edge_config_paths : List Text
edge_config_paths =
    text "/.rendermesh/edge.yaml"
    ∷ text "/.rendermesh/edge.yml"
    ∷ text "/.rendermesh/edge.json"
    ∷ text "/_rendermesh/edge.yaml"
    ∷ text "/_rendermesh/edge.yml"
    ∷ text "/_rendermesh/edge.json"
    ∷ []

abbrev pub readable : {A : Type 0} → Result MirrorError A → Result LoadError A
readable (ok a) = ok a
readable (err e) = err (config_unreadable e)

abbrev pub validated : {A : Type 0} → Result EdgeConfigError A → Result LoadError A
validated (ok a) = ok a
validated (err e) = err (config_refused e)

-- The root and the origin id under which a staging directory is read as a mirror.
unfoldable pub staged_origin_mirror : Option Text → Option Text → Result LoadError (Text × Text)
staged_origin_mirror none name = err staging_has_no_parent
staged_origin_mirror (some root) none = err staging_has_no_name
staged_origin_mirror (some root) (some name) = ok (root, name)

module _ (scheme_of : Text → Option Text) (parse_config : Text → Option EdgeConfig)
    (from_utf8 : List ℕ → Option Text) where
  unfoldable pub parse_edge_config : Text → Result LoadError EdgeConfig
  parse_edge_config input = ok_or (parse_config input) (config_not_parsed input) >>= λ config.
      validated (validate_edge_config scheme_of config) >>= λ _. ok config

  -- What is done with the object at a candidate path; nothing goes on to the next path.
  abbrev pub config_of_object :
      Text → Option LocalObject → Result LoadError EdgeConfig → Result LoadError EdgeConfig
  config_of_object path none rest = rest
  config_of_object path (some object) rest =
      ok_or (from_utf8 object.body) (config_not_utf8 path) >>= λ input. parse_edge_config input

  unfoldable pub first_edge_config :
      (Text → Result MirrorError (Option LocalObject)) → List Text → Result LoadError EdgeConfig
  unfolding parse_edge_config
  first_edge_config read [] = ok default_edge_config
  first_edge_config read (path ∷ paths) =
      readable (read path) >>= λ object. config_of_object path object (first_edge_config read paths)

  unfoldable pub load_origin_edge_config : Files → Text → Text → Result LoadError EdgeConfig
  unfolding first_edge_config
  load_origin_edge_config files root origin_id =
      first_edge_config (read_object files root origin_id) edge_config_paths
