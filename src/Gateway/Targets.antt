-- ===== src/Gateway/Targets.antt =====
-- `resolve_request_target`, src/services/render_gateway.rs, with a validated configuration.
use rendermesh.Base.{◌≡◌, Text, Option, ok}
use rendermesh.Edge.{EdgeConfig}
use rendermesh.Edge.Config.{validate_edge_config}
use rendermesh.Edge.Config.WellFormed.{validate_edge_config_iff}
use rendermesh.Edge.Rules.{resolve_rewrite}
use rendermesh.Edge.Rules.Targets.{Rooted, resolve_rewrite-Rooted, resolve_root_object-Rooted}
use rendermesh.Gateway.Chain.{resolve_request_target}

-- If the configuration passes validation, then a request path that begins with a slash is sent to a
-- target that begins with a slash.
pub resolve_request_target-Rooted :
    (scheme_of : Text → Option Text) (config : EdgeConfig) (path : Text)
    → validate_edge_config scheme_of config ≡ ok tt
    → Rooted path
    → Rooted (resolve_request_target config path)
unfolding resolve_request_target
resolve_request_target-Rooted scheme_of config path valid rooted =
    let w = (validate_edge_config_iff scheme_of config).0 valid in
    resolve_root_object-Rooted config (resolve_rewrite config path) w.root_object
      (resolve_rewrite-Rooted config path w.rewrites rooted)
