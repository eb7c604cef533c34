-- ===== src/Edge/Config.antt =====
-- `validate_edge_config`, src/services/edge_config.rs. The URL parser of the `url` crate is the
-- parameter `scheme_of`: the scheme of a text that parses as a URL.
pub mod WellFormed
use rendermesh.Base.{
  ℕ, Bool, true, false, not, ◌&&◌, ◌||◌, Option, none, some, List, Text, text, is_empty, any, ◌==◌,
  ◌===◌, if◌then◌else◌, is_some, trim, is_control, starts_with, split, Result, ok, err, ◌>>=◌, ◌>>◌,
  reject_if, for_each,
}
use rendermesh.Edge.{
  MissingAction, not_found, serve, redirect, MissingConfig, RedirectRule, RewriteRule,
  EdgeHookConfig, EdgeConfig,
}

pub data Field : Type 0 where
  root_object missing_page missing_path missing_to missing_status : Field
  redirect_from redirect_to rewrite_from rewrite_to : Field

-- One constructor for each message of the source.
pub data EdgeConfigError : Type 0 where
  unsupported_version invalid_redirect_status : ℕ → EdgeConfigError
  not_absolute has_parent_dir not_valid_here : Field → EdgeConfigError
  serve_requires_path redirect_requires_to redirect_requires_status : EdgeConfigError
  hook_name_required hook_url_unparsed hook_url_not_http : EdgeConfigError
  hook_timeout_not_positive : Text → EdgeConfigError

abbrev Check : Type 0
Check = Result EdgeConfigError (Unit {0})

unfoldable pub validate_absolute_path : Field → Text → Check
validate_absolute_path field path = do
  reject_if (is_empty path || not (starts_with path (text "/")) || any is_control path)
      (not_absolute field)
  reject_if (any (λ segment. segment === text "..") (split b'/' path)) (has_parent_dir field)

unfoldable pub validate_optional_path : Field → Option Text → Check
unfolding validate_absolute_path
validate_optional_path field none = ok tt
validate_optional_path field (some path) = validate_absolute_path field path

unfoldable pub reject_present : {A : Type 0} → Field → Option A → Check
reject_present field value = reject_if (is_some value) (not_valid_here field)

abbrev pub is_redirect_status : ℕ → Bool
is_redirect_status status = status == 301 || status == 302 || status == 307 || status == 308

unfoldable pub validate_redirect_status : ℕ → Check
validate_redirect_status status =
    reject_if (not (is_redirect_status status)) (invalid_redirect_status status)

require_path : Option Text → Check
require_path none = err serve_requires_path
require_path (some path) = validate_absolute_path missing_path path

require_to : Option Text → Check
require_to none = err redirect_requires_to
require_to (some to) = validate_absolute_path missing_to to

require_status : Option ℕ → Check
require_status none = err redirect_requires_status
require_status (some status) = validate_redirect_status status

-- The `match missing.action`.
validate_missing_action : MissingAction → MissingConfig → Check
validate_missing_action not_found missing = do
  validate_optional_path missing_page missing.page
  reject_present missing_path missing.path
  reject_present missing_to missing.to
  reject_present missing_status missing.status
validate_missing_action serve missing = do
  require_path missing.path
  reject_present missing_page missing.page
  reject_present missing_to missing.to
  reject_present missing_status missing.status
validate_missing_action redirect missing = do
  require_to missing.to
  require_status missing.status
  reject_present missing_page missing.page
  reject_present missing_path missing.path

unfoldable pub validate_missing_config : MissingConfig → Check
unfolding validate_missing_action require_path require_to require_status
validate_missing_config missing = validate_missing_action missing.action missing

unfoldable pub validate_redirect : RedirectRule → Check
validate_redirect rule = do
  validate_absolute_path redirect_from rule.from
  validate_absolute_path redirect_to rule.to
  validate_redirect_status rule.status

unfoldable pub validate_rewrite : RewriteRule → Check
validate_rewrite rule = do
  validate_absolute_path rewrite_from rule.from
  validate_absolute_path rewrite_to rule.to

module _ (scheme_of : Text → Option Text) where
  unfoldable pub validate_edge_hook_url : Text → Check
  validate_edge_hook_url url = elim (scheme_of url) [
    | none ↦ err hook_url_unparsed
    | some scheme ↦
        reject_if (not (scheme === text "http" || scheme === text "https")) hook_url_not_http
  ]

  unfoldable pub validate_edge : EdgeHookConfig → Check
  validate_edge edge = do
    reject_if (is_empty (trim edge.name)) hook_name_required
    reject_if (edge.timeout_ms == 0) (hook_timeout_not_positive edge.name)
    validate_edge_hook_url edge.url

  unfoldable pub validate_edge_config : EdgeConfig → Check
  validate_edge_config config = do
    reject_if (not (config.version == 1)) (unsupported_version config.version)
    validate_absolute_path root_object config.edge.root_object
    validate_missing_config config.missing
    for_each validate_redirect config.redirects
    for_each validate_rewrite config.rewrites
    for_each validate_edge config.edges
