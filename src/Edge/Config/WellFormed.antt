-- ===== src/Edge/Config/WellFormed.antt =====
-- `validate_edge_config` (src/services/edge_config.rs) accepts exactly the well-formed
-- configurations.
use rendermesh.Base.{
  ℕ, ◌≡◌, ◌↔◌, ◌⊎◌, refl, true, false, Option, none, some, [], ◌∷◌, Text, text, ◌<◌, All, any,
  ◌===◌, is_empty, starts_with, split, trim, is_control, ok, for_each, for_each-All, arith,
}
use rendermesh.Edge.{
  MissingAction, not_found, serve, redirect, MissingConfig, RedirectRule, RewriteRule,
  EdgeHookConfig, EdgeConfig,
}
use rendermesh.Edge.Config.{
  Field, validate_absolute_path, validate_optional_path, reject_present, validate_redirect_status,
  require_path, require_to, require_status, validate_missing_action, validate_missing_config,
  validate_redirect, validate_rewrite, validate_edge_hook_url, validate_edge, validate_edge_config,
  missing_page, missing_path, missing_to, missing_status, root_object, redirect_from, redirect_to,
  rewrite_from, rewrite_to,
}

-- A path from the root, printable, that has no `..` segment.
pub record IsAbsolute (path : Text) : Type 0 where
  pub rooted : starts_with path (text "/") ≡ true
  pub printable : any is_control path ≡ false
  pub descends : any (λ segment. segment === text "..") (split b'/' path) ≡ false

starts_with-nil : starts_with [] (text "/") ≡ false
unfolding starts_with
starts_with-nil = refl

absolute_accepted :
    (field : Field) (path : Text) → IsAbsolute path → validate_absolute_path field path ≡ ok tt
unfolding validate_absolute_path
absolute_accepted field [] a = absurd (ground (arith, a.rooted, starts_with-nil))
absolute_accepted field (c ∷ path) a = ground (arith, a.rooted, a.printable, a.descends)

pub IsAbsolute-iff :
    (field : Field) (path : Text) → (validate_absolute_path field path ≡ ok tt) ↔ IsAbsolute path
unfolding validate_absolute_path
IsAbsolute-iff field path = (
  λ h. record { rooted = ground arith; printable = ground arith; descends = ground arith },
  absolute_accepted field path,
)

abbrev pub AbsoluteIfPresent : Option Text → Type 0
AbsoluteIfPresent none = Unit
AbsoluteIfPresent (some path) = IsAbsolute path

abbrev pub AbsoluteAndPresent : Option Text → Type 0
AbsoluteAndPresent none = ⊥
AbsoluteAndPresent (some path) = IsAbsolute path

abbrev pub IsRedirectStatus : ℕ → Type 0
IsRedirectStatus status = (status ≡ 301) ⊎ (status ≡ 302) ⊎ (status ≡ 307) ⊎ (status ≡ 308)

abbrev pub RedirectStatusAndPresent : Option ℕ → Type 0
RedirectStatusAndPresent none = ⊥
RedirectStatusAndPresent (some status) = IsRedirectStatus status

-- Each action has its own fields, and no field of another action.
abbrev pub GoodMissing : MissingAction → MissingConfig → Type 0
GoodMissing not_found m =
    AbsoluteIfPresent m.page × (m.path ≡ none) × (m.to ≡ none) × (m.status ≡ none)
GoodMissing serve m =
    AbsoluteAndPresent m.path × (m.page ≡ none) × (m.to ≡ none) × (m.status ≡ none)
GoodMissing redirect m =
    AbsoluteAndPresent m.to × RedirectStatusAndPresent m.status × (m.page ≡ none) × (m.path ≡ none)

optional_iff :
    (field : Field) (path : Option Text)
    → (validate_optional_path field path ≡ ok tt) ↔ AbsoluteIfPresent path
unfolding validate_optional_path
optional_iff field none = (λ h. tt, λ h. refl)
optional_iff field (some path) = IsAbsolute-iff field path

present_iff :
    {A : Type 0} (field : Field) (value : Option A)
    → (reject_present field value ≡ ok tt) ↔ (value ≡ none)
unfolding reject_present
present_iff field none = (λ h. refl, λ h. refl)
present_iff field (some a) = (λ h. cc, λ h. cc)

status_iff : (status : ℕ) → (validate_redirect_status status ≡ ok tt) ↔ IsRedirectStatus status
unfolding validate_redirect_status
status_iff status = ground arith

require_path_iff : (path : Option Text) → (require_path path ≡ ok tt) ↔ AbsoluteAndPresent path
unfolding require_path
require_path_iff none = (λ h. cc, λ h. absurd h)
require_path_iff (some path) = IsAbsolute-iff missing_path path

require_to_iff : (to : Option Text) → (require_to to ≡ ok tt) ↔ AbsoluteAndPresent to
unfolding require_to
require_to_iff none = (λ h. cc, λ h. absurd h)
require_to_iff (some to) = IsAbsolute-iff missing_to to

require_status_iff :
    (status : Option ℕ) → (require_status status ≡ ok tt) ↔ RedirectStatusAndPresent status
unfolding require_status
require_status_iff none = (λ h. cc, λ h. absurd h)
require_status_iff (some status) = status_iff status

missing_iff :
    (action : MissingAction) (m : MissingConfig)
    → (validate_missing_action action m ≡ ok tt) ↔ GoodMissing action m
unfolding validate_missing_action
missing_iff not_found m = ground (
  arith,
  optional_iff missing_page m.page,
  present_iff missing_path m.path,
  present_iff missing_to m.to,
  present_iff missing_status m.status,
)
missing_iff serve m = ground (
  arith,
  require_path_iff m.path,
  present_iff missing_page m.page,
  present_iff missing_to m.to,
  present_iff missing_status m.status,
)
missing_iff redirect m = ground (
  arith,
  require_to_iff m.to,
  require_status_iff m.status,
  present_iff missing_page m.page,
  present_iff missing_path m.path,
)

abbrev pub GoodRedirect : RedirectRule → Type 0
GoodRedirect rule = IsAbsolute rule.from × IsAbsolute rule.to × IsRedirectStatus rule.status

abbrev pub GoodRewrite : RewriteRule → Type 0
GoodRewrite rule = IsAbsolute rule.from × IsAbsolute rule.to

redirect_iff : (rule : RedirectRule) → (validate_redirect rule ≡ ok tt) ↔ GoodRedirect rule
unfolding validate_redirect
redirect_iff rule = ground (
  arith,
  IsAbsolute-iff redirect_from rule.from,
  IsAbsolute-iff redirect_to rule.to,
  status_iff rule.status,
)

rewrite_iff : (rule : RewriteRule) → (validate_rewrite rule ≡ ok tt) ↔ GoodRewrite rule
unfolding validate_rewrite
rewrite_iff rule =
    ground (arith, IsAbsolute-iff rewrite_from rule.from, IsAbsolute-iff rewrite_to rule.to)

module _ (scheme_of : Text → Option Text) where
  abbrev pub HasHttpScheme : Text → Type 0
  HasHttpScheme url = (scheme_of url ≡ some (text "http")) ⊎ (scheme_of url ≡ some (text "https"))

  abbrev pub GoodEdge : EdgeHookConfig → Type 0
  GoodEdge edge =
      (is_empty (trim edge.name) ≡ false) × (0 < edge.timeout_ms) × HasHttpScheme edge.url

  url_iff : (url : Text) → (validate_edge_hook_url scheme_of url ≡ ok tt) ↔ HasHttpScheme url
  unfolding validate_edge_hook_url
  url_iff url = ground arith

  edge_iff : (edge : EdgeHookConfig) → (validate_edge scheme_of edge ≡ ok tt) ↔ GoodEdge edge
  unfolding validate_edge
  edge_iff edge = ground (arith, url_iff edge.url)

  -- A configuration that an origin can be served with.
  pub record IsWellFormed (config : EdgeConfig) : Type 0 where
    pub version : config.version ≡ 1
    pub root_object : IsAbsolute config.edge.root_object
    pub missing : GoodMissing config.missing.action config.missing
    pub redirects : All GoodRedirect config.redirects
    pub rewrites : All GoodRewrite config.rewrites
    pub edges : All GoodEdge config.edges

  accepted :
      (config : EdgeConfig)
      → config.version ≡ 1
      → validate_absolute_path root_object config.edge.root_object ≡ ok tt
      → validate_missing_config config.missing ≡ ok tt
      → for_each validate_redirect config.redirects ≡ ok tt
      → for_each validate_rewrite config.rewrites ≡ ok tt
      → for_each (validate_edge scheme_of) config.edges ≡ ok tt
      → validate_edge_config scheme_of config ≡ ok tt
  unfolding validate_edge_config
  accepted config a b c d e f = ground arith

  -- Validation accepts exactly the well-formed configurations: version 1, an absolute root object,
  -- the fields of the missing action and no others, absolute patterns and targets, redirect statuses
  -- among 301, 302, 307 and 308, and hooks with a name, a positive timeout and an HTTP URL.
  pub validate_edge_config_iff :
      (config : EdgeConfig) → (validate_edge_config scheme_of config ≡ ok tt) ↔ IsWellFormed config
  unfolding validate_edge_config validate_missing_config
  validate_edge_config_iff config =
      let root = IsAbsolute-iff root_object config.edge.root_object in
      let missing = missing_iff config.missing.action config.missing in
      let redirects = for_each-All validate_redirect GoodRedirect config.redirects redirect_iff in
      let rewrites = for_each-All validate_rewrite GoodRewrite config.rewrites rewrite_iff in
      let edges = for_each-All (validate_edge scheme_of) GoodEdge config.edges edge_iff in
      (
        λ h. record {
          version = ground arith;
          root_object = root.0 (ground arith);
          missing = missing.0 (ground arith);
          redirects = redirects.0 (ground arith);
          rewrites = rewrites.0 (ground arith);
          edges = edges.0 (ground arith);
        },
        λ w.
            accepted config w.version (root.1 w.root_object) (missing.1 w.missing)
              (redirects.1 w.redirects) (rewrites.1 w.rewrites) (edges.1 w.edges),
      )
