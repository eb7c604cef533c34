-- ===== src/Tests/Rules.antt =====
-- Edge configurations, their rules and the payloads of hooks at concrete inputs.
use rendermesh.Base.{
  ℕ, ◌≡◌, ◌↔◌, ◌⊎◌, inl, inr, refl, Bool, true, false, Option, none, some, List, [], ◌∷◌, ◌++◌,
  Text, text, All, Any, Result, ok, err, text_dec, starts_with, ends_with, split, any, is_control,
}
use rendermesh.Edge.{
  EdgeConfig, not_found, RedirectRule, RewriteRule, EdgeHookConfig, EdgeHookPayload,
}
use rendermesh.Edge.Config.{validate_edge_config}
use rendermesh.Edge.Config.WellFormed.{IsWellFormed, validate_edge_config_iff, GoodRedirect}
use rendermesh.Edge.Hooks.{
  EdgeChainState, EdgePayloadOutcome, invalid_file_path, apply_edge_payload,
}
use rendermesh.Edge.Hooks.Laws.{IsServable, Decides, Accumulates, apply_edge_payload_cases}
use rendermesh.Edge.Rules.{
  PatternMatch, RedirectDecision, match_pattern, find_redirect, resolve_rewrite, with_query,
  apply_splat,
}
use rendermesh.Edge.Rules.Ranking.{Matches, OutrankedBy}
use rendermesh.Edge.Rules.Selection.{find_redirect_best, find_redirect_exact, resolve_rewrite_best}
use rendermesh.Edge.Rules.Targets.{Rooted, find_redirect-Rooted}
use rendermesh.Gateway.Chain.{resolve_request_target}
use rendermesh.Gateway.Targets.{resolve_request_target-Rooted}

abbrev moved : RedirectRule
moved = record { from = text "/old/*"; to = text "/new/:splat"; status = 301 }

abbrev contact : RedirectRule
contact = record { from = text "/old/me"; to = text "/me"; status = 302 }

abbrev example_config : EdgeConfig
example_config = record {
  version = 1;
  edge = record { root_object = text "/index.html"; auto_rewrite_index = true };
  missing = record { action = not_found; page = none; path = none; to = none; status = none };
  redirects = moved ∷ contact ∷ [];
  rewrites = record { from = text "/app/*"; to = text "/app/" } ∷ [];
  edges = record { name = text "auth"; url = text "https://h"; timeout_ms = 50 } ∷ [];
}

abbrev scheme_of_example : Text → Option Text
scheme_of_example url = some (text "https")

abbrev to_new : RedirectDecision
to_new = record { status = 301; location = text "/new/a?q" }

validate_edge_config_iff_example :
    (validate_edge_config scheme_of_example example_config ≡ ok tt)
    ↔ IsWellFormed scheme_of_example example_config
validate_edge_config_iff_example = validate_edge_config_iff scheme_of_example example_config

resolve_request_target-Rooted_example :
    Rooted (resolve_request_target example_config (text "/app/x"))
unfolding validate_edge_config rendermesh.Edge.Config.validate_absolute_path starts_with is_control
    split text_dec rendermesh.Edge.Config.validate_missing_config
    rendermesh.Edge.Config.validate_optional_path rendermesh.Edge.Config.reject_present
    rendermesh.Edge.Config.validate_redirect rendermesh.Edge.Config.validate_redirect_status
    rendermesh.Edge.Config.validate_rewrite rendermesh.Edge.Config.validate_edge
    rendermesh.Base.trim rendermesh.Edge.Config.validate_edge_hook_url
resolve_request_target-Rooted_example =
    resolve_request_target-Rooted scheme_of_example example_config (text "/app/x") refl
      (text "app/x", refl)

find_redirect_best_example :
    (rule : RedirectRule) × (m : PatternMatch) × Any (λ r. r ≡ rule) example_config.redirects
    × Matches rule.from (text "/old/a") m
    × All (λ r. OutrankedBy m (match_pattern r.from (text "/old/a"))) example_config.redirects
    × (to_new.status ≡ rule.status)
    × (to_new.location ≡ with_query (apply_splat rule.to m.splat) (some (text "q")))
unfolding find_redirect rendermesh.Edge.Rules.best_match match_pattern text_dec
    rendermesh.Base.strip_suffix with_query rendermesh.Base.contains_char apply_splat
    rendermesh.Base.replace
find_redirect_best_example =
    find_redirect_best example_config (text "/old/a") (some (text "q")) to_new refl

find_redirect_exact_example :
    (chosen : RedirectRule) × (d : RedirectDecision) × Any
      (λ r. r ≡ chosen)
      example_config.redirects
    × (chosen.from ≡ text "/old/me")
    × (find_redirect example_config (text "/old/me") none ≡ some d)
    × (d.status ≡ chosen.status)
find_redirect_exact_example =
    find_redirect_exact example_config (text "/old/me") none contact (inr (inl refl)) refl

resolve_rewrite_best_example :
    ((resolve_rewrite example_config (text "/app/x") ≡ text "/app/x")
      × All (λ r. match_pattern r.from (text "/app/x") ≡ none) example_config.rewrites)
    ⊎ ((rule : RewriteRule) × (m : PatternMatch) × Any (λ r. r ≡ rule) example_config.rewrites
        × Matches rule.from (text "/app/x") m
        × All (λ r. OutrankedBy m (match_pattern r.from (text "/app/x"))) example_config.rewrites
        × (resolve_rewrite example_config (text "/app/x") ≡ apply_splat rule.to m.splat))
resolve_rewrite_best_example = resolve_rewrite_best example_config (text "/app/x")

example_redirects : All GoodRedirect example_config.redirects
unfolding validate_edge_config rendermesh.Edge.Config.validate_absolute_path starts_with is_control
    split text_dec rendermesh.Edge.Config.validate_missing_config
    rendermesh.Edge.Config.validate_optional_path rendermesh.Edge.Config.reject_present
    rendermesh.Edge.Config.validate_redirect rendermesh.Edge.Config.validate_redirect_status
    rendermesh.Edge.Config.validate_rewrite rendermesh.Edge.Config.validate_edge
    rendermesh.Base.trim rendermesh.Edge.Config.validate_edge_hook_url
example_redirects = ((validate_edge_config_iff scheme_of_example example_config).0 refl).redirects

find_redirect-Rooted_example : Rooted to_new.location
unfolding find_redirect rendermesh.Edge.Rules.best_match match_pattern text_dec
    rendermesh.Base.strip_suffix with_query rendermesh.Base.contains_char apply_splat
    rendermesh.Base.replace
find_redirect-Rooted_example =
    find_redirect-Rooted example_config (text "/old/a") (some (text "q")) to_new example_redirects
      refl

abbrev example_payload : EdgeHookPayload ℕ
example_payload = record {
  headers = (text "x-trace", text "2") ∷ [];
  body = none;
  file_path = some (text "/../up");
  params = none;
}

abbrev example_state : EdgeChainState
example_state = record { headers = (text "x-trace", text "1") ∷ [] }

apply_edge_payload_cases_example :
    ((path : Text) × (example_payload.body ≡ none)
      × (example_payload.file_path ≡ some path)
      × ¬ IsServable path
      × (apply_edge_payload example_state 200 example_payload
          ≡ (example_state, err (invalid_file_path path))))
    ⊎ ((outcome : EdgePayloadOutcome ℕ) × (after : EdgeChainState) × (apply_edge_payload
            example_state 200 example_payload
          ≡ (after, ok outcome))
        × Decides 200 example_payload outcome
        × Accumulates example_state example_payload after)
unfolding rendermesh.Base.get
apply_edge_payload_cases_example =
    apply_edge_payload_cases example_state 200 example_payload (refl, tt)
