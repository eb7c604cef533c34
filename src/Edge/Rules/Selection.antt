-- ===== src/Edge/Rules/Selection.antt =====
-- Which rule `find_redirect` and `resolve_rewrite` apply, src/services/static_rules.rs.
use rendermesh.Base.{
  ◌≡◌, ◌⊎◌, refl, inl, inr, Option, none, some, arith, All, Any, Text, Option-cases,
}
use rendermesh.Edge.{RedirectRule, RewriteRule, EdgeConfig}
use rendermesh.Edge.Rules.{
  PatternMatch, match_pattern, best_match, RedirectDecision, resolve_rewrite, rewrite_from,
  find_redirect, with_query, apply_splat, redirect_from,
}
use rendermesh.Edge.Rules.Ranking.{
  Matches, match_pattern-Matches, OutrankedBy, best_match-eq-none, best_match-IsBest,
  best_match_exact,
}

-- A redirect that is found comes from a listed rule that matches the path and that no other matching rule
-- outranks; its status is the rule's, and its location the rule's target with the splat put in and
-- the query added.
pub find_redirect_best :
    (config : EdgeConfig) (path : Text) (query : Option Text) (d : RedirectDecision)
    → find_redirect config path query ≡ some d
    → (rule : RedirectRule) × (m : PatternMatch) × Any (λ r. r ≡ rule) config.redirects
      × Matches rule.from path m
      × All (λ r. OutrankedBy m (match_pattern r.from path)) config.redirects
      × (d.status ≡ rule.status)
      × (d.location ≡ with_query (apply_splat rule.to m.splat) query)
unfolding find_redirect
find_redirect_best config path query d h =
    elim (Option-cases (best_match redirect_from path config.redirects)) [
      | inl e ↦ absurd (ground arith)
      | inr ((rule, m), e) ↦
          let b = best_match-IsBest redirect_from path config.redirects rule m e in
          (
            rule,
            m,
            b.listed,
            match_pattern-Matches rule.from path m b.matched,
            b.highest,
            ground arith,
            ground arith,
          )
    ]

-- If some redirect rule's pattern is the path itself, then the path is redirected, by such a rule:
-- wildcards never take precedence.
pub find_redirect_exact :
    (config : EdgeConfig) (path : Text) (query : Option Text) (rule : RedirectRule)
    → Any (λ r. r ≡ rule) config.redirects
    → rule.from ≡ path
    → (chosen : RedirectRule) × (d : RedirectDecision) × Any (λ r. r ≡ chosen) config.redirects
      × (chosen.from ≡ path)
      × (find_redirect config path query ≡ some d)
      × (d.status ≡ chosen.status)
unfolding find_redirect
find_redirect_exact config path query rule listed same =
    let (best, m, e, here, exactly) =
      best_match_exact redirect_from path config.redirects rule listed same in
    (
      best,
      record { status = best.status; location = with_query (apply_splat best.to m.splat) query },
      here,
      exactly,
      rw (e, find_redirect),
      refl,
    )

-- A rewrite leaves the path alone if no rule matches, and otherwise gives the target of a matching
-- rule that no other matching rule outranks, with the splat put in.
pub resolve_rewrite_best :
    (config : EdgeConfig) (path : Text)
    → ((resolve_rewrite config path ≡ path)
        × All (λ r. match_pattern r.from path ≡ none) config.rewrites)
      ⊎ ((rule : RewriteRule) × (m : PatternMatch) × Any (λ r. r ≡ rule) config.rewrites
          × Matches rule.from path m
          × All (λ r. OutrankedBy m (match_pattern r.from path)) config.rewrites
          × (resolve_rewrite config path ≡ apply_splat rule.to m.splat))
unfolding resolve_rewrite
resolve_rewrite_best config path =
    elim (Option-cases (best_match rewrite_from path config.rewrites)) [
      | inl e ↦
          inl (rw (e, resolve_rewrite), best_match-eq-none rewrite_from path config.rewrites e)
      | inr ((rule, m), e) ↦
          let b = best_match-IsBest rewrite_from path config.rewrites rule m e in
          inr (
            rule,
            m,
            b.listed,
            match_pattern-Matches rule.from path m b.matched,
            b.highest,
            rw (e, resolve_rewrite),
          )
    ]
