-- ===== src/Edge/Rules.antt =====
-- Redirects, rewrites and root objects, src/services/static_rules.rs.
pub mod Ranking
pub mod Selection
pub mod Targets
use rendermesh.Base.{
  ℕ, ◌+◌, Bool, true, false, not, ◌&&◌, ◌||◌, Option, none, some, List, [], ◌∷◌, ◌++◌, Text, text,
  is_empty, if◌then◌else◌, ◌==◌, ◌===◌, ltb, leb, unwrap_or, byte_len, starts_with, ends_with,
  strip_prefix, strip_suffix, contains_char, replace, trim_end_matches,
}
use rendermesh.Edge.{RedirectRule, RewriteRule, EdgeConfig}

pub record RedirectDecision : Type 0 where
  pub status : ℕ
  pub location : Text

-- `Wildcard` is less than `Exact`.
pub data MatchKind : Type 0 where
  wildcard exact : MatchKind

pub record PatternMatch : Type 0 where
  pub kind : MatchKind
  pub specificity : ℕ
  pub splat : Option Text

unfoldable pub match_pattern : Text → Text → Option PatternMatch
match_pattern pattern path =
    if pattern === path
    then some (record { kind = exact; specificity = byte_len pattern; splat = none })
    else elim (strip_suffix pattern (text "*")) [
      | none ↦ none
      | some prefix ↦ elim (strip_prefix path prefix) [
        | none ↦ none
        | some rest ↦
            some (record { kind = wildcard; specificity = byte_len prefix; splat = some rest })
      ]
    ]

-- The order of (kind, specificity), with the specificities' comparison given.
abbrev pub kind_le : MatchKind → MatchKind → Bool → Bool
kind_le wildcard exact shorter = true
kind_le exact wildcard shorter = false
kind_le wildcard wildcard shorter = shorter
kind_le exact exact shorter = shorter

-- `a.rank() <= b.rank()`
unfoldable pub rank_le : PatternMatch → PatternMatch → Bool
rank_le a b = kind_le a.kind b.kind (leb a.specificity b.specificity)

module _ {Rule : Type 0} (from : Rule → Text) (path : Text) where
  -- `.max_by_key(…)` keeps the later of two equal elements.
  unfoldable pub better : Rule × PatternMatch → Option (Rule × PatternMatch) → Rule × PatternMatch
  better found none = found
  better found (some later) = if rank_le (found.1) (later.1) then later else found

  -- `rules.iter().filter_map(match_pattern).max_by_key(rank)`
  unfoldable pub best_match : List Rule → Option (Rule × PatternMatch)
  unfolding better
  best_match [] = none
  best_match (rule ∷ rules) = elim (match_pattern (from rule) path) [
    | none ↦ best_match rules
    | some matched ↦ some (better (rule, matched) (best_match rules))
  ]

unfoldable pub apply_splat : Text → Option Text → Text
apply_splat target splat = replace target (text ":splat") (unwrap_or splat (text ""))

-- The query that `query.filter(|value| !value.is_empty())` keeps, as what is added to a location.
abbrev pub query_suffix : Option Text → Text
query_suffix none = []
query_suffix (some query) = if is_empty query then [] else b'?' ∷ query

unfoldable pub with_query : Text → Option Text → Text
with_query location query =
    if contains_char location b'?' then location else location ++ query_suffix query

abbrev pub redirect_from : RedirectRule → Text
redirect_from rule = rule.from

abbrev pub rewrite_from : RewriteRule → Text
rewrite_from rule = rule.from

unfoldable pub find_redirect : EdgeConfig → Text → Option Text → Option RedirectDecision
find_redirect config path query = elim (best_match redirect_from path config.redirects) [
  | none ↦ none
  | some (rule, matched) ↦ some (record {
    status = rule.status;
    location = with_query (apply_splat rule.to matched.splat) query;
  })
]

unfoldable pub resolve_rewrite : EdgeConfig → Text → Text
resolve_rewrite config path = elim (best_match rewrite_from path config.rewrites) [
  | none ↦ path
  | some (rule, matched) ↦ apply_splat rule.to matched.splat
]

unfoldable pub resolve_root_object : EdgeConfig → Text → Text
resolve_root_object config path =
    if not (ends_with path (text "/"))
    then path
    else trim_end_matches b'/' path ++ config.edge.root_object

unfoldable pub auto_index_candidate : Text → Text
auto_index_candidate path = trim_end_matches b'/' path ++ text "/index.html"
