-- ===== src/Edge/Rules/Targets.antt =====
-- Where a path is sent, src/services/static_rules.rs: targets stay absolute, and a trailing slash
-- makes no difference to the automatic index.
use mathlib.Core.List.{reverse-append, reverse-cons}
use rendermesh.Base.{
  ◌≡◌, refl, sym, ap, subst, ◌∙◌, inl, inr, true, Option, some, [], ◌∷◌, ◌++◌, arith, All, All_at,
  reverse, Text, text, Bool-cases, starts_with, starts_with-char, ends_with, replace,
  trim_end_matches, contains_char, unwrap_or, ◌==◌, drop_while_last, zero, replace_from,
}
use rendermesh.Edge.{EdgeConfig}
use rendermesh.Edge.Config.WellFormed.{IsAbsolute, GoodRedirect, GoodRewrite}
use rendermesh.Edge.Rules.{
  RedirectDecision, find_redirect, resolve_rewrite, resolve_root_object, auto_index_candidate,
  apply_splat, with_query, query_suffix,
}
use rendermesh.Edge.Rules.Selection.{find_redirect_best, resolve_rewrite_best}

-- A path that begins with a slash.
abbrev pub Rooted : Text → Type 0
Rooted path = (rest : Text) × (path ≡ b'/' ∷ rest)

pub Rooted-of_starts_with : (path : Text) → starts_with path (text "/") ≡ true → Rooted path
unfolding starts_with
Rooted-of_starts_with [] h = cc
Rooted-of_starts_with (c ∷ path) h =
    (path, ap (λ d. d ∷ path) (let e = starts_with-char c b'/' path in ground arith))

apply_splat-Rooted : (to : Text) (splat : Option Text) → Rooted to → Rooted (apply_splat to splat)
unfolding apply_splat replace starts_with
apply_splat-Rooted to splat (rest, e) =
    let with_splat = replace_from (text ":splat") (unwrap_or splat (text "")) zero rest in
    (with_splat, ap (λ t. apply_splat t splat) e)

with_query-Rooted :
    (location : Text) (query : Option Text) → Rooted location → Rooted (with_query location query)
unfolding with_query
with_query-Rooted location query (rest, e) = elim (Bool-cases (contains_char location b'?')) [
  | inl h ↦ rw h (rest, e)
  | inr h ↦ rw h (rest ++ query_suffix query, ap (λ l. l ++ query_suffix query) e)
]

trim_end_matches-Rooted :
    (path tail : Text) → Rooted path → Rooted tail → Rooted (trim_end_matches b'/' path ++ tail)
unfolding trim_end_matches
trim_end_matches-Rooted path tail (rest, e) k =
    let turned : reverse path ≡ reverse rest ++ b'/' ∷ [] = ap reverse e ∙ reverse-cons b'/' rest in
    elim (drop_while_last (◌==◌ b'/') (reverse rest) b'/' refl) [
      | inl gone ↦ rw (turned, gone) k
      | inr (ys, left) ↦ (
        reverse ys ++ tail,
        rw (turned, left) (ap (λ t. t ++ tail) (reverse-append ys (b'/' ∷ []))),
      )
    ]

-- One slash more at the end does not change the candidate.
pub auto_index_candidate_slash :
    (path : Text) → auto_index_candidate (path ++ text "/") ≡ auto_index_candidate path
unfolding auto_index_candidate trim_end_matches
auto_index_candidate_slash path = rw (reverse-append path (text "/"))

-- With well-formed rules, a rooted path is rewritten to a rooted path.
pub resolve_rewrite-Rooted :
    (config : EdgeConfig) (path : Text)
    → All GoodRewrite config.rewrites
    → Rooted path
    → Rooted (resolve_rewrite config path)
resolve_rewrite-Rooted config path good rooted = elim (resolve_rewrite_best config path) [
  | inl (same, _) ↦ subst Rooted (sym same) rooted
  | inr (rule, m, listed, _, _, e) ↦
      let (_, to) = All_at GoodRewrite rule config.rewrites good listed in
      subst Rooted (sym e)
        (apply_splat-Rooted rule.to m.splat (Rooted-of_starts_with rule.to to.rooted))
]

pub resolve_root_object-Rooted :
    (config : EdgeConfig) (path : Text)
    → IsAbsolute config.edge.root_object
    → Rooted path
    → Rooted (resolve_root_object config path)
unfolding resolve_root_object
resolve_root_object-Rooted config path root rooted = elim (Bool-cases (ends_with path (text "/"))) [
  | inl dir ↦ rw dir (
      trim_end_matches-Rooted path config.edge.root_object rooted
        (Rooted-of_starts_with config.edge.root_object root.rooted))
  | inr file ↦ rw file rooted
]

-- With well-formed redirects, every location begins with a slash.
pub find_redirect-Rooted :
    (config : EdgeConfig) (path : Text) (query : Option Text) (d : RedirectDecision)
    → All GoodRedirect config.redirects
    → find_redirect config path query ≡ some d
    → Rooted d.location
find_redirect-Rooted config path query d good h =
    let (rule, m, listed, _, _, _, e) = find_redirect_best config path query d h in
    let (_, to, _) = All_at GoodRedirect rule config.redirects good listed in
    subst Rooted (sym e) (
      with_query-Rooted _ query
        (apply_splat-Rooted rule.to m.splat (Rooted-of_starts_with rule.to to.rooted)))
