-- ===== src/Edge/Rules/Ranking.antt =====
-- Which rule a path selects, src/services/static_rules.rs: an exact rule before a wildcard, then
-- the longer prefix.
use rendermesh.Base.{
  ℕ, ◌≡◌, ◌↔◌, ◌⊎◌, refl, sym, subst, inl, inr, true, false, Option, none, some, List, [], ◌∷◌,
  ◌++◌, arith, All, All-map, All_at, Any, Text, text, ◌===◌, byte_len, Option-cases, Bool-cases,
  strip_prefix, strip_suffix, strip_prefix-eq-some, strip_suffix-eq-some,
}
use rendermesh.Edge.Rules.{
  wildcard, exact, PatternMatch, match_pattern, rank_le, better, best_match,
}

rank_le_refl : (a : PatternMatch) → rank_le a a ≡ true
unfolding rank_le
rank_le_refl a = ground arith

rank_le_trans :
    (a b c : PatternMatch) → rank_le a b ≡ true → rank_le b c ≡ true → rank_le a c ≡ true
unfolding rank_le
rank_le_trans a b c h k = ground arith

rank_le_total : (a b : PatternMatch) → rank_le a b ≡ false → rank_le b a ≡ true
unfolding rank_le
rank_le_total a b h = ground arith

-- The pattern is the path, with no splat, or a prefix and `*` where the path is that prefix and the
-- splat.
abbrev pub Matches : Text → Text → PatternMatch → Type 0
Matches pattern path m =
    ((pattern ≡ path) × (m.kind ≡ exact) × (m.splat ≡ none))
    ⊎ ((prefix : Text) × (rest : Text) × (pattern ≡ prefix ++ text "*")
        × (path ≡ prefix ++ rest)
        × (m.kind ≡ wildcard)
        × (m.specificity ≡ byte_len prefix)
        × (m.splat ≡ some rest))

pub match_pattern-Matches :
    (pattern path : Text) (m : PatternMatch)
    → match_pattern pattern path ≡ some m
    → Matches pattern path m
unfolding match_pattern
match_pattern-Matches pattern path m h = elim (Bool-cases (pattern === path)) [
  | inl same ↦ inl (ground arith, ground arith, ground arith)
  | inr other ↦ elim (Option-cases (strip_suffix pattern (text "*"))) [
    | inl e ↦ absurd (ground arith)
    | inr (prefix, e) ↦ elim (Option-cases (strip_prefix path prefix)) [
      | inl e' ↦ absurd (ground arith)
      | inr (rest, e') ↦ inr (
        prefix,
        rest,
        strip_suffix-eq-some pattern (text "*") prefix e,
        strip_prefix-eq-some path prefix rest e',
        ground arith,
        ground arith,
        ground arith,
      )
    ]
  ]
]

match_pattern_exact :
    (pattern path : Text) (m : PatternMatch)
    → pattern ≡ path
    → match_pattern pattern path ≡ some m
    → m.kind ≡ exact
unfolding match_pattern
match_pattern_exact pattern path m same h = ground arith

-- What the match does not fall behind.
abbrev pub OutrankedBy : PatternMatch → Option PatternMatch → Type 0
OutrankedBy m none = Unit
OutrankedBy m (some other) = rank_le other m ≡ true

OutrankedBy-trans :
    (a b : PatternMatch) (o : Option PatternMatch)
    → rank_le a b ≡ true
    → OutrankedBy a o
    → OutrankedBy b o
OutrankedBy-trans a b none h k = tt
OutrankedBy-trans a b (some c) h k = rank_le_trans c a b k h

module _ {Rule : Type 0} (from : Rule → Text) (path : Text) where
  pub record IsBest (rule : Rule) (m : PatternMatch) (rules : List Rule) : Type 0 where
    pub listed : Any (λ r. r ≡ rule) rules
    pub matched : match_pattern (from rule) path ≡ some m
    pub highest : All (λ r. OutrankedBy m (match_pattern (from r) path)) rules

  pub best_match-eq-none :
      (rules : List Rule)
      → best_match from path rules ≡ none
      → All (λ r. match_pattern (from r) path ≡ none) rules
  unfolding best_match
  best_match-eq-none [] h = tt
  best_match-eq-none (r ∷ rules) h = elim (Option-cases (match_pattern (from r) path)) [
    | inl e ↦ (e, best_match-eq-none rules (ground arith))
    | inr (m, e) ↦ absurd (ground arith)
  ]

  none_of_All :
      (rules : List Rule)
      → All (λ r. match_pattern (from r) path ≡ none) rules
      → best_match from path rules ≡ none
  unfolding best_match
  none_of_All [] h = refl
  none_of_All (r ∷ rules) (e, h) = rw (e, best_match) (none_of_All rules h)

  IsBest-first :
      (r : Rule) (n : PatternMatch) (rules : List Rule)
      → match_pattern (from r) path ≡ some n
      → All (λ q. OutrankedBy n (match_pattern (from q) path)) rules
      → IsBest r n (r ∷ rules)
  IsBest-first r n rules e h = record {
    listed = inl refl;
    matched = e;
    highest = (subst (OutrankedBy n) (sym e) (rank_le_refl n), h);
  }

  IsBest-later :
      (r rule : Rule) (m : PatternMatch) (rules : List Rule)
      → OutrankedBy m (match_pattern (from r) path)
      → IsBest rule m rules
      → IsBest rule m (r ∷ rules)
  IsBest-later r rule m rules h b = record {
    listed = inr b.listed;
    matched = b.matched;
    highest = (h, b.highest);
  }

  IsBest-better :
      (r : Rule) (n : PatternMatch) (rules : List Rule) (o : Option (Rule × PatternMatch))
      → match_pattern (from r) path ≡ some n
      → best_match from path rules ≡ o
      → ((rule : Rule) (m : PatternMatch) → o ≡ some (rule, m) → IsBest rule m rules)
      → IsBest (better from path (r, n) o).0 (better from path (r, n) o).1 (r ∷ rules)
  unfolding better
  IsBest-better r n rules none e found ih = IsBest-first r n rules e (
      All-map _ (λ q. OutrankedBy n (match_pattern (from q) path)) rules
        (λ q absent. subst (OutrankedBy n) (sym absent) tt) (best_match-eq-none rules found))
  IsBest-better r n rules (some (rule, m)) e found ih =
      let b = ih rule m refl in
      elim (Bool-cases (rank_le n m)) [
        | inl up ↦ rw up (IsBest-later r rule m rules (subst (OutrankedBy m) (sym e) up) b)
        | inr down ↦ rw down (
            IsBest-first r n rules e (
              All-map _ (λ q. OutrankedBy n (match_pattern (from q) path)) rules
                (λ q. OutrankedBy-trans m n (match_pattern (from q) path) (rank_le_total n m down))
                b.highest))
      ]

  pub best_match-IsBest :
      (rules : List Rule) (rule : Rule) (m : PatternMatch)
      → best_match from path rules ≡ some (rule, m)
      → IsBest rule m rules
  unfolding best_match
  best_match-IsBest [] rule m h = absurd (ground arith)
  best_match-IsBest (r ∷ rules) rule m h = elim (Option-cases (match_pattern (from r) path)) [
    | inl e ↦
        IsBest-later r rule m rules (subst (OutrankedBy m) (sym e) tt)
          (best_match-IsBest rules rule m (ground arith))
    | inr (n, e) ↦
        let o = best_match from path rules in
        let same : better from path (r, n) o ≡ (rule, m) = ground arith in
        subst (λ p. IsBest (p.0) (p.1) (r ∷ rules)) same
          (IsBest-better r n rules o e refl (best_match-IsBest rules))
  ]

  -- Whether and which rule is selected. No rule is selected exactly if none matches.
  pub best_match-eq-none_iff :
      (rules : List Rule)
      → (best_match from path rules ≡ none) ↔ All (λ r. match_pattern (from r) path ≡ none) rules
  best_match-eq-none_iff rules = (best_match-eq-none rules, none_of_All rules)

match_pattern_self :
    (pattern path : Text)
    → pattern ≡ path
    → match_pattern pattern path
      ≡ some (record { kind = exact; specificity = byte_len pattern; splat = none })
unfolding match_pattern
match_pattern_self pattern path same = ground arith

exact_of_rank :
    (k : ℕ) (m : PatternMatch)
    → rank_le (record { kind = exact; specificity = k; splat = none }) m ≡ true
    → m.kind ≡ exact
unfolding rank_le
exact_of_rank k m h = ground arith

Matches-exact :
    (pattern path : Text) (m : PatternMatch)
    → Matches pattern path m
    → m.kind ≡ exact
    → pattern ≡ path
Matches-exact pattern path m (inl (same, _, _)) e = same
Matches-exact pattern path m (inr (_, _, _, _, k, _, _)) e = absurd (ground arith)

module _ {Rule : Type 0} (from : Rule → Text) (path : Text) where
  -- A rule whose pattern is the path itself is beaten by no wildcard.
  pub best_match_exact :
      (rules : List Rule) (rule : Rule)
      → Any (λ r. r ≡ rule) rules
      → from rule ≡ path
      → (best : Rule) × (m : PatternMatch) × (best_match from path rules ≡ some (best, m))
        × Any (λ r. r ≡ best) rules
        × (from best ≡ path)
  best_match_exact rules rule listed same = elim (Option-cases (best_match from path rules)) [
    | inl e ↦
        let absent =
          All_at (λ r. match_pattern (from r) path ≡ none) rule rules
            (best_match-eq-none from path rules e) listed in
        let present = match_pattern_self (from rule) path same in absurd (ground arith)
    | inr ((best, m), e) ↦
        let b = best_match-IsBest from path rules best m e in
        let behind =
          All_at (λ r. OutrankedBy m (match_pattern (from r) path)) rule rules b.highest listed in
        let above = subst (OutrankedBy m) (match_pattern_self (from rule) path same) behind in
        let k = exact_of_rank (byte_len (from rule)) m above in
        (
          best,
          m,
          e,
          b.listed,
          Matches-exact (from best) path m (match_pattern-Matches (from best) path m b.matched) k,
        )
  ]
