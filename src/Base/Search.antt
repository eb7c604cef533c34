-- ===== src/Base/Search.antt =====
-- Prefixes, suffixes, splitting and replacing in a text, with the facts that characterise them.
use Prim.Native.Nat.{ℕ, zero, suc, ◌-◌}
use mathlib.Core.Path.{◌≡⟨◌⟩◌, ◌∎, ◌≡◌, refl, sym, ap, ◌∙◌}
use mathlib.Core.Logic.{◌↔◌, inl, inr}
use mathlib.Core.Bool.{Bool, true, false, ◌&&◌, ◌||◌, not}
use mathlib.Core.Option
use mathlib.Core.Option.{Option, none, some, some-injective}
use mathlib.Core.List.{List, [], ◌∷◌, ◌++◌, reverse, reverse-append, reverse-reverse}
use native.Mathlib.Omega.{arith}
use rendermesh.Base.Tests.{Option-cases, ◌==◌, if◌then◌else◌, is_some, ==_iff}
use rendermesh.Base.Lists.{length, all, any}
use rendermesh.Base.Strings.{Text}

-- `s.strip_prefix(p)`
unfoldable pub strip_prefix : Text → Text → Option Text
strip_prefix s [] = some s
strip_prefix [] (p ∷ ps) = none
strip_prefix (c ∷ s) (p ∷ ps) = if c == p then strip_prefix s ps else none

-- `s.strip_suffix(p)`
unfoldable pub strip_suffix : Text → Text → Option Text
unfolding strip_prefix
strip_suffix s p = Option.map reverse (strip_prefix (reverse s) (reverse p))

unfoldable pub starts_with : Text → Text → Bool
unfolding strip_prefix
starts_with s p = is_some (strip_prefix s p)

unfoldable pub ends_with : Text → Text → Bool
unfolding strip_suffix
ends_with s p = is_some (strip_suffix s p)

-- `s.contains(p)` for a string `p`
unfoldable pub contains : Text → Text → Bool
unfolding starts_with
contains [] p = starts_with [] p
contains (c ∷ s) p = starts_with (c ∷ s) p || contains s p

-- `s.contains(c)` for a character `c`
unfoldable pub contains_char : Text → ℕ → Bool
contains_char s c = any (λ d. d == c) s

abbrev pub push_front : ℕ → List Text → List Text
push_front c [] = (c ∷ []) ∷ []
push_front c (part ∷ parts) = (c ∷ part) ∷ parts

-- `s.split(c)`
unfoldable pub split : ℕ → Text → List Text
split c [] = [] ∷ []
split c (d ∷ s) = let rest = split c s in if d == c then [] ∷ rest else push_front d rest

-- `s.rsplit_once(c)`: split at the last occurrence.
unfoldable pub rsplit_once : ℕ → Text → Option (Text × Text)
rsplit_once c [] = none
rsplit_once c (d ∷ s) = elim (rsplit_once c s) [
  | some (before, after) ↦ some (d ∷ before, after)
  | none ↦ if d == c then some ([], s) else none
]

-- `s.replace(pat, to)` for a non-empty `pat`; the number is how much of a match is still skipped.
unfoldable pub replace_from : Text → Text → ℕ → Text → Text
unfolding starts_with
replace_from pat to skip [] = []
replace_from pat to (suc skip) (c ∷ s) = replace_from pat to skip s
replace_from pat to zero (c ∷ s) =
    let next = replace_from pat to (length pat - 1) s in
    let kept = replace_from pat to zero s in
    if starts_with (c ∷ s) pat then to ++ next else c ∷ kept

unfoldable pub replace : Text → Text → Text → Text
unfolding replace_from
replace s pat to = replace_from pat to zero s

pub strip_prefix-eq-some : (s p r : Text) → strip_prefix s p ≡ some r → s ≡ p ++ r
unfolding strip_prefix
strip_prefix-eq-some s [] r h = cc
strip_prefix-eq-some [] (p ∷ ps) r h = cc
strip_prefix-eq-some (c ∷ s) (p ∷ ps) r h = ground (arith, strip_prefix-eq-some s ps r)

pub strip_prefix-append : (p r : Text) → strip_prefix (p ++ r) p ≡ some r
unfolding strip_prefix
strip_prefix-append [] r = refl
strip_prefix-append (c ∷ p) r = ground (arith, strip_prefix-append p r)

pub strip_prefix_of_eq : (s p r : Text) → s ≡ p ++ r → strip_prefix s p ≡ some r
strip_prefix_of_eq s p r e = ap (λ t. strip_prefix t p) e ∙ strip_prefix-append p r

pub strip_suffix-eq-some : (s p r : Text) → strip_suffix s p ≡ some r → s ≡ r ++ p
unfolding strip_suffix
strip_suffix-eq-some s p r h = elim (Option-cases (strip_prefix (reverse s) (reverse p))) [
  | inl none_found ↦ let bad : none ≡ some r = rw none_found at h in cc
  | inr (q, found) ↦
      let same : some (reverse q) ≡ some r = rw found at h in
      s
      ≡⟨ sym (reverse-reverse s) ⟩ reverse (reverse s)
      ≡⟨ ap reverse {x = reverse s} (strip_prefix-eq-some (reverse s) (reverse p) q found) ⟩
        reverse (reverse p ++ q)
      ≡⟨ reverse-append (reverse p) q ⟩ reverse q ++ reverse (reverse p)
      ≡⟨ ap (λ t. reverse q ++ t) (reverse-reverse p) ⟩ reverse q ++ p
      ≡⟨ ap (λ t. t ++ p) (some-injective _ _ same) ⟩ r ++ p ∎
]

pub strip_suffix-append : (r p : Text) → strip_suffix (r ++ p) p ≡ some r
unfolding strip_suffix
strip_suffix-append r p =
    ap (λ t. Option.map reverse (strip_prefix t (reverse p))) (reverse-append r p)
    ∙ ap (Option.map reverse) (strip_prefix-append (reverse p) (reverse r))
    ∙ ap some (reverse-reverse r)

pub starts_with_iff : (s p : Text) → (starts_with s p ≡ true) ↔ ((r : Text) × (s ≡ p ++ r))
unfolding starts_with
starts_with_iff s p = (
  λ h. elim (Option-cases (strip_prefix s p)) [
    | inl e ↦ let bad : false ≡ true = rw e at h in cc
    | inr (r, e) ↦ (r, strip_prefix-eq-some s p r e)
  ],
  λ (r, e). ap (λ t. is_some (strip_prefix t p)) e ∙ ap is_some (strip_prefix-append p r),
)

pub ends_with_iff : (s p : Text) → (ends_with s p ≡ true) ↔ ((r : Text) × (s ≡ r ++ p))
unfolding ends_with
ends_with_iff s p = (
  λ h. elim (Option-cases (strip_suffix s p)) [
    | inl e ↦ let bad : false ≡ true = rw e at h in cc
    | inr (r, e) ↦ (r, strip_suffix-eq-some s p r e)
  ],
  λ (r, e). ap (λ t. is_some (strip_suffix t p)) e ∙ ap is_some (strip_suffix-append r p),
)

-- Without the separator a text is one part, and splitting at the last one fails.
pub rsplit_once-eq-none :
    (c : ℕ) (s : Text) → all (λ d. not (d == c)) s ≡ true → rsplit_once c s ≡ none
unfolding rsplit_once
rsplit_once-eq-none c [] h = refl
rsplit_once-eq-none c (d ∷ s) h = rw (rsplit_once-eq-none c s (ground arith)) (ground arith)

all-push_front :
    (p : ℕ → Bool) (d : ℕ) (parts : List Text)
    → all (all p) (push_front d parts) ≡ (p d && all (all p) parts)
all-push_front p d [] = ground arith
all-push_front p d (part ∷ parts) = ground arith

-- The parts of a split, with their separators, hold the text's characters.
pub all-split :
    (p : ℕ → Bool) (c : ℕ) (s : Text) → all (all p) (split c s) ≡ true → p c ≡ true → all p s ≡ true
unfolding split
all-split p c [] h sep = refl
all-split p c (d ∷ s) h sep =
    ground (arith, all-split p c s, all-push_front p d (split c s), ==_iff d c)

pub replace-eq_self : (s pat to : Text) → contains s pat ≡ false → replace s pat to ≡ s
unfolding replace contains
replace-eq_self [] pat to h = refl
replace-eq_self (c ∷ s) pat to h = ground (arith, replace-eq_self s pat to)

pub starts_with-char : (c d : ℕ) (s : Text) → starts_with (c ∷ s) (d ∷ []) ≡ (c == d)
unfolding starts_with
starts_with-char c d [] = ground arith
starts_with-char c d (e ∷ s) = ground arith
