-- ===== src/Base/Lists.antt =====
-- Lists under Boolean tests, and predicates over all or some of the elements.
use Prim.Native.Nat.{ℕ, suc, ◌+◌}
use mathlib.Core.Path.{◌≡◌, refl, ap, subst}
use mathlib.Core.Logic.{◌⊎◌, inl, inr}
use mathlib.Core.Bool.{Bool, true, false, ◌&&◌, ◌||◌, not}
use mathlib.Core.List.{List, [], ◌∷◌, ◌++◌, reverse, reverse-cons}
use native.Mathlib.Omega.{arith}
use rendermesh.Base.Tests.{if◌then◌else◌, Bool-cases}

module _ {ℓ} {A : Type ℓ} where
  abbrev pub length : List A → ℕ
  length [] = 0
  length (x ∷ xs) = suc (length xs)

  pub length-append : (xs ys : List A) → length (xs ++ ys) ≡ length xs + length ys
  length-append [] ys = omega arith
  length-append (x ∷ xs) ys = omega (arith, length-append xs ys)

  abbrev pub is_empty : List A → Bool
  is_empty [] = true
  is_empty (x ∷ xs) = false

  abbrev pub all : (A → Bool) → List A → Bool
  all p [] = true
  all p (x ∷ xs) = p x && all p xs

  abbrev pub any : (A → Bool) → List A → Bool
  any p [] = false
  any p (x ∷ xs) = p x || any p xs

  abbrev pub drop_while : (A → Bool) → List A → List A
  drop_while p [] = []
  drop_while p (x ∷ xs) = let rest = drop_while p xs in if p x then rest else x ∷ xs

  abbrev pub keep : (A → Bool) → List A → List A
  keep p [] = []
  keep p (x ∷ xs) = let rest = keep p xs in if p x then x ∷ rest else rest

  pub all-append : (p : A → Bool) (xs ys : List A) → all p (xs ++ ys) ≡ (all p xs && all p ys)
  all-append p [] ys = refl
  all-append p (x ∷ xs) ys = ground (arith, all-append p xs ys)

  pub all-reverse : (p : A → Bool) (xs : List A) → all p (reverse xs) ≡ all p xs
  all-reverse p [] = refl
  all-reverse p (x ∷ xs) = simp (reverse-cons, all-append) (ground (arith, all-reverse p xs))

  pub all_of_all :
      (p q : A → Bool) (xs : List A)
      → ((x : A) → p x ≡ true → q x ≡ true)
      → all p xs ≡ true
      → all q xs ≡ true
  all_of_all p q [] h e = refl
  all_of_all p q (x ∷ xs) h e = ground (arith, h x, all_of_all p q xs h)

  pub drop_while-eq_self_of_all-not :
      (p : A → Bool) (xs : List A) → all (λ x. not (p x)) xs ≡ true → drop_while p xs ≡ xs
  drop_while-eq_self_of_all-not p [] h = refl
  drop_while-eq_self_of_all-not p (x ∷ xs) h = ground arith

  pub all-drop_while :
      (p q : A → Bool) (xs : List A) → all q xs ≡ true → all q (drop_while p xs) ≡ true
  all-drop_while p q [] h = refl
  all-drop_while p q (x ∷ xs) h = ground (arith, all-drop_while p q xs)

module _ {ℓ κ} {A : Type ℓ} (P : A → Type κ) where
  -- Every element satisfies the predicate.
  abbrev pub All : List A → Type κ
  All [] = Unit
  All (x ∷ xs) = P x × All xs

  pub All-append : (xs ys : List A) → All xs → All ys → All (xs ++ ys)
  All-append [] ys h k = k
  All-append (x ∷ xs) ys (p, h) k = (p, All-append xs ys h k)

module _ {ℓ κ μ} {A : Type ℓ} (P : A → Type κ) (Q : A → Type μ) where
  pub All-map : (xs : List A) → ((x : A) → P x → Q x) → All P xs → All Q xs
  All-map [] f h = tt
  All-map (x ∷ xs) f (p, h) = (f x p, All-map xs f h)

module _ {ℓ} {A : Type ℓ} (P : A → Type 0) where
  -- Some element satisfies it; the position is kept.
  abbrev pub Any : List A → Type 0
  Any [] = ⊥
  Any (x ∷ xs) = P x ⊎ Any xs

module _ {ℓ} {A : Type ℓ} (P Q : A → Type 0) where
  pub Any-map : (xs : List A) → ((x : A) → P x → Q x) → Any P xs → Any Q xs
  Any-map [] f h = elim h [ ]
  Any-map (x ∷ xs) f (inl p) = inl (f x p)
  Any-map (x ∷ xs) f (inr h) = inr (Any-map xs f h)

module _ {A : Type 0} (P : A → Type 0) where
  -- What holds of every element holds of a listed one.
  pub All_at : (x : A) (xs : List A) → All P xs → Any (λ y. y ≡ x) xs → P x
  All_at x [] h m = elim m [ ]
  All_at x (y ∷ xs) (p, h) (inl e) = subst P e p
  All_at x (y ∷ xs) (p, h) (inr m) = All_at x xs h m

module _ {ℓ} {A : Type ℓ} where
  pub drop_while_last :
      (p : A → Bool) (xs : List A) (c : A)
      → p c ≡ true
      → (drop_while p (xs ++ c ∷ []) ≡ [])
        ⊎ ((ys : List A) × (drop_while p (xs ++ c ∷ []) ≡ ys ++ c ∷ []))
  drop_while_last p [] c h = inl (rw h)
  drop_while_last p (x ∷ xs) c h = elim (Bool-cases (p x)) [
    | inl hit ↦ rw hit (drop_while_last p xs c h)
    | inr miss ↦ rw miss (inr (x ∷ xs, refl))
  ]

pub Any-append : {A : Type 0} (P : A → Type 0) (xs ys : List A) → Any P ys → Any P (xs ++ ys)
Any-append P [] ys h = h
Any-append P (x ∷ xs) ys h = inr (Any-append P xs ys h)

pub append_assoc : {A : Type 0} (xs ys zs : List A) → (xs ++ ys) ++ zs ≡ xs ++ (ys ++ zs)
append_assoc [] ys zs = refl
append_assoc (x ∷ xs) ys zs = ap (λ r. x ∷ r) (append_assoc xs ys zs)
