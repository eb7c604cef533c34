-- ===== src/Base/Fallible.antt =====
-- Results with an error type of the component's own, for the `Result`s of the source.
use mathlib.Core.Path.{◌≡◌, refl, subst}
use mathlib.Core.Logic.{◌⊎◌, ◌↔◌, inl, inr}
use rendermesh.Base.Lists.{All, All-map}
use mathlib.Core.Bool.{Bool, true, false}
use mathlib.Core.Option.{Option, none, some}
use mathlib.Core.List.{List, [], ◌∷◌}

-- What a fallible call of the source gives: its value, or the error that it returns early with.
pub data Result (E : Type 0) (A : Type 0) : Type 0 where
  err : E → Result E A
  ok : A → Result E A

-- The operator `?` in front of what comes next.
infixl 5 ◌>>=◌
abbrev pub ◌>>=◌ : {E A B : Type 0} (call : Result E A) (next : A → Result E B) → Result E B
err error >>= next = err error
ok value >>= next = next value

-- The same where the value is `()`.
infixl 5 ◌>>◌
abbrev pub ◌>>◌ : {E B : Type 0} (test : Result E (Unit {0})) (next : Result E B) → Result E B
test >> next = test >>= λ done. next

-- What holds of the value, if there is one.
abbrev pub IfOk : {E A : Type 0} → (A → Type 0) → Result E A → Type 0
IfOk P (ok a) = P a
IfOk P (err e) = Unit

-- `if test { return Err(e) }`
abbrev pub reject_if : {E : Type 0} → Bool → E → Result E (Unit {0})
reject_if true e = err e
reject_if false e = ok tt

-- `option.ok_or_else(|| e)`
abbrev pub ok_or : {E A : Type 0} → Option A → E → Result E A
ok_or (some a) e = ok a
ok_or none e = err e

-- A `for` loop whose body can only fail.
abbrev pub for_each : {E A : Type 0} → (A → Result E (Unit {0})) → List A → Result E (Unit {0})
for_each f [] = ok tt
for_each f (x ∷ xs) = let rest = for_each f xs in f x >>= λ _. rest

-- Where a call and what comes next succeed together, both did.
pub >>=-eq-ok :
    {E A B : Type 0} (call : Result E A) (next : A → Result E B) {b : B}
    → (call >>= next) ≡ ok b
    → (value : A) × (call ≡ ok value) × (next value ≡ ok b)
>>=-eq-ok (err error) next h = cc
>>=-eq-ok (ok value) next h = (value, refl, h)

pub Result-cases :
    {E A : Type 0} (r : Result E A) → ((a : A) × (r ≡ ok a)) ⊎ ((e : E) × (r ≡ err e))
Result-cases (ok a) = inl (a, refl)
Result-cases (err e) = inr (e, refl)

pub >>-eq-ok_iff :
    {E : Type 0} (m k : Result E (Unit {0})) → ((m >> k) ≡ ok tt) ↔ ((m ≡ ok tt) × (k ≡ ok tt))
>>-eq-ok_iff (ok a) k = (λ h. (refl, h), λ h. h.1)
>>-eq-ok_iff (err e) k = (λ h. cc, λ h. cc)

pub for_each_iff :
    {E A : Type 0} (f : A → Result E (Unit {0})) (xs : List A)
    → (for_each f xs ≡ ok tt) ↔ All (λ x. f x ≡ ok tt) xs
for_each_iff f [] = (λ h. tt, λ h. refl)
for_each_iff f (x ∷ xs) =
    let ih = for_each_iff f xs in
    let step = >>-eq-ok_iff (f x) (for_each f xs) in
    (λ h. let (p, q) = step.0 h in (p, ih.0 q), λ (p, q). step.1 (p, ih.1 q))

-- A loop accepts when each round accepts what the predicate says.
pub for_each-All :
    {E A : Type 0} (f : A → Result E (Unit {0})) (P : A → Type 0) (xs : List A)
    → ((x : A) → (f x ≡ ok tt) ↔ P x)
    → (for_each f xs ≡ ok tt) ↔ All P xs
for_each-All f P xs h = (
  λ e. All-map (λ x. f x ≡ ok tt) P xs (λ x. (h x).0) ((for_each_iff f xs).0 e),
  λ a. (for_each_iff f xs).1 (All-map P (λ x. f x ≡ ok tt) xs (λ x. (h x).1) a),
)

pub IfOk->>= :
    {E A B : Type 0} (P : A → Type 0) (Q : B → Type 0) (m : Result E A) (f : A → Result E B)
    → IfOk P m
    → ((a : A) → P a → IfOk Q (f a))
    → IfOk Q (m >>= f)
IfOk->>= P Q (ok a) f p h = h a p
IfOk->>= P Q (err e) f p h = tt

pub IfOk-any : {E A : Type 0} (m : Result E A) → IfOk (λ a. Unit) m
IfOk-any (ok a) = tt
IfOk-any (err e) = tt

pub IfOk-eq : {E A : Type 0} (P : A → Type 0) {m : Result E A} {a : A} → IfOk P m → m ≡ ok a → P a
IfOk-eq P h e = subst (IfOk P) e h

-- The same for a result that may hold nothing.
pub IfOk-Option :
    {E A B : Type 0} (P : Option A → Type 0) (Q : B → Type 0) (m : Result E (Option A))
    (f : Option A → Result E B)
    → IfOk P m
    → (P none → IfOk Q (f none))
    → ((a : A) → P (some a) → IfOk Q (f (some a)))
    → IfOk Q (m >>= f)
IfOk-Option P Q (ok none) f p h k = h p
IfOk-Option P Q (ok (some a)) f p h k = k a p
IfOk-Option P Q (err e) f p h k = tt
