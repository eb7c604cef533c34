-- ===== src/Base/Actions.antt =====
-- Computations that pass a state on and may fail: what an `async` method of the source does to what
-- it shares with others.
use mathlib.Core.Path.{◌≡◌, refl}
use rendermesh.Base.Fallible.{Result, ok, err}

-- A computation on a state, with its error type.
abbrev pub Action : Type 0 → Type 0 → Type 0 → Type 0
Action S E A = S → S × Result E A

module _ {S E : Type 0} where
  abbrev pub follow : {A B : Type 0} → S × Result E A → (A → Action S E B) → S × Result E B
  follow (state, ok a) next = next a state
  follow (state, err e) next = (state, err e)

  -- The operator `?` in front of what comes next.
  abbrev pub then_run : {A B : Type 0} → Action S E A → (A → Action S E B) → Action S E B
  then_run run next state = follow (run state) next

  abbrev pub pure : {A : Type 0} → A → Action S E A
  pure a state = (state, ok a)

  -- A step that leaves the state alone.
  abbrev pub checked : {A : Type 0} → Result E A → Action S E A
  checked result state = (state, result)

  -- What holds at the end: of the error and the state if it fails, of the value and the state else.
  abbrev pub Ends : {A : Type 0} → (E → S → Type 0) → (A → S → Type 0) → S × Result E A → Type 0
  Ends F Q (state, ok a) = Q a state
  Ends F Q (state, err e) = F e state

  module _ {A B : Type 0} (F : E → S → Type 0) (P : A → S → Type 0) (Q : B → S → Type 0) where
    pub Ends-follow :
        (end : S × Result E A) (next : A → Action S E B)
        → Ends F P end
        → ((a : A) (state : S) → P a state → Ends F Q (next a state))
        → Ends F Q (follow end next)
    Ends-follow (state, ok a) next p k = k a state p
    Ends-follow (state, err e) next p k = p

  module _ {A : Type 0} (F : E → S → Type 0) where
    pub Ends-checked :
        (Q : A → S → Type 0) (result : Result E A) (state : S)
        → ((a : A) → result ≡ ok a → Q a state)
        → ((e : E) → F e state)
        → Ends F Q (state, result)
    Ends-checked Q (ok a) state good bad = good a refl
    Ends-checked Q (err e) state good bad = bad e

    pub Ends-map :
        (P Q : A → S → Type 0) (end : S × Result E A)
        → ((a : A) (state : S) → P a state → Q a state)
        → Ends F P end
        → Ends F Q end
    Ends-map P Q (state, ok a) k p = k a state p
    Ends-map P Q (state, err e) k p = p

  pub Ends-any : {A : Type 0} (end : S × Result E A) → Ends (λ _ _. Unit {0}) (λ _ _. Unit {0}) end
  Ends-any (state, ok a) = tt
  Ends-any (state, err e) = tt
