-- ===== src/Base/Maps.antt =====
-- `BTreeMap<String, V>` and `BTreeSet<String>`: association lists in the order of the keys.
-- Code point order is the byte order of UTF-8. A lookup law has no side condition on the order.
use mathlib.Core.Path.{◌≡◌, refl, ◌∙◌}
use mathlib.Core.Logic.{◌⊎◌, inl, inr}
use mathlib.Core.Bool.{Bool, true, false, ◌&&◌, ◌||◌, not}
use mathlib.Core.Option.{Option, none, some}
use mathlib.Core.List.{List, [], ◌∷◌, ◌++◌}
use native.Mathlib.Omega.{arith}
use rendermesh.Base.Tests.{ltb, ◌==◌ as code_eq, if◌then◌else◌, is_some}
use rendermesh.Base.Lists.{All, All-map}
use rendermesh.Base.Strings.{Text, ◌===◌}

-- The order of keys.
unfoldable pub text_lt : Text → Text → Bool
text_lt [] [] = false
text_lt [] (d ∷ t) = true
text_lt (c ∷ s) [] = false
text_lt (c ∷ s) (d ∷ t) = ltb c d || code_eq c d && text_lt s t

abbrev pub TextMap {ℓ} : Type ℓ → Type ℓ
TextMap V = List (Text × V)

module _ {ℓ} {V : Type ℓ} where
  unfoldable pub get : Text → TextMap V → Option V
  get k [] = none
  get k ((j, v) ∷ m) = if k === j then some v else get k m

  unfoldable pub remove : Text → TextMap V → TextMap V
  remove k [] = []
  remove k ((j, w) ∷ m) = let rest = remove k m in if k === j then rest else (j, w) ∷ rest

  -- A new key, in its place in the order.
  unfoldable pub place : Text → V → TextMap V → TextMap V
  unfolding text_lt
  place k v [] = (k, v) ∷ []
  place k v ((j, w) ∷ m) =
      let later = place k v m in if text_lt k j then (k, v) ∷ (j, w) ∷ m else (j, w) ∷ later

  -- The entry of the key, if there is one, is replaced.
  unfoldable pub insert : Text → V → TextMap V → TextMap V
  unfolding place remove
  insert k v m = place k v (remove k m)

  -- `contains_key`
  unfoldable pub contains_key : Text → TextMap V → Bool
  unfolding get
  contains_key k m = is_some (get k m)

  -- `a.extend(b)`
  unfoldable pub extend : TextMap V → TextMap V → TextMap V
  unfolding insert
  extend m [] = m
  extend m ((k, v) ∷ more) = extend (insert k v m) more

  unfoldable pub keys : TextMap V → List Text
  keys [] = []
  keys ((k, v) ∷ m) = k ∷ keys m

  pub get-nil : (k : Text) → get k [] ≡ none
  unfolding get
  get-nil k = refl

  pub get-cons :
      (k j : Text) (v : V) (m : TextMap V)
      → get k ((j, v) ∷ m) ≡ (if k === j then some v else get k m)
  unfolding get
  get-cons k j v m = refl

  pub get-remove :
      (j k : Text) (m : TextMap V) → get j (remove k m) ≡ (if j === k then none else get j m)
  unfolding get remove
  get-remove j k [] = ground arith
  get-remove j k ((i, w) ∷ m) = ground (arith, get-remove j k m)

  get-place :
      (j k : Text) (v : V) (m : TextMap V)
      → get k m ≡ none
      → get j (place k v m) ≡ (if j === k then some v else get j m)
  unfolding get place
  get-place j k v [] h = refl
  get-place j k v ((i, w) ∷ m) h = ground (arith, get-place j k v m)

  pub get-insert :
      (j k : Text) (v : V) (m : TextMap V)
      → get j (insert k v m) ≡ (if j === k then some v else get j m)
  unfolding insert
  get-insert j k v m =
      get-place j k v (remove k m) (get-remove k k m ∙ ground arith)
      ∙ ground (arith, get-remove j k m)

  -- What holds of the new entry and of all entries of other keys holds of all entries.
  module _ {κ} (P : Text × V → Type κ) where
    All-place : (k : Text) (v : V) (m : TextMap V) → P (k, v) → All P m → All P (place k v m)
    unfolding place
    All-place k v [] p h = (p, tt)
    All-place k v ((j, w) ∷ m) p (q, h) = ground (arith, All-place k v m p h)

    pub All-remove : (k : Text) (m : TextMap V) → All P m → All P (remove k m)
    unfolding remove
    All-remove k [] h = tt
    All-remove k ((j, w) ∷ m) (q, h) = ground (arith, All-remove k m h)

    pub All-insert : (k : Text) (v : V) (m : TextMap V) → P (k, v) → All P m → All P (insert k v m)
    unfolding insert
    All-insert k v m p h = All-place k v (remove k m) p (All-remove k m h)

    -- The same where only the entries of other keys are known to satisfy it.
    All-remove_other :
        (k : Text) (m : TextMap V) → All (λ e. ((k === e.0) ≡ true) ⊎ P e) m → All P (remove k m)
    unfolding remove
    All-remove_other k [] h = tt
    All-remove_other k ((j, w) ∷ m) (inl same, h) = rw same (All-remove_other k m h)
    All-remove_other k ((j, w) ∷ m) (inr p, h) = ground (arith, All-remove_other k m h)

    pub All-insert_other :
        (k : Text) (v : V) (m : TextMap V)
        → P (k, v)
        → All (λ e. ((k === e.0) ≡ true) ⊎ P e) m
        → All P (insert k v m)
    unfolding insert
    All-insert_other k v m p h = All-place k v (remove k m) p (All-remove_other k m h)

-- No key stands twice, as in every `BTreeMap`.
abbrev pub NodupKeys {ℓ} : {V : Type ℓ} → TextMap V → Type ℓ
NodupKeys [] = Unit
NodupKeys ((k, v) ∷ m) = (get k m ≡ none) × NodupKeys m

module _ {ℓ} {V : Type ℓ} where
  NodupKeys-remove : (k : Text) (m : TextMap V) → NodupKeys m → NodupKeys (remove k m)
  unfolding remove
  NodupKeys-remove k [] u = tt
  NodupKeys-remove k ((j, w) ∷ m) (fresh, u) =
      ground (arith, NodupKeys-remove k m u, get-remove j k m)

  NodupKeys-place :
      (k : Text) (v : V) (m : TextMap V) → get k m ≡ none → NodupKeys m → NodupKeys (place k v m)
  unfolding place get
  NodupKeys-place k v [] absent u = (refl, tt)
  NodupKeys-place k v ((j, w) ∷ m) absent (fresh, u) =
      ground (arith, NodupKeys-place k v m, get-place j k v m)

  pub NodupKeys-insert : (k : Text) (v : V) (m : TextMap V) → NodupKeys m → NodupKeys (insert k v m)
  unfolding insert
  NodupKeys-insert k v m u =
      NodupKeys-place k v (remove k m) (get-remove k k m ∙ ground arith) (NodupKeys-remove k m u)

  -- The later map wins.
  pub get-extend :
      (j : Text) (m more : TextMap V)
      → NodupKeys more
      → get j (extend m more) ≡ (elim (get j more) [ some v ↦ some v | none ↦ get j m ])
  unfolding extend get
  get-extend j m [] u = refl
  get-extend j m ((k, v) ∷ more) (fresh, u) =
      get-extend j (insert k v m) more u ∙ ground (arith, get-insert j k v m)

-- `BTreeSet<String>`
abbrev pub TextSet : Type 0
TextSet = List Text

unfoldable pub member : Text → TextSet → Bool
member k [] = false
member k (j ∷ s) = k === j || member k s

unfoldable pub add : Text → TextSet → TextSet
unfolding text_lt
add k [] = k ∷ []
add k (j ∷ s) =
    let later = add k s in if k === j then j ∷ s else if text_lt k j then k ∷ j ∷ s else j ∷ later

unfoldable pub discard : Text → TextSet → TextSet
discard k [] = []
discard k (j ∷ s) = let rest = discard k s in if k === j then rest else j ∷ rest

pub member-add : (j k : Text) (s : TextSet) → member j (add k s) ≡ (j === k || member j s)
unfolding member add
member-add j k [] = refl
member-add j k (i ∷ s) = ground (arith, member-add j k s)

pub member-discard :
    (j k : Text) (s : TextSet) → member j (discard k s) ≡ (not (j === k) && member j s)
unfolding member discard
member-discard j k [] = ground arith
member-discard j k (i ∷ s) = ground (arith, member-discard j k s)

pub member-keys {ℓ} : {V : Type ℓ} (k : Text) (m : TextMap V) → member k (keys m) ≡ contains_key k m
unfolding member keys contains_key
member-keys k [] = refl
member-keys k ((j, v) ∷ m) = ground (arith, member-keys k m)

-- What is collected into a set.
unfoldable pub collect_set : TextSet → List Text → TextSet
collect_set collected [] = collected
collect_set collected (path ∷ paths) = collect_set (add path collected) paths

pub member-collect_set :
    (p : Text) (collected : TextSet) (paths : List Text)
    → member p (collect_set collected paths) ≡ (member p collected || member p paths)
unfolding collect_set member
member-collect_set p collected [] = ground arith
member-collect_set p collected (path ∷ paths) =
    ground (arith, member-collect_set p (add path collected) paths, member-add p path collected)

pub member-append :
    (p : Text) (xs ys : List Text) → member p (xs ++ ys) ≡ (member p xs || member p ys)
unfolding member
member-append p [] ys = ground arith
member-append p (x ∷ xs) ys = ground (arith, member-append p xs ys)

pub All-member : (s : TextSet) → All (λ domain. member domain s ≡ true) s
unfolding member
All-member [] = tt
All-member (domain ∷ s) = (
  ground arith,
  All-map (λ other. member other s ≡ true) (λ other. member other (domain ∷ s) ≡ true) s
      (λ other m. ground arith) (All-member s),
)
