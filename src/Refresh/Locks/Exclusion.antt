-- ===== src/Refresh/Locks/Exclusion.antt =====
-- Attempts to refresh, and the guards that they hold: `OriginRefreshLocks` and `OriginRefreshGuard`
-- of src/services/origin_refresh.rs.
use rendermesh.Base.{
  ◌≡◌, refl, ℕ, suc, ◌<◌, ◌≤◌, Bool, true, false, none, some, List, [], text_dec, ◌↔◌, ◌∷◌, Text,
  TextSet, member, member-add, member-discard, if◌then◌else◌, ◌===◌, arith,
}
use rendermesh.Refresh.Locks.{try_acquire, release}

-- The guards that are held for an origin.
unfoldable pub count : Text → List Text → ℕ
count origin_id [] = 0
count origin_id (other ∷ guards) =
    let rest = count origin_id guards in if origin_id === other then suc rest else rest

unfoldable pub drop_guard : Text → List Text → List Text
drop_guard origin_id [] = []
drop_guard origin_id (other ∷ guards) =
    let rest = drop_guard origin_id guards in if origin_id === other then guards else other ∷ rest

-- The set behind the lock, with the guards that are held.
pub record Held : Type 0 where
  pub active : TextSet
  pub guards : List Text

pub data Step : Held → Held → Type 0 where
  acquired :
      (held : Held) (origin_id : Text) (active : TextSet)
      → try_acquire held.active origin_id ≡ some active
      → Step held (record { active = active; guards = origin_id ∷ held.guards })
  refused :
      (held : Held) (origin_id : Text) → try_acquire held.active origin_id ≡ none → Step held held
  released :
      (held : Held) (origin_id : Text)
      → 0 < count origin_id held.guards
      → Step held (record {
        active = release held.active origin_id;
        guards = drop_guard origin_id held.guards;
      })

-- Any sequence of attempts and of dropped guards.
pub data Reachable : Held → Type 0 where
  start : Reachable (record { active = []; guards = [] })
  after : {held next : Held} → Reachable held → Step held next → Reachable next

abbrev pub as_count : Bool → ℕ
as_count true = 1
as_count false = 0

abbrev pub Keeps : Held → Type 0
Keeps held =
    (origin_id : Text) → count origin_id held.guards ≡ as_count (member origin_id held.active)

count-drop_guard :
    (origin_id : Text) (guards : List Text)
    → 0 < count origin_id guards
    → suc (count origin_id (drop_guard origin_id guards)) ≡ count origin_id guards
unfolding count drop_guard
count-drop_guard origin_id [] h = absurd (ground arith)
count-drop_guard origin_id (other ∷ guards) h = ground (arith, count-drop_guard origin_id guards)

count-drop_guard_other :
    (origin_id other : Text) (guards : List Text)
    → ¬ (other ≡ origin_id)
    → count other (drop_guard origin_id guards) ≡ count other guards
unfolding count drop_guard
count-drop_guard_other origin_id other [] h = refl
count-drop_guard_other origin_id other (first ∷ guards) h =
    ground (arith, count-drop_guard_other origin_id other guards h)

acquired-Keeps :
    (held : Held) (origin_id : Text) (active : TextSet)
    → try_acquire held.active origin_id ≡ some active
    → Keeps held
    → Keeps (record { active = active; guards = origin_id ∷ held.guards })
unfolding try_acquire count
acquired-Keeps held origin_id active e keeps other =
    ground (arith, keeps other, member-add other origin_id held.active)

released-Keeps :
    (held : Held) (origin_id : Text)
    → 0 < count origin_id held.guards
    → Keeps held
    → Keeps (record {
      active = release held.active origin_id;
      guards = drop_guard origin_id held.guards;
    })
unfolding release
released-Keeps held origin_id positive keeps other = elim (text_dec other origin_id) [
  | yes same ↦ rw same (
      ground (
        arith,
        keeps origin_id,
        count-drop_guard origin_id held.guards positive,
        member-discard origin_id origin_id held.active,
      ))
  | no different ↦ ground (
    arith,
    keeps other,
    count-drop_guard_other origin_id other held.guards different,
    member-discard other origin_id held.active,
  )
]

Step-Keeps : {held next : Held} → Step held next → Keeps held → Keeps next
Step-Keeps (acquired held origin_id active e) keeps = acquired-Keeps held origin_id active e keeps
Step-Keeps (refused held origin_id e) keeps = keeps
Step-Keeps (released held origin_id positive) keeps = released-Keeps held origin_id positive keeps

Reachable-Keeps : {held : Held} → Reachable held → Keeps held
unfolding count member
Reachable-Keeps start = λ origin_id. refl
Reachable-Keeps (after run step) = Step-Keeps step (Reachable-Keeps run)

try_acquire_iff :
    (active : TextSet) (origin_id : Text)
    → (try_acquire active origin_id ≡ none) ↔ (member origin_id active ≡ true)
unfolding try_acquire
try_acquire_iff active origin_id = ground arith

-- In every state that attempts and dropped guards lead to, at most one guard of an origin is held,
-- and an attempt for the origin is refused exactly while one is.
pub Reachable-exclusive :
    {held : Held} (origin_id : Text)
    → Reachable held
    → (count origin_id held.guards ≤ 1)
      × ((try_acquire held.active origin_id ≡ none) ↔ (count origin_id held.guards ≡ 1))
Reachable-exclusive {held} origin_id run =
    let keeps = Reachable-Keeps run origin_id in
    let refused = try_acquire_iff held.active origin_id in
    (ground arith, (λ e. ground arith, λ e. ground arith))
