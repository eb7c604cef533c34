-- ===== src/Refresh.antt =====
-- The decision of src/services/origin_refresh.rs whether a staged origin may be activated.
pub mod Barrier
pub mod EdgeConfigs
pub mod Locks
pub mod Purge
pub mod Stores
pub mod Snapshot
pub mod Service
use rendermesh.Base.{
  Bool, true, false, not, ◌&&◌, ◌||◌, Option, none, some, Text, contains_key, is_empty, member,
  Result, ok, err, ◌>>=◌, ◌>>◌, reject_if, if◌then◌else◌,
}
use rendermesh.Freshness.{OriginFreshnessIndex, OriginFreshnessDiff}

-- The errors of `validate_activation_barrier`.
pub data BarrierError : Type 0 where
  barrier_missing barrier_unchanged : Text → BarrierError

unfoldable pub has_changes : OriginFreshnessDiff → Bool
has_changes diff =
    not (is_empty diff.added) || not (is_empty diff.modified) || not (is_empty diff.removed)

module _ {Time : Type 0} where
  -- `previous_index.is_some_and(…)`
  abbrev pub has_barrier : Option (OriginFreshnessIndex Time) → Text → Bool
  has_barrier none path = false
  has_barrier (some index) path = contains_key path index.files

  -- The checks for a barrier where there are changes.
  unfoldable pub check_barrier :
      Option (OriginFreshnessIndex Time)
      → OriginFreshnessIndex Time
      → OriginFreshnessDiff
      → Text
      → Result BarrierError (Unit {0})
  check_barrier previous_index next_index diff path = do
    let barrier_changed = member path diff.added || member path diff.modified
    reject_if (not (contains_key path next_index.files)) (barrier_missing path)
    reject_if (has_barrier previous_index path && not barrier_changed) (barrier_unchanged path)

  unfoldable pub validate_activation_barrier :
      Option (OriginFreshnessIndex Time)
      → OriginFreshnessIndex Time
      → OriginFreshnessDiff
      → Option Text
      → Result BarrierError (Unit {0})
  unfolding check_barrier
  validate_activation_barrier previous_index next_index diff none = ok tt
  validate_activation_barrier previous_index next_index diff (some path) =
      let checked = check_barrier previous_index next_index diff path in
      if has_changes diff then checked else ok tt
