-- ===== src/Refresh/Barrier.antt =====
-- When the activation barrier lets a deployment through, src/services/origin_refresh.rs.
use rendermesh.Base.{
  ◌≡◌, ◌⊎◌, ◌↔◌, inl, inr, refl, true, false, not, ◌&&◌, ◌||◌, Option, none, some, arith, Text, get,
  contains_key, NodupKeys, is_some, Bool-cases, ok,
}
use rendermesh.Freshness.{
  OriginFileState, OriginFreshnessIndex, OriginFreshnessDiff, added_path, modified_path,
  diff_origin_indexes,
}
use rendermesh.Freshness.Changes.{
  change_between, files_of, is_added, is_kept, IsClassified, diff_origin_indexes-IsClassified,
}
use rendermesh.Refresh.{has_changes, has_barrier, check_barrier, validate_activation_barrier}

module _ {Time : Type 0} where
  has_barrier-eq :
      (previous : Option (OriginFreshnessIndex Time)) (path : Text)
      → has_barrier previous path ≡ is_some (get path (files_of previous))
  unfolding files_of contains_key get
  has_barrier-eq none path = refl
  has_barrier-eq (some index) path = refl

  -- The path is new, or its file differs from the previous one.
  abbrev pub Moves : Option (OriginFileState Time) → Option (OriginFileState Time) → Type 0
  Moves o n = (change_between o n ≡ some added_path) ⊎ (change_between o n ≡ some modified_path)

  test_iff :
      (o n : Option (OriginFileState Time))
      → ((is_some n && not (is_some o && not (is_added o n || is_kept false o n))) ≡ true)
        ↔ Moves o n
  unfolding change_between
  test_iff none none = ground arith
  test_iff none (some n) = ground arith
  test_iff (some o) none = ground arith
  test_iff (some o) (some n) = ground arith

  check_barrier_iff :
      (previous : Option (OriginFreshnessIndex Time)) (next : OriginFreshnessIndex Time)
      (diff : OriginFreshnessDiff) (path : Text)
      → IsClassified diff path (get path (files_of previous)) (get path next.files)
      → (check_barrier previous next diff path ≡ ok tt)
        ↔ Moves (get path (files_of previous)) (get path next.files)
  unfolding check_barrier contains_key
  check_barrier_iff previous next diff path c = ground (
    arith,
    has_barrier-eq previous path,
    test_iff (get path (files_of previous)) (get path next.files),
    c.added,
    c.modified,
  )

  -- If no path stands twice in the next index, then a staged deployment passes the barrier of its
  -- origin exactly if nothing was added, modified or removed, or the barrier's own file is new or
  -- differs from the previous one.
  pub validate_activation_barrier_iff :
      (previous : Option (OriginFreshnessIndex Time)) (next : OriginFreshnessIndex Time)
      (path : Text)
      → NodupKeys next.files
      → (validate_activation_barrier previous next (diff_origin_indexes previous next) (some path)
          ≡ ok tt)
        ↔ ((has_changes (diff_origin_indexes previous next) ≡ false)
            ⊎ Moves (get path (files_of previous)) (get path next.files))
  unfolding validate_activation_barrier
  validate_activation_barrier_iff previous next path u =
      let diff = diff_origin_indexes previous next in
      let checks =
        check_barrier_iff previous next diff path
          (diff_origin_indexes-IsClassified previous next path u) in
      elim (Bool-cases (has_changes diff)) [
        | inl e ↦
            rw e (λ h. inr (checks.0 h), λ m. elim m [ inl f ↦ cc | inr moved ↦ checks.1 moved ])
        | inr e ↦ rw e (λ h. inl refl, λ m. refl)
      ]
