-- ===== src/Freshness/Changes.antt =====
-- The difference of two indexes says of every path what became of it, src/services/freshness.rs.
use rendermesh.Base.{
  ◌≡◌, refl, sym, ap, ◌∙◌, Bool, true, false, not, ◌&&◌, ◌||◌, Option, none, some, List, [], ◌∷◌,
  arith, Text, TextMap, get, keys, contains_key, NodupKeys, TextSet, member, add, member-add,
  member-collect_set, member-keys, if◌then◌else◌, ◌===◌, is_some, Bool-cases, inl, inr,
}
use rendermesh.Freshness.{
  OriginFileState, OriginFreshnessIndex, OriginFreshnessDiff, FreshnessChange, added_path,
  modified_path, removed_path, unchanged_path, change_for, no_changes, same_source_state,
  record_file, record_files, record_removed, diff_origin_indexes,
}

module _ {Time : Type 0} where
  -- What became of a path, by its previous and its next file.
  unfoldable pub change_between :
      Option (OriginFileState Time) → Option (OriginFileState Time) → Option FreshnessChange
  change_between none none = none
  change_between none (some next_file) = some added_path
  change_between (some previous_file) none = some removed_path
  change_between (some previous_file) (some next_file) =
      if same_source_state previous_file next_file then some unchanged_path else some modified_path

  abbrev pub is_added : Option (OriginFileState Time) → Option (OriginFileState Time) → Bool
  is_added none (some next_file) = true
  is_added none none = false
  is_added (some previous_file) next = false

  -- The path has both files, and their states are the same, or are not.
  abbrev pub is_kept : Bool → Option (OriginFileState Time) → Option (OriginFileState Time) → Bool
  is_kept same (some previous_file) (some next_file) =
      if same_source_state previous_file next_file then same else not same
  is_kept same none next = false
  is_kept same (some previous_file) none = false

  -- A set of the difference that the loop over the next files fills by a test on the two files.
  record Collects (set : OriginFreshnessDiff → TextSet)
      (test : Option (OriginFileState Time) → Option (OriginFileState Time) → Bool) : Type 0 where
    without_next : (o : Option (OriginFileState Time)) → test o none ≡ false
    each :
        (diff : OriginFreshnessDiff) (p path : Text) (next_file : OriginFileState Time)
        (o : Option (OriginFileState Time))
        → member p (set (record_file diff path next_file o))
          ≡ (member p (set diff) || p === path && test o (some next_file))

  added-Collects : Collects (λ diff. diff.added) is_added
  added-Collects = record {
    without_next = λ o. ground arith;
    each = λ diff p path next_file o. ground (arith, member-add p path diff.added);
  }

  modified-Collects : Collects (λ diff. diff.modified) (is_kept false)
  modified-Collects = record {
    without_next = λ o. ground arith;
    each = λ diff p path next_file o. ground (arith, member-add p path diff.modified);
  }

  unchanged-Collects : Collects (λ diff. diff.unchanged) (is_kept true)
  unchanged-Collects = record {
    without_next = λ o. ground arith;
    each = λ diff p path next_file o. ground (arith, member-add p path diff.unchanged);
  }

  member-record_files :
      (set : OriginFreshnessDiff → TextSet)
      (test : Option (OriginFileState Time) → Option (OriginFileState Time) → Bool)
      → Collects set test
      → (previous : TextMap (OriginFileState Time)) (p : Text) (diff : OriginFreshnessDiff)
        (files : TextMap (OriginFileState Time))
      → NodupKeys files
      → member p (set (record_files previous diff files))
        ≡ (member p (set diff) || test (get p previous) (get p files))
  unfolding record_files get
  member-record_files set test c previous p diff [] u =
      let never = c.without_next (get p previous) in ground arith
  member-record_files set test c previous p diff ((path, next_file) ∷ files) (fresh, u) =
      let o = get path previous in
      let rest =
        member-record_files set test c previous p (record_file diff path next_file o) files u in
      let here = c.each diff p path next_file o in
      let never = c.without_next (get p previous) in
      elim (Bool-cases (p === path)) [
        | inl e ↦
            let same : p ≡ path = ground arith in
            let absent : get p files ≡ none = ap (λ x. get x files) same ∙ fresh in
            let gone : test (get p previous) (get p files) ≡ false =
              ap (test (get p previous)) absent ∙ never in
            let there : test o (some next_file) ≡ test (get p previous) (some next_file) =
              ap (λ x. test (get x previous) (some next_file)) (sym same) in
            ground arith
        | inr e ↦ ground arith
      ]

  removed-record_files :
      (previous : TextMap (OriginFileState Time)) (diff : OriginFreshnessDiff)
      (files : TextMap (OriginFileState Time))
      → (record_files previous diff files).removed ≡ diff.removed
  unfolding record_files
  removed-record_files previous diff [] = refl
  removed-record_files previous diff ((path, next_file) ∷ files) =
      let o = get path previous in
      let rest = removed-record_files previous (record_file diff path next_file o) files in
      ground (arith)

  removed-record_removed :
      (next : TextMap (OriginFileState Time)) (p : Text) (diff : OriginFreshnessDiff)
      (paths : List Text)
      → member p (record_removed next diff paths).removed
        ≡ (member p diff.removed || member p paths && not (contains_key p next))
  unfolding record_removed member
  removed-record_removed next p diff [] = ground arith
  removed-record_removed next p diff (path ∷ paths) =
      let diff' =
        if not (contains_key path next)
        then record diff { removed = add path diff.removed }
        else diff in
      ground (arith, removed-record_removed next p diff' paths, member-add p path diff.removed)

  others-record_removed :
      (next : TextMap (OriginFileState Time)) (diff : OriginFreshnessDiff) (paths : List Text)
      → ((record_removed next diff paths).added ≡ diff.added)
        × ((record_removed next diff paths).modified ≡ diff.modified)
        × ((record_removed next diff paths).unchanged ≡ diff.unchanged)
  unfolding record_removed
  others-record_removed next diff [] = (refl, refl, refl)
  others-record_removed next diff (path ∷ paths) = elim (Bool-cases (contains_key path next)) [
    | inl e ↦ rw (e, record_removed) (others-record_removed next diff paths)
    | inr e ↦
        rw (e, record_removed)
          (others-record_removed next (record diff { removed = add path diff.removed }) paths)
  ]

  unfoldable pub files_of : Option (OriginFreshnessIndex Time) → TextMap (OriginFileState Time)
  files_of none = []
  files_of (some index) = index.files

  -- Which sets of the difference a path is in, by its previous and its next file.
  pub record IsClassified (diff : OriginFreshnessDiff) (p : Text)
      (o n : Option (OriginFileState Time)) : Type 0 where
    pub added : member p diff.added ≡ is_added o n
    pub modified : member p diff.modified ≡ is_kept false o n
    pub removed : member p diff.removed ≡ (is_some o && not (is_some n))
    pub unchanged : member p diff.unchanged ≡ is_kept true o n

  change_for-IsClassified :
      (diff : OriginFreshnessDiff) (p : Text) (o n : Option (OriginFileState Time))
      → IsClassified diff p o n
      → change_for diff p ≡ change_between o n
  unfolding change_for change_between
  change_for-IsClassified diff p none none c =
      ground (arith, c.added, c.modified, c.removed, c.unchanged)
  change_for-IsClassified diff p none (some n) c =
      ground (arith, c.added, c.modified, c.removed, c.unchanged)
  change_for-IsClassified diff p (some o) none c =
      ground (arith, c.added, c.modified, c.removed, c.unchanged)
  change_for-IsClassified diff p (some o) (some n) c =
      ground (arith, c.added, c.modified, c.removed, c.unchanged)

  diff_of_two-IsClassified :
      (previous next : OriginFreshnessIndex Time) (p : Text)
      → NodupKeys next.files
      → IsClassified
          (diff_origin_indexes (some previous) next)
          p
          (get p previous.files)
          (get p next.files)
  unfolding diff_origin_indexes member contains_key
  diff_of_two-IsClassified previous next p u =
      let found = record_files previous.files no_changes next.files in
      let (a, m, k) = others-record_removed next.files found (keys previous.files) in
      let none_yet = removed-record_files previous.files no_changes next.files in
      record {
        added =
            ap (member p) a
            ∙ member-record_files (λ d. d.added) is_added added-Collects previous.files p no_changes
                next.files u;
        modified =
            ap (member p) m
            ∙ member-record_files (λ d. d.modified) (is_kept false) modified-Collects previous.files
                p no_changes next.files u;
        removed =
            removed-record_removed next.files p found (keys previous.files)
            ∙ ground (arith, member-keys p previous.files);
        unchanged =
            ap (member p) k
            ∙ member-record_files (λ d. d.unchanged) (is_kept true) unchanged-Collects
                previous.files p no_changes next.files u;
      }

  first_diff-IsClassified :
      (next : OriginFreshnessIndex Time) (p : Text)
      → IsClassified (diff_origin_indexes none next) p none (get p next.files)
  unfolding diff_origin_indexes member contains_key
  first_diff-IsClassified next p = record {
    added = member-collect_set p [] (keys next.files) ∙ member-keys p next.files ∙ ground arith;
    modified = ground arith;
    removed = ground arith;
    unchanged = ground arith;
  }

  pub diff_origin_indexes-IsClassified :
      (previous : Option (OriginFreshnessIndex Time)) (next : OriginFreshnessIndex Time) (p : Text)
      → NodupKeys next.files
      → IsClassified
          (diff_origin_indexes previous next)
          p
          (get p (files_of previous))
          (get p next.files)
  unfolding files_of get
  diff_origin_indexes-IsClassified none next p u = first_diff-IsClassified next p
  diff_origin_indexes-IsClassified (some previous) next p u =
      diff_of_two-IsClassified previous next p u

  -- If no path stands twice in the next index, then the difference from the previous index, or from
  -- none, has a path in `added` exactly if only the next index has it, in `removed` exactly if only
  -- the previous one has it, in `unchanged` exactly if both have it with the same state, and in
  -- `modified` exactly if both have it with different states. So no path is in two of the sets, only
  -- a path of neither index is in none, and the difference says of every path the change that it had.
  pub diff_origin_indexes_lem :
      (previous : Option (OriginFreshnessIndex Time)) (next : OriginFreshnessIndex Time) (p : Text)
      → NodupKeys next.files
      → IsClassified
          (diff_origin_indexes previous next)
          p
          (get p (files_of previous))
          (get p next.files)
        × (change_for (diff_origin_indexes previous next) p
            ≡ change_between (get p (files_of previous)) (get p next.files))
  diff_origin_indexes_lem previous next p u =
      let classified = diff_origin_indexes-IsClassified previous next p u in
      (
        classified,
        change_for-IsClassified (diff_origin_indexes previous next) p (get p (files_of previous))
            (get p next.files) classified,
      )
