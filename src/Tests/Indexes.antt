-- ===== src/Tests/Indexes.antt =====
-- Indexes of an origin's files at concrete listings.
use rendermesh.Base.{
  ℕ, ◌≡◌, ◌↔◌, ◌⊎◌, false, refl, Option, none, some, List, [], ◌∷◌, Text, text, get, All, NodupKeys,
  ok,
}
use rendermesh.Freshness.{
  RemoteObjectSummary, OriginFreshnessIndex, state_of, change_for, build_origin_index,
  diff_origin_indexes,
}
use rendermesh.Freshness.Changes.{IsClassified, change_between, files_of, diff_origin_indexes_lem}
use rendermesh.Refresh.{has_changes, validate_activation_barrier}
use rendermesh.Refresh.Barrier.{Moves, validate_activation_barrier_iff}
use rendermesh.Freshness.Index.{IsEntry, build_origin_index-Indexes}

abbrev listed : Text → Text → RemoteObjectSummary
listed key etag = record {
  key = key;
  created_at = none;
  last_modified = none;
  size = 7;
  etag = some etag;
  content_type = none;
  cache_control = none;
}

abbrev pub indexed : ℕ → Text → OriginFreshnessIndex ℕ
indexed captured_at etag = record {
  origin_id = text "docs";
  captured_at = captured_at;
  files =
      (text "a", state_of captured_at (listed (text "a") (text "1")) (text "a"))
      ∷ (text "b", state_of captured_at (listed (text "b") etag) (text "b"))
      ∷ [];
}

build_origin_index-Indexes_example :
    ((indexed 9 (text "2")).origin_id ≡ text "docs")
    × ((indexed 9 (text "2")).captured_at ≡ 9)
    × NodupKeys (indexed 9 (text "2")).files
    × All (IsEntry 9) (indexed 9 (text "2")).files
unfolding build_origin_index rendermesh.ObjectPaths.normalize_remote_key rendermesh.Base.starts_with
    rendermesh.Base.is_control rendermesh.Base.is_absolute rendermesh.Base.components
    rendermesh.Base.split rendermesh.Base.text_dec rendermesh.ObjectPaths.climbs
    rendermesh.Base.insert
build_origin_index-Indexes_example =
    build_origin_index-Indexes (text "docs")
      (listed (text "b") (text "2") ∷ listed (text "a") (text "1") ∷ []) 9 (indexed 9 (text "2"))
      refl

diff_origin_indexes_lem_example :
    IsClassified
      (diff_origin_indexes (some (indexed 5 (text "1"))) (indexed 9 (text "2")))
      (text "b")
      (get (text "b") (files_of (some (indexed 5 (text "1")))))
      (get (text "b") (indexed 9 (text "2")).files)
    × (change_for
          (diff_origin_indexes (some (indexed 5 (text "1"))) (indexed 9 (text "2")))
          (text "b")
        ≡ change_between
            (get (text "b") (files_of (some (indexed 5 (text "1")))))
            (get (text "b") (indexed 9 (text "2")).files))
unfolding get rendermesh.Base.text_dec
diff_origin_indexes_lem_example =
    diff_origin_indexes_lem (some (indexed 5 (text "1"))) (indexed 9 (text "2")) (text "b")
      (refl, (refl, tt))

validate_activation_barrier_iff_example :
    (validate_activation_barrier
        (some (indexed 5 (text "1")))
        (indexed 9 (text "2"))
        (diff_origin_indexes (some (indexed 5 (text "1"))) (indexed 9 (text "2")))
        (some (text "b"))
      ≡ ok tt)
    ↔ ((has_changes (diff_origin_indexes (some (indexed 5 (text "1"))) (indexed 9 (text "2")))
          ≡ false)
        ⊎ Moves
            (get (text "b") (files_of (some (indexed 5 (text "1")))))
            (get (text "b") (indexed 9 (text "2")).files))
unfolding get rendermesh.Base.text_dec
validate_activation_barrier_iff_example =
    validate_activation_barrier_iff (some (indexed 5 (text "1"))) (indexed 9 (text "2")) (text "b")
      (refl, (refl, tt))
