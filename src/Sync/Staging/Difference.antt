-- ===== src/Sync/Staging/Difference.antt =====
-- A staged origin carries the difference from what was there before, src/repositories/sync.rs.
use rendermesh.Base.{◌≡◌, refl, ℕ, Option, Text, keys, Result, ok, err}
use rendermesh.Base.Actions.{Ends, Ends-follow, Ends-any}
use rendermesh.Freshness.{
  OriginFreshnessIndex, OriginFreshnessDiff, build_origin_index, diff_origin_indexes,
}
use rendermesh.ObjectPaths.{origin_dir}
use rendermesh.Sync.{
  FileSystem, RemoteStorage, SyncReport, StagedOriginSync, SyncError, path_checked, stored, tried,
}
use rendermesh.Sync.Staging.{
  staging_dir, prepare_staging_dir, clear_rest, download_each, stage_origin_dir, stage_origin_sync,
}
use rendermesh.Sync.Swap.{remove_dir_if_exists, cleaned}
use rendermesh.Templates.{changed_paths}

abbrev Whatever : {A Disk : Type 0} → A → Disk → Type 0
Whatever a disk = Unit

module _ {Disk : Type 0} (fs : FileSystem Disk) (root : Text) (fuel : ℕ) (storage : RemoteStorage)
    {Time : Type 0} (now : Time) (origin_id : Text)
    (previous : Option (OriginFreshnessIndex Time)) where
  -- The staged index belongs to the origin, and the difference is that from the previous index.
  abbrev pub IsStaged : StagedOriginSync Time → Disk → Type 0
  IsStaged staged disk = staged.diff ≡ diff_origin_indexes previous staged.index

  abbrev IsDifference : OriginFreshnessIndex Time × OriginFreshnessDiff × SyncReport → Disk → Type 0
  IsDifference (index, diff, report) disk = diff ≡ diff_origin_indexes previous index

  stage_origin_dir-Ends :
      (dir : Text) (disk : Disk)
      → Ends Whatever IsDifference
          (stage_origin_dir fs root fuel storage now origin_id dir previous disk)
  unfolding stage_origin_dir
  stage_origin_dir-Ends dir disk =
      Ends-follow Whatever Whatever IsDifference (tried dir (λ d. fs.create_dir_all d dir) disk) _
        (Ends-any (tried dir (λ d. fs.create_dir_all d dir) disk))
        (λ _ d1 _.
          Ends-follow Whatever Whatever IsDifference (d1, stored storage.list_objects) _
            (Ends-any (d1, stored storage.list_objects))
            (λ summaries d2 _.
              Ends-follow Whatever Whatever IsDifference
                (d2, path_checked (build_origin_index origin_id summaries now)) _
                (Ends-any (d2, path_checked (build_origin_index origin_id summaries now)))
                (λ index d3 _.
                  let diff = diff_origin_indexes previous index in
                  Ends-follow Whatever Whatever IsDifference
                    (download_each fs root fuel storage dir index 0 (changed_paths diff) d3) _
                    (Ends-any
                      (download_each fs root fuel storage dir index 0 (changed_paths diff) d3))
                    (λ downloaded d4 _.
                      Ends-follow Whatever Whatever IsDifference
                        (clear_rest fs root fuel storage dir (keys index.files) d4) _
                        (Ends-any (clear_rest fs root fuel storage dir (keys index.files) d4))
                        (λ _ d5 _. refl)))))

  cleaned-Ends :
      (staging : Text)
      (end : Disk × Result SyncError (OriginFreshnessIndex Time × OriginFreshnessDiff × SyncReport))
      → Ends Whatever IsDifference end
      → Ends Whatever IsDifference (cleaned fs staging end)
  cleaned-Ends staging (disk, ok a) h = h
  cleaned-Ends staging (disk, err error) h =
      Ends-follow Whatever Whatever IsDifference (remove_dir_if_exists fs staging disk) _
        (Ends-any (remove_dir_if_exists fs staging disk)) (λ _ d _. tt)

  pub stage_origin_sync-Ends :
      (disk : Disk)
      → Ends
          (λ _ _. Unit {0})
          IsStaged
          (stage_origin_sync fs root fuel storage now origin_id previous disk)
  unfolding stage_origin_sync
  stage_origin_sync-Ends disk =
      Ends-follow Whatever Whatever IsStaged (disk, path_checked (origin_dir root origin_id)) _
        (Ends-any (disk, path_checked (origin_dir root origin_id)))
        (λ dir d1 _.
          Ends-follow Whatever Whatever IsStaged
            (d1, path_checked (staging_dir fs root fuel storage origin_id)) _
            (Ends-any (d1, path_checked (staging_dir fs root fuel storage origin_id)))
            (λ staging d2 _.
              Ends-follow Whatever Whatever IsStaged
                (prepare_staging_dir fs root fuel storage dir staging d2) _
                (Ends-any (prepare_staging_dir fs root fuel storage dir staging d2))
                (λ _ d3 _.
                  Ends-follow Whatever IsDifference IsStaged
                    (cleaned fs staging
                      (stage_origin_dir fs root fuel storage now origin_id staging previous d3))
                    _
                    (cleaned-Ends staging
                      (stage_origin_dir fs root fuel storage now origin_id staging previous d3)
                      (stage_origin_dir-Ends staging d3))
                    (λ (index, diff, report) d4 h. h))))
