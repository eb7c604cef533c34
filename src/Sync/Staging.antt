-- ===== src/Sync/Staging.antt =====
-- Staging the next mirror of an origin beside the active one, src/repositories/sync.rs.
pub mod Difference
use rendermesh.Base.{
  ℕ, suc, Bool, true, false, Option, none, some, List, [], ◌∷◌, ◌++◌, Text, text, TextSet, TextMap,
  get, keys, add, join, if◌then◌else◌, Result, ok, err, ok_or, ◌>>=◌,
}
use rendermesh.Base.Actions.{Action, then_run, pure, checked}
use rendermesh.Freshness.{
  RemoteObjectSummary, OriginFreshnessIndex, OriginFreshnessDiff, OriginFileState,
  build_origin_index, diff_origin_indexes,
}
use rendermesh.ObjectPaths.{PathError, origin_dir, normalize_remote_key}
use rendermesh.Sync.{
  FileSystem, RemoteObject, RemoteStorage, SyncReport, StagedOriginSync, SyncError,
  missing_from_index, path_checked, stored, tried,
}
use rendermesh.Sync.Objects.{validate_downloaded_object, write_object, local_object_matches_summary}
use rendermesh.Sync.Swap.{is_ok, remove_dir_if_exists, swap_origin_dir, cleaned}
use rendermesh.Sync.Walks.{
  remove_deleted_objects, remove_orphan_metadata_sidecars, copy_dir_contents,
}
use rendermesh.Templates.{changed_paths}

module _ {Disk : Type 0} (fs : FileSystem Disk) (root : Text) (fuel : ℕ)
    (storage : RemoteStorage) where
  -- `MirrorSyncService::staging_dir`
  unfoldable pub staging_dir : Text → Result PathError Text
  staging_dir origin_id = origin_dir root origin_id >>= λ dir.
      ok (join (join root (text ".rendermesh-sync")) (origin_id ++ fs.stamp))

  unfoldable pub prepare_staging_dir : Text → Text → Action Disk SyncError (Unit {0})
  prepare_staging_dir dir staging = then_run (remove_dir_if_exists fs staging) (λ _ disk.
      if is_ok (fs.metadata disk dir)
      then copy_dir_contents fs fuel dir staging disk
      else tried staging (λ now. fs.create_dir_all now staging) disk)

  -- What is done after the downloads, by both ways to synchronise.
  abbrev pub clear_rest : Text → TextSet → Action Disk SyncError (Unit {0})
  clear_rest dir remote_keys =
      then_run (remove_deleted_objects fs fuel dir remote_keys)
        (λ _. remove_orphan_metadata_sidecars fs fuel dir remote_keys)

  module _ {Time : Type 0} where
    -- One round of the loop over the changed paths.
    unfoldable pub download_changed :
        Text → OriginFreshnessIndex Time → Text → Action Disk SyncError (Unit {0})
    download_changed dir index key = then_run (checked (stored (storage.get_object key))) (λ object.
        then_run (checked (ok_or (get key index.files) (missing_from_index key))) (λ summary.
          then_run (checked (validate_downloaded_object key summary object))
            (λ _. write_object fs dir object)))

    unfoldable pub download_each :
        Text → OriginFreshnessIndex Time → ℕ → List Text → Action Disk SyncError ℕ
    unfolding download_changed
    download_each dir index downloaded [] = pure downloaded
    download_each dir index downloaded (key ∷ more) =
        then_run (download_changed dir index key)
          (λ _. download_each dir index (suc downloaded) more)

    unfoldable pub stage_origin_dir :
        Time
        → Text
        → Text
        → Option (OriginFreshnessIndex Time)
        → Action Disk SyncError (OriginFreshnessIndex Time × OriginFreshnessDiff × SyncReport)
    unfolding download_each
    stage_origin_dir now origin_id dir previous =
        then_run (tried dir (λ disk. fs.create_dir_all disk dir)) (λ _.
          then_run (checked (stored storage.list_objects)) (λ summaries.
            then_run (checked (path_checked (build_origin_index origin_id summaries now))) (λ index.
              let diff = diff_origin_indexes previous index in
              then_run (download_each dir index 0 (changed_paths diff)) (λ downloaded.
                then_run (clear_rest dir (keys index.files))
                  (λ _. pure (index, diff, record { downloaded = downloaded }))))))

    unfoldable pub stage_origin_sync :
        Time
        → Text
        → Option (OriginFreshnessIndex Time)
        → Action Disk SyncError (StagedOriginSync Time)
    unfolding staging_dir prepare_staging_dir stage_origin_dir
    stage_origin_sync now origin_id previous =
        then_run (checked (path_checked (origin_dir root origin_id))) (λ dir.
          then_run (checked (path_checked (staging_dir origin_id))) (λ staging.
            then_run (prepare_staging_dir dir staging) (λ _.
              then_run
                (λ disk. cleaned fs staging (stage_origin_dir now origin_id staging previous disk))
                (λ (index, diff, report). pure (record {
                  origin_id = origin_id;
                  staging_dir = staging;
                  index = index;
                  diff = diff;
                  report = report;
                })))))

  -- The loop of `sync_origin_dir`: what differs from the local object is downloaded.
  unfoldable pub sync_each :
      Text → TextSet → ℕ → List RemoteObjectSummary → Action Disk SyncError (TextSet × ℕ)
  sync_each dir remote_keys downloaded [] = pure (remote_keys, downloaded)
  sync_each dir remote_keys downloaded (summary ∷ summaries) =
      then_run (checked (path_checked (normalize_remote_key summary.key))) (λ key.
        then_run (local_object_matches_summary fs dir key summary) (λ same.
          then_run
            (if same
              then pure downloaded
              else then_run (checked (stored (storage.get_object summary.key)))
                  (λ object. then_run (write_object fs dir object) (λ _. pure (suc downloaded))))
            (λ total. sync_each dir (add key remote_keys) total summaries)))

  unfoldable pub sync_origin_dir : Text → Action Disk SyncError SyncReport
  unfolding sync_each
  sync_origin_dir dir = then_run (tried dir (λ disk. fs.create_dir_all disk dir)) (λ _.
      then_run (checked (stored storage.list_objects)) (λ summaries.
        then_run (sync_each dir [] 0 summaries) (λ (remote_keys, downloaded).
          then_run (clear_rest dir remote_keys) (λ _. pure (record { downloaded = downloaded })))))

  unfoldable pub sync_origin : Text → Action Disk SyncError SyncReport
  unfolding staging_dir prepare_staging_dir sync_origin_dir
  sync_origin origin_id = then_run (checked (path_checked (origin_dir root origin_id))) (λ dir.
      then_run (checked (path_checked (staging_dir origin_id))) (λ staging.
        then_run (prepare_staging_dir dir staging) (λ _.
          then_run (λ disk. cleaned fs staging (sync_origin_dir staging disk))
            (λ report.
              then_run (λ disk. cleaned fs staging (swap_origin_dir fs dir staging disk))
                (λ _. pure report)))))
