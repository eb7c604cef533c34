-- ===== src/Sync/Swap.antt =====
-- Putting a staged mirror in the place of the active one: `swap_origin_dir`, `remove_dir_if_exists`,
-- `activate_staged_origin` and `discard_staged_origin` of src/repositories/sync.rs.
pub mod Outcome
use rendermesh.Base.{Bool, true, false, Option, none, some, Text, Result, ok, err, if◌then◌else◌}
use rendermesh.Base.Actions.{Action, then_run, pure, checked}
use rendermesh.ObjectPaths.{origin_dir}
use rendermesh.Sync.{
  FileSystem, FileMetadata, IoError, SyncError, io_failed, StagedOriginSync, path_checked, tried,
  tried_if_exists,
}

-- `tokio::fs::metadata(path).await.is_ok()`
abbrev pub is_ok : {E A : Type 0} → Result E A → Bool
is_ok (ok a) = true
is_ok (err e) = false

module _ {Disk : Type 0} (fs : FileSystem Disk) where
  unfoldable pub remove_dir_if_exists : Text → Action Disk SyncError (Unit {0})
  remove_dir_if_exists path = tried_if_exists path (λ disk. fs.remove_dir_all disk path)

  abbrev pub create_parent : Option Text → Action Disk SyncError (Unit {0})
  create_parent none = pure tt
  create_parent (some parent) = tried parent (λ disk. fs.create_dir_all disk parent)

  -- What follows the rename of the staging directory: the backup is removed, or put back.
  unfoldable pub finish_swap :
      Bool → Text → Disk × Result IoError (Unit {0}) → Disk × Result SyncError (Unit {0})
  unfolding remove_dir_if_exists
  finish_swap had_origin dir (disk, ok done) = remove_dir_if_exists (fs.backup_dir dir) disk
  finish_swap false dir (disk, err error) = (disk, err (io_failed error dir))
  finish_swap true dir (disk, err error) =
      then_run (tried dir (λ now. fs.rename now (fs.backup_dir dir) dir))
        (λ _. checked (err (io_failed error dir))) disk

  unfoldable pub back_up : Bool → Text → Action Disk SyncError (Unit {0})
  back_up false dir = pure tt
  back_up true dir = tried (fs.backup_dir dir) (λ disk. fs.rename disk dir (fs.backup_dir dir))

  unfoldable pub replace_dir : Bool → Text → Text → Action Disk SyncError (Unit {0})
  unfolding back_up finish_swap
  replace_dir had_origin dir staging_dir =
      then_run (back_up had_origin dir)
        (λ _ disk. finish_swap had_origin dir (fs.rename disk staging_dir dir))

  unfoldable pub swap_origin_dir : Text → Text → Action Disk SyncError (Unit {0})
  unfolding replace_dir
  swap_origin_dir dir staging_dir =
      then_run (create_parent (fs.parent dir))
        (λ _ disk. replace_dir (is_ok (fs.metadata disk dir)) dir staging_dir disk)

  -- `if let Err(error) = … { remove_dir_if_exists(staging_dir)?; return Err(error) }`
  abbrev pub cleaned : {A : Type 0} → Text → Disk × Result SyncError A → Disk × Result SyncError A
  cleaned staging_dir (disk, ok a) = (disk, ok a)
  cleaned staging_dir (disk, err error) =
      then_run (remove_dir_if_exists staging_dir) (λ _. checked (err error)) disk

  unfoldable pub activate_staged_origin :
      {Time : Type 0} → Text → StagedOriginSync Time → Action Disk SyncError (Unit {0})
  unfolding swap_origin_dir remove_dir_if_exists
  activate_staged_origin root staged =
      then_run (checked (path_checked (origin_dir root staged.origin_id)))
        (λ dir disk. cleaned staged.staging_dir (swap_origin_dir dir staged.staging_dir disk))

  unfoldable pub discard_staged_origin :
      {Time : Type 0} → StagedOriginSync Time → Action Disk SyncError (Unit {0})
  unfolding remove_dir_if_exists
  discard_staged_origin staged = remove_dir_if_exists staged.staging_dir
