-- ===== src/Sync/Walks.antt =====
-- The loops of src/repositories/sync.rs over the files below a directory. The source keeps the
-- directories to visit on a stack; here each loop has fuel for the directories that it visits.
use rendermesh.Base.{
  ℕ, zero, suc, List, [], ◌∷◌, Text, TextSet, member, add, join, ◌===◌, if◌then◌else◌, Result, ok,
  err,
}
use rendermesh.Base.Actions.{Action, then_run, pure, checked}
use rendermesh.ObjectPaths.{metadata_dir_name}
use rendermesh.Sync.{
  FileSystem, IoError, not_found, other_io, DirEntry, EntryKind, directory, regular_file,
  other_kind, SyncError, io_failed, walk_out_of_fuel, tried, tried_if_exists,
}
use rendermesh.Sync.Objects.{relative_key, sidecar_of}

module _ {Disk : Type 0} (fs : FileSystem Disk) where
  -- `read_dir`, where a directory that is gone is skipped.
  abbrev pub entries_if_exists :
      Text → Result IoError (List DirEntry) → Result SyncError (List DirEntry)
  entries_if_exists dir (ok entries) = ok entries
  entries_if_exists dir (err not_found) = ok []
  entries_if_exists dir (err (other_io message)) = err (io_failed (other_io message) dir)

  module _ (visit : DirEntry → List Text → Action Disk SyncError (List Text)) where
    -- The inner loop; a visit gives the stack that it leaves.
    unfoldable pub visit_all : List DirEntry → List Text → Action Disk SyncError (List Text)
    visit_all [] stack = pure stack
    visit_all (entry ∷ entries) stack = then_run (visit entry stack) (visit_all entries)

    unfoldable pub walk : ℕ → List Text → Action Disk SyncError (Unit {0})
    unfolding visit_all
    walk fuel [] = pure tt
    walk zero (dir ∷ stack) = checked (err walk_out_of_fuel)
    walk (suc fuel) (dir ∷ stack) =
        then_run (λ disk. (disk, entries_if_exists dir (fs.read_dir disk dir)))
          (λ entries. then_run (visit_all entries stack) (walk fuel))

  -- A file of the mirror that is no remote object, with its sidecar.
  unfoldable pub remove_unlisted : Text → TextSet → Text → Action Disk SyncError (Unit {0})
  remove_unlisted dir remote_keys path = then_run (checked (relative_key dir path)) (λ key.
      if member key remote_keys
      then pure tt
      else then_run (tried path (λ disk. fs.remove_file disk path)) (λ _.
        then_run (sidecar_of fs dir key)
          (λ sidecar. tried_if_exists sidecar (λ disk. fs.remove_file disk sidecar))))

  abbrev pub visit_mirrored :
      Text → TextSet → EntryKind → Text → List Text → Action Disk SyncError (List Text)
  visit_mirrored dir remote_keys directory path stack =
      pure (if path === join dir metadata_dir_name then stack else path ∷ stack)
  visit_mirrored dir remote_keys regular_file path stack =
      then_run (remove_unlisted dir remote_keys path) (λ _. pure stack)
  visit_mirrored dir remote_keys other_kind path stack = pure stack

  unfoldable pub remove_deleted_objects : ℕ → Text → TextSet → Action Disk SyncError (Unit {0})
  unfolding walk remove_unlisted
  remove_deleted_objects fuel dir remote_keys =
      walk (λ entry. visit_mirrored dir remote_keys entry.kind entry.path) fuel (dir ∷ [])

  -- The sidecars of the keys.
  unfoldable pub expected_sidecars : Text → TextSet → List Text → Action Disk SyncError TextSet
  expected_sidecars dir expected [] = pure expected
  expected_sidecars dir expected (key ∷ keys) =
      then_run (sidecar_of fs dir key) (λ path. expected_sidecars dir (add path expected) keys)

  abbrev pub visit_sidecar :
      TextSet → EntryKind → Text → List Text → Action Disk SyncError (List Text)
  visit_sidecar expected directory path stack = pure (path ∷ stack)
  visit_sidecar expected regular_file path stack =
      if member path expected
      then pure stack
      else then_run (tried path (λ disk. fs.remove_file disk path)) (λ _. pure stack)
  visit_sidecar expected other_kind path stack = pure stack

  unfoldable pub remove_orphan_metadata_sidecars :
      ℕ → Text → TextSet → Action Disk SyncError (Unit {0})
  unfolding walk expected_sidecars
  remove_orphan_metadata_sidecars fuel dir remote_keys =
      then_run (expected_sidecars dir [] remote_keys) (λ expected.
        walk (λ entry. visit_sidecar expected entry.kind entry.path) fuel
          (join dir metadata_dir_name ∷ []))

  -- An entry is copied, or its directory created and put on the stack.
  abbrev pub copy_entry :
      EntryKind → Text → Text → List (Text × Text) → Action Disk SyncError (List (Text × Text))
  copy_entry directory path target stack =
      then_run (tried target (λ disk. fs.create_dir_all disk target))
        (λ _. pure ((path, target) ∷ stack))
  copy_entry regular_file path target stack =
      then_run (tried target (λ disk. fs.copy disk path target)) (λ _. pure stack)
  copy_entry other_kind path target stack = pure stack

  unfoldable pub copy_entries :
      Text → List DirEntry → List (Text × Text) → Action Disk SyncError (List (Text × Text))
  copy_entries target_dir [] stack = pure stack
  copy_entries target_dir (entry ∷ entries) stack =
      then_run (copy_entry entry.kind entry.path (join target_dir entry.file_name) stack)
        (copy_entries target_dir entries)

  unfoldable pub copy_stack : ℕ → List (Text × Text) → Action Disk SyncError (Unit {0})
  unfolding copy_entries
  copy_stack fuel [] = pure tt
  copy_stack zero (dirs ∷ stack) = checked (err walk_out_of_fuel)
  copy_stack (suc fuel) ((source_dir, target_dir) ∷ stack) =
      then_run (tried source_dir (λ disk. (disk, fs.read_dir disk source_dir)))
        (λ entries. then_run (copy_entries target_dir entries stack) (copy_stack fuel))

  unfoldable pub copy_dir_contents : ℕ → Text → Text → Action Disk SyncError (Unit {0})
  unfolding copy_stack
  copy_dir_contents fuel from to =
      then_run (tried to (λ disk. fs.create_dir_all disk to))
        (λ _. copy_stack fuel ((from, to) ∷ []))
