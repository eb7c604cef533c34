-- ===== src/Sync/Objects.antt =====
-- One object of a synchronisation, src/repositories/sync.rs.
use rendermesh.Base.{
  Bool, true, false, not, ◌&&◌, Option, none, some, List, [], ◌∷◌, ◌++◌, Text, length, is_some,
  ◌==◌, ◌===◌, if◌then◌else◌, Result, ok, err, ◌>>=◌, ◌>>◌, reject_if, Component, normal,
  components, components_start_with,
}
use rendermesh.Base.Actions.{Action, then_run, pure, checked}
use rendermesh.Freshness.{OriginFileState, RemoteObjectSummary, same_text}
use rendermesh.Mirror.{Read, content, absent, unreadable, ObjectMetadata, no_metadata}
use rendermesh.ObjectPaths.{normalize_remote_key, synced_object_path, metadata_sidecar_path}
use rendermesh.Sync.{
  FileSystem, FileMetadata, IoError, not_found, other_io, RemoteObject, SyncError, io_failed,
  outside_origin_dir, metadata_unparsed, other_key, size_changed, etag_changed,
  last_modified_changed, path_checked, tried,
}

unfoldable pub validate_downloaded_object :
    {Time : Type 0} → Text → OriginFileState Time → RemoteObject → Result SyncError (Unit {0})
validate_downloaded_object key summary object = do
  downloaded_key ← path_checked (normalize_remote_key object.key)
  reject_if (not (downloaded_key === key)) (other_key key)
  reject_if (not (length object.body == summary.size)) (size_changed key)
  reject_if (is_some summary.etag && not (same_text object.etag summary.etag)) (etag_changed key)
  reject_if
      (is_some summary.last_modified && not (same_text object.last_modified summary.last_modified))
      (last_modified_changed key)

unfoldable pub optional_field_matches : Option Text → Option Text → Bool
optional_field_matches local none = true
optional_field_matches local (some remote) = same_text local (some remote)

-- The parts of a relative path; a part that is no name is empty.
abbrev part_of : Component → Text
part_of (normal part) = part
part_of _ = []

abbrev slash_joined : List Component → Text
slash_joined [] = []
slash_joined (c ∷ []) = part_of c
slash_joined (c ∷ d ∷ cs) = part_of c ++ (b'/' ∷ slash_joined (d ∷ cs))

abbrev behind : List Component → List Component → List Component
behind cs [] = cs
behind [] (d ∷ ds) = []
behind (c ∷ cs) (d ∷ ds) = behind cs ds

-- `relative_key`
unfoldable pub relative_key : Text → Text → Result SyncError Text
relative_key dir path =
    if components_start_with (components path) (components dir)
    then path_checked
        (normalize_remote_key (slash_joined (behind (components path) (components dir))))
    else err (outside_origin_dir path)

module _ {Disk : Type 0} (fs : FileSystem Disk) where
  -- The directory of a file is created where there is one.
  abbrev pub create_dir_of : Text → Action Disk SyncError (Unit {0})
  create_dir_of path = elim (fs.parent path) [
    | none ↦ pure tt
    | some parent ↦ tried parent (λ disk. fs.create_dir_all disk parent)
  ]

  abbrev pub metadata_of_object : RemoteObject → ObjectMetadata
  metadata_of_object object = record {
    content_type = object.content_type;
    etag = object.etag;
    last_modified = object.last_modified;
    cache_control = object.cache_control;
  }

  abbrev pub sidecar_of : Text → Text → Action Disk SyncError Text
  sidecar_of dir key disk =
      (disk, path_checked (metadata_sidecar_path ((fs.files disk).sha256) dir key))

  unfoldable pub write_object : Text → RemoteObject → Action Disk SyncError (Unit {0})
  write_object dir object =
      then_run (checked (path_checked (normalize_remote_key object.key))) (λ key.
        then_run (checked (path_checked (synced_object_path dir key))) (λ path.
          then_run (create_dir_of path) (λ _.
            then_run (tried path (λ disk. fs.write disk path object.body)) (λ _.
              then_run (sidecar_of dir key) (λ sidecar. then_run (create_dir_of sidecar) (λ _.
                tried sidecar (λ disk.
                  fs.write disk sidecar (fs.metadata_json (metadata_of_object object)))))))))

  -- `read_sidecar_metadata`
  abbrev sidecar_metadata : Disk → Text → Read Text → Result SyncError ObjectMetadata
  sidecar_metadata disk path absent = ok no_metadata
  sidecar_metadata disk path unreadable = err (io_failed (other_io []) path)
  sidecar_metadata disk path (content source) = elim ((fs.files disk).parse_metadata source) [
    | some metadata ↦ ok metadata
    | none ↦ err (metadata_unparsed path)
  ]

  unfoldable pub read_sidecar_metadata : Text → Text → Action Disk SyncError ObjectMetadata
  read_sidecar_metadata dir key =
      then_run (sidecar_of dir key)
        (λ path disk. (disk, sidecar_metadata disk path ((fs.files disk).read_to_string path)))

  abbrev pub fields_match : RemoteObjectSummary → ObjectMetadata → Bool
  fields_match summary metadata =
      optional_field_matches metadata.etag summary.etag
      && optional_field_matches metadata.last_modified summary.last_modified
      && optional_field_matches metadata.content_type summary.content_type
      && optional_field_matches metadata.cache_control summary.cache_control

  abbrev matches_file :
      Text
      → Text
      → Text
      → RemoteObjectSummary
      → Result IoError FileMetadata
      → Action Disk SyncError Bool
  matches_file dir key path summary (err not_found) = pure false
  matches_file dir key path summary (err (other_io message)) =
      checked (err (io_failed (other_io message) path))
  matches_file dir key path summary (ok metadata) =
      if metadata.is_file && metadata.len == summary.size
      then then_run (read_sidecar_metadata dir key) (λ sidecar. pure (fields_match summary sidecar))
      else pure false

  unfoldable pub local_object_matches_summary :
      Text → Text → RemoteObjectSummary → Action Disk SyncError Bool
  unfolding optional_field_matches read_sidecar_metadata
  local_object_matches_summary dir key summary =
      then_run (checked (path_checked (synced_object_path dir key)))
        (λ path disk. matches_file dir key path summary (fs.metadata disk path) disk)
