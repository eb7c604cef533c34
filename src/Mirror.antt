-- ===== src/Mirror.antt =====
-- `LocalMirrorRepository::read_object`, src/repositories/local_mirror.rs. The file system, the
-- parser of metadata sidecars and the hash are parameters.
use rendermesh.Base.{ℕ, Bool, Option, none, some, List, Text, text, Result, ok, err, ◌>>=◌}
use rendermesh.ObjectPaths.{
  PathError, origin_dir, object_path, normalize_object_path, metadata_sidecar_path,
}

pub record ObjectMetadata : Type 0 where
  pub content_type : Option Text
  pub etag : Option Text
  pub last_modified : Option Text
  pub cache_control : Option Text

-- `ObjectMetadata::default`
abbrev pub no_metadata : ObjectMetadata
no_metadata = record {
  content_type = none;
  etag = none;
  last_modified = none;
  cache_control = none;
}

pub record LocalObject : Type 0 where
  pub body : List ℕ
  pub metadata : ObjectMetadata

-- What reading a file gives: its content, `ErrorKind::NotFound`, or another error.
pub data Read (A : Type 0) : Type 0 where
  content : A → Read A
  absent unreadable : Read A

-- The file system as one request sees it, with what is computed from its files.
pub record Files : Type 0 where
  pub is_dir : Text → Bool
  pub read : Text → Read (List ℕ)
  pub read_to_string : Text → Read Text
  pub parse_metadata : Text → Option ObjectMetadata
  pub sha256 : Text → List ℕ

pub data MirrorError : Type 0 where
  bad_path : PathError → MirrorError
  object_unreadable metadata_unreadable metadata_unparsed : Text → MirrorError

abbrev pub checked : {A : Type 0} → Result PathError A → Result MirrorError A
checked (ok a) = ok a
checked (err e) = err (bad_path e)

module _ (files : Files) where
  metadata_of : Text → Read Text → Result MirrorError ObjectMetadata
  metadata_of path absent = ok no_metadata
  metadata_of path unreadable = err (metadata_unreadable path)
  metadata_of path (content text) = elim (files.parse_metadata text) [
    | some metadata ↦ ok metadata
    | none ↦ err (metadata_unparsed path)
  ]

  unfoldable pub read_metadata : Text → Text → Result MirrorError ObjectMetadata
  unfolding metadata_of
  read_metadata dir object_key = do
    path ← checked (metadata_sidecar_path files.sha256 dir object_key)
    metadata_of path (files.read_to_string path)

  object_of : Text → Text → Text → Read (List ℕ) → Result MirrorError (Option LocalObject)
  object_of dir key path absent = ok none
  object_of dir key path unreadable = err (object_unreadable path)
  object_of dir key path (content body) = do
    metadata ← read_metadata dir key
    ok (some (record { body = body; metadata = metadata }))

  -- `read_object` of a mirror with this root. The normalised path is normalised once more by
  -- `object_path`.
  unfoldable pub read_object : Text → Text → Text → Result MirrorError (Option LocalObject)
  unfolding object_of
  read_object root origin_id path = do
    dir ← checked (origin_dir root origin_id)
    normalized ← checked (normalize_object_path path)
    file ← checked (object_path root origin_id normalized)
    object_of dir normalized file (files.read file)
