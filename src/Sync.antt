-- ===== src/Sync.antt =====
-- Synchronising the mirror of an origin, src/repositories/sync.rs: its data, and what it uses of the
-- operating system and of the remote storage, which are parameters.
pub mod Objects
pub mod Walks
pub mod Staging
pub mod Swap
use rendermesh.Base.{ℕ, Bool, true, false, Option, none, some, List, Text, Result, ok, err}
use rendermesh.Base.Actions.{Action}
use rendermesh.Freshness.{RemoteObjectSummary, OriginFreshnessIndex, OriginFreshnessDiff}
use rendermesh.Mirror.{Files, ObjectMetadata}
use rendermesh.ObjectPaths.{PathError}

pub record RemoteObject : Type 0 where
  pub key : Text
  pub body : List ℕ
  pub etag : Option Text
  pub last_modified : Option Text
  pub content_type : Option Text
  pub cache_control : Option Text

-- What the trait of the same name gives during one synchronisation; an error is its message.
pub record RemoteStorage : Type 0 where
  pub list_objects : Result Text (List RemoteObjectSummary)
  pub get_object : Text → Result Text RemoteObject

pub record SyncReport : Type 0 where
  pub downloaded : ℕ

pub record StagedOriginSync (Time : Type 0) : Type 0 where
  pub origin_id : Text
  pub staging_dir : Text
  pub index : OriginFreshnessIndex Time
  pub diff : OriginFreshnessDiff
  pub report : SyncReport

-- `ErrorKind::NotFound`, or another error with its message.
pub data IoError : Type 0 where
  not_found : IoError
  other_io : Text → IoError

pub data EntryKind : Type 0 where
  directory regular_file other_kind : EntryKind

pub record DirEntry : Type 0 where
  pub file_name : Text
  pub path : Text
  pub kind : EntryKind

pub record FileMetadata : Type 0 where
  pub is_file : Bool
  pub len : ℕ

-- The operations of `tokio::fs` on the state of the disk, with `Path::parent` and `Path::file_name`, the names that are
-- made with the clock, and the JSON of a metadata sidecar. The entries of a directory are read at
-- once.
pub record FileSystem (Disk : Type 0) : Type 0 where
  pub files : Disk → Files
  pub metadata : Disk → Text → Result IoError FileMetadata
  pub read_dir : Disk → Text → Result IoError (List DirEntry)
  pub create_dir_all : Disk → Text → Disk × Result IoError (Unit {0})
  pub remove_dir_all : Disk → Text → Disk × Result IoError (Unit {0})
  pub remove_file : Disk → Text → Disk × Result IoError (Unit {0})
  pub rename : Disk → Text → Text → Disk × Result IoError (Unit {0})
  pub copy : Disk → Text → Text → Disk × Result IoError (Unit {0})
  pub write : Disk → Text → List ℕ → Disk × Result IoError (Unit {0})
  pub parent : Text → Option Text
  pub file_name : Text → Option Text
  pub backup_dir : Text → Text
  pub stamp : Text
  pub metadata_json : ObjectMetadata → List ℕ

pub data SyncError : Type 0 where
  path_refused : PathError → SyncError
  storage_failed : Text → SyncError
  io_failed : IoError → Text → SyncError
  outside_origin_dir metadata_unparsed : Text → SyncError
  missing_from_index other_key size_changed etag_changed last_modified_changed : Text → SyncError
  walk_out_of_fuel : SyncError

abbrev pub path_checked : {A : Type 0} → Result PathError A → Result SyncError A
path_checked (ok a) = ok a
path_checked (err e) = err (path_refused e)

abbrev pub stored : {A : Type 0} → Result Text A → Result SyncError A
stored (ok a) = ok a
stored (err message) = err (storage_failed message)

-- `.with_context(…)` behind an operation on a path.
abbrev pub at_path : {A : Type 0} → Text → Result IoError A → Result SyncError A
at_path path (ok a) = ok a
at_path path (err e) = err (io_failed e path)

-- An operation on the disk, whose failure ends the computation.
abbrev pub tried :
    {Disk A : Type 0} → Text → (Disk → Disk × Result IoError A) → Action Disk SyncError A
tried path operation disk = ((operation disk).0, at_path path ((operation disk).1))

-- The same where the path need not exist.
abbrev pub unless_missing : Text → Result IoError (Unit {0}) → Result SyncError (Unit {0})
unless_missing path (ok done) = ok tt
unless_missing path (err not_found) = ok tt
unless_missing path (err (other_io message)) = err (io_failed (other_io message) path)

abbrev pub tried_if_exists :
    {Disk : Type 0}
    → Text
    → (Disk → Disk × Result IoError (Unit {0}))
    → Action Disk SyncError (Unit {0})
tried_if_exists path operation disk = ((operation disk).0, unless_missing path ((operation disk).1))
