-- ===== src/Freshness.antt =====
-- The index of an origin's files and the difference of two indexes, src/services/freshness.rs.
-- `Time` is the type of the instants at which an index is captured.
pub mod Changes
pub mod Index
use rendermesh.Base.{
  ℕ, Bool, true, false, not, ◌&&◌, ◌||◌, Option, none, some, List, [], ◌∷◌, Text, TextMap, get,
  insert, keys, contains_key, TextSet, member, add, collect_set, if◌then◌else◌, ◌==◌, ◌===◌, Result,
  ok, err, ◌>>=◌,
}
use rendermesh.ObjectPaths.{PathError, normalize_remote_key}

-- `RemoteObjectSummary` of src/repositories/sync.rs.
pub record RemoteObjectSummary : Type 0 where
  pub key : Text
  pub created_at : Option Text
  pub last_modified : Option Text
  pub size : ℕ
  pub etag : Option Text
  pub content_type : Option Text
  pub cache_control : Option Text

pub record OriginFileState (Time : Type 0) : Type 0 where
  pub path : Text
  pub created_at : Option Text
  pub last_modified : Option Text
  pub captured_at : Time
  pub size : ℕ
  pub etag : Option Text
  pub content_type : Option Text
  pub cache_control : Option Text

pub record OriginFreshnessIndex (Time : Type 0) : Type 0 where
  pub origin_id : Text
  pub captured_at : Time
  pub files : TextMap (OriginFileState Time)

pub record OriginFreshnessDiff : Type 0 where
  pub added : TextSet
  pub modified : TextSet
  pub removed : TextSet
  pub unchanged : TextSet

pub data FreshnessChange : Type 0 where
  added_path modified_path removed_path unchanged_path : FreshnessChange

unfoldable pub change_for : OriginFreshnessDiff → Text → Option FreshnessChange
change_for diff path =
    if member path diff.added
    then some added_path
    else if member path diff.modified
    then some modified_path
    else if member path diff.removed
    then some removed_path
    else if member path diff.unchanged
    then some unchanged_path
    else none

abbrev pub same_text : Option Text → Option Text → Bool
same_text none none = true
same_text none (some b) = false
same_text (some a) none = false
same_text (some a) (some b) = a === b

-- `OriginFreshnessDiff::default`
abbrev pub no_changes : OriginFreshnessDiff
no_changes = record { added = []; modified = []; removed = []; unchanged = [] }

module _ {Time : Type 0} where
  unfoldable pub same_source_state : OriginFileState Time → OriginFileState Time → Bool
  same_source_state left right =
      left.path === right.path
      && same_text left.created_at right.created_at
      && same_text left.last_modified right.last_modified
      && left.size == right.size
      && same_text left.etag right.etag
      && same_text left.content_type right.content_type
      && same_text left.cache_control right.cache_control

  abbrev pub state_of : Time → RemoteObjectSummary → Text → OriginFileState Time
  state_of captured_at summary path = record {
    path = path;
    created_at = summary.created_at;
    last_modified = summary.last_modified;
    captured_at = captured_at;
    size = summary.size;
    etag = summary.etag;
    content_type = summary.content_type;
    cache_control = summary.cache_control;
  }

  -- The loop of `build_origin_index`.
  unfoldable pub insert_files :
      Time
      → TextMap (OriginFileState Time)
      → List RemoteObjectSummary
      → Result PathError (TextMap (OriginFileState Time))
  insert_files captured_at files [] = ok files
  insert_files captured_at files (summary ∷ summaries) =
      normalize_remote_key summary.key >>= λ path.
      insert_files captured_at (insert path (state_of captured_at summary path) files) summaries

  unfoldable pub build_origin_index :
      Text → List RemoteObjectSummary → Time → Result PathError (OriginFreshnessIndex Time)
  unfolding insert_files
  build_origin_index origin_id summaries captured_at =
      insert_files captured_at [] summaries >>= λ files.
      ok (record { origin_id = origin_id; captured_at = captured_at; files = files })

  -- One round of the loop over the next files, with the previous file of the path.
  abbrev pub record_file :
      OriginFreshnessDiff
      → Text
      → OriginFileState Time
      → Option (OriginFileState Time)
      → OriginFreshnessDiff
  record_file diff path next_file none = record diff { added = add path diff.added }
  record_file diff path next_file (some previous_file) =
      if same_source_state previous_file next_file
      then record diff { unchanged = add path diff.unchanged }
      else record diff { modified = add path diff.modified }

  unfoldable pub record_files :
      TextMap (OriginFileState Time)
      → OriginFreshnessDiff
      → TextMap (OriginFileState Time)
      → OriginFreshnessDiff
  record_files previous diff [] = diff
  record_files previous diff ((path, next_file) ∷ files) =
      record_files previous (record_file diff path next_file (get path previous)) files

  unfoldable pub record_removed :
      TextMap (OriginFileState Time) → OriginFreshnessDiff → List Text → OriginFreshnessDiff
  record_removed next diff [] = diff
  record_removed next diff (path ∷ paths) =
      record_removed next
        (if not (contains_key path next)
          then record diff { removed = add path diff.removed }
          else diff)
        paths

  unfoldable pub diff_origin_indexes :
      Option (OriginFreshnessIndex Time) → OriginFreshnessIndex Time → OriginFreshnessDiff
  unfolding record_files record_removed collect_set
  diff_origin_indexes none next = record no_changes { added = collect_set [] (keys next.files) }
  diff_origin_indexes (some previous) next =
      record_removed next.files (record_files previous.files no_changes next.files)
        (keys previous.files)
