-- ===== src/ObjectPaths.antt =====
-- Object keys and the paths of the local mirror: src/repositories/local_mirror.rs, and
-- `normalize_remote_key` and `object_path` of src/repositories/sync.rs.
pub mod Containment
pub mod Keys
use rendermesh.Base.{
  ℕ, ◌+◌, ◌-◌, ◌/◌, ◌%◌, Bool, true, false, not, ◌&&◌, ◌||◌, Option, none, some, List, [], ◌∷◌,
  ◌++◌, Text, text, all, any, is_empty, if◌then◌else◌, Result, ok, err, ◌>>=◌, ◌>>◌, reject_if,
}
use rendermesh.Base.{
  ◌==◌, ltb, leb, ◌===◌, trim, trim_start_matches, is_control, is_ascii_alphanumeric, strip_prefix,
  starts_with, Component, root_dir, cur_dir, parent_dir, normal, components, is_absolute, join,
  path_starts_with,
}

pub data PathError : Type 0 where
  invalid_origin_id invalid_object_path : Text → PathError
  escapes_origin_dir : PathError

abbrev pub metadata_dir_name : Text
metadata_dir_name = text ".rendermesh-meta"

-- The test of `validate_origin_id`, here and in src/services/manifest.rs.
unfoldable pub is_origin_id : Text → Bool
is_origin_id origin_id =
    not (is_empty origin_id)
    && all (λ ch. is_ascii_alphanumeric ch || ch == b'_' || ch == b'-') origin_id

unfoldable pub validate_origin_id : Text → Result PathError (Unit {0})
validate_origin_id origin_id =
    if is_origin_id origin_id then ok tt else err (invalid_origin_id origin_id)

-- `Component::ParentDir | Component::Prefix(_) | Component::RootDir`
unfoldable pub climbs : Component → Bool
climbs root_dir = true
climbs parent_dir = true
climbs cur_dir = false
climbs (normal part) = false

abbrev pub first_is_metadata : List Component → Bool
first_is_metadata (normal part ∷ cs) = part === metadata_dir_name
first_is_metadata _ = false

unfoldable pub is_reserved_metadata_key : Text → Bool
is_reserved_metadata_key path = first_is_metadata (components path)

-- The checks of `normalize_object_path` on the trimmed path without its leading slashes.
abbrev pub object_path_refused : Text → Bool
object_path_refused normalized =
    is_empty normalized
    || any is_control normalized
    || is_absolute normalized
    || any climbs (components normalized)
    || is_reserved_metadata_key normalized

unfoldable pub normalize_object_path : Text → Result PathError Text
normalize_object_path path =
    let normalized = trim_start_matches b'/' (trim path) in
    if object_path_refused normalized then err (invalid_object_path path) else ok normalized

-- `key.as_bytes().get(METADATA_DIR_NAME.len()) == Some(&b'/')`, or the key ends there.
abbrev pub ends_or_slash : Option Text → Bool
ends_or_slash none = false
ends_or_slash (some []) = true
ends_or_slash (some (c ∷ rest)) = c == b'/'

unfoldable pub normalize_remote_key : Text → Result PathError Text
normalize_remote_key key =
    if is_empty key || starts_with key (text "/") || any is_control key
    then err (invalid_object_path key)
    else if is_absolute key || any climbs (components key)
    then err (invalid_object_path key)
    else if ends_or_slash (strip_prefix key metadata_dir_name)
    then err (invalid_object_path key)
    else ok key

-- `LocalMirrorRepository::origin_dir`, for a mirror with this root.
unfoldable pub origin_dir : Text → Text → Result PathError Text
unfolding validate_origin_id
origin_dir root origin_id = validate_origin_id origin_id >>= λ _. ok (join root origin_id)

-- `LocalMirrorRepository::object_path`
unfoldable pub object_path : Text → Text → Text → Result PathError Text
object_path root origin_id path = do
  dir ← origin_dir root origin_id
  normalized ← normalize_object_path path
  let joined = join dir normalized
  if path_starts_with joined dir then ok joined else err escapes_origin_dir

-- `object_path` of sync.rs, below an origin directory.
unfoldable pub synced_object_path : Text → Text → Result PathError Text
synced_object_path dir path = do
  key ← normalize_remote_key path
  let joined = join dir key
  if path_starts_with joined dir then ok joined else err escapes_origin_dir

-- `HEX[n]`, for n below 16.
abbrev pub hex_digit : ℕ → ℕ
hex_digit n = if ltb n 10 then b'0' + n else b'a' + (n - 10)

-- `encode_hex`, on bytes
unfoldable pub encode_hex : List ℕ → Text
encode_hex [] = []
encode_hex (byte ∷ bytes) = hex_digit (byte / 16) ∷ hex_digit (byte % 16) ∷ encode_hex bytes

-- `&hash[..2]`. The digest is not empty, so the hash has two digits.
abbrev pub first_two : Text → Text
first_two (a ∷ b ∷ rest) = a ∷ b ∷ []
first_two _ = []

module _ (sha256 : Text → List ℕ) where
  -- `stable_key_hash`
  unfoldable pub stable_key_hash : Text → Text
  stable_key_hash key = encode_hex (sha256 key)

  unfoldable pub metadata_sidecar_path : Text → Text → Result PathError Text
  metadata_sidecar_path dir object_key = do
    normalized ← normalize_object_path object_key
    let hash = stable_key_hash normalized
    ok (join (join (join dir metadata_dir_name) (first_two hash)) (hash ++ text ".json"))
