-- ===== src/ObjectPaths/Containment.antt =====
-- No object path leaves its origin's directory (src/repositories/local_mirror.rs,
-- src/repositories/sync.rs).
use rendermesh.Base.{
  ◌≡◌, ap, subst, ◌∙◌, true, false, [], ◌∷◌, ◌++◌, arith, Text, is_empty, ok, All,
}
use rendermesh.Base.{
  split, starts_with-char, components, interior, is_absolute, join, path_starts_with,
  components_start_with-append, components-join, components-Descends-interior, Descends,
  is_ascii_alphanumeric,
}
use rendermesh.ObjectPaths.{
  is_origin_id, normalize_object_path, normalize_remote_key, origin_dir, object_path,
  synced_object_path,
}
use rendermesh.ObjectPaths.Keys.{IsKey, normalize_object_path-IsKey, normalize_remote_key-IsKey}

is_origin_id-relative :
    (origin_id : Text) → is_origin_id origin_id ≡ true → is_absolute origin_id ≡ false
unfolding is_origin_id is_absolute is_ascii_alphanumeric
is_origin_id-relative [] h = cc
is_origin_id-relative (c ∷ s) h = rw starts_with-char (ground arith)

join-present : (base path : Text) → is_empty path ≡ false → is_empty (join base path) ≡ false
unfolding join
join-present [] path h = ground arith
join-present (c ∷ base) path h = ground arith

origin_dir-eq-ok :
    (root origin_id dir : Text)
    → origin_dir root origin_id ≡ ok dir
    → (is_origin_id origin_id ≡ true) × (dir ≡ join root origin_id)
unfolding origin_dir
origin_dir-eq-ok root origin_id dir h = ground arith

origin_dir-present :
    (root origin_id dir : Text) → origin_dir root origin_id ≡ ok dir → is_empty dir ≡ false
unfolding is_origin_id
origin_dir-present root origin_id dir h =
    let (valid, e) = origin_dir-eq-ok root origin_id dir h in
    ap is_empty e ∙ join-present root origin_id (ground arith)

-- Behind a directory a key only descends: no component of it is a root or a parent directory.
pub join-Descends :
    (dir key : Text)
    → is_empty dir ≡ false
    → IsKey key
    → (components (join dir key) ≡ components dir ++ interior (split b'/' key))
      × All Descends (interior (split b'/' key))
join-Descends dir key present k = (
  components-join dir key present k.relative,
  components-Descends-interior key k.relative k.descends,
)

path_starts_with-join :
    (dir key : Text) → is_empty dir ≡ false → IsKey key → path_starts_with (join dir key) dir ≡ true
unfolding path_starts_with
path_starts_with-join dir key present k =
    rw (components-join dir key present k.relative)
      (components_start_with-append (components dir) (interior (split b'/' key)))

-- If the origin id and the object path are valid, then the origin's object has a path: the source's
-- test for an escape is not taken. It is the normalised key joined to the origin's directory, and
-- its components are those of the directory followed by components that only descend.
pub object_path-Descends :
    (root origin_id path key : Text)
    → is_origin_id origin_id ≡ true
    → normalize_object_path path ≡ ok key
    → (object_path root origin_id path ≡ ok (join (join root origin_id) key))
      × (components (join (join root origin_id) key)
          ≡ components (join root origin_id) ++ interior (split b'/' key))
      × All Descends (interior (split b'/' key))
unfolding object_path origin_dir
object_path-Descends root origin_id path key valid h =
    let k = (normalize_object_path-IsKey path key h).1 in
    let found : origin_dir root origin_id ≡ ok (join root origin_id) = ground arith in
    let present = origin_dir-present root origin_id (join root origin_id) found in
    let inside = path_starts_with-join (join root origin_id) key present k in
    let (same, down) = join-Descends (join root origin_id) key present k in
    (rw (valid, h) (rw inside), same, down)

-- If a remote key is accepted and the directory is not empty, then the path that a synchronisation
-- writes to is the key joined to the directory, and its components are those of the directory
-- followed by components that only descend.
pub synced_object_path-Descends :
    (dir path key : Text)
    → is_empty dir ≡ false
    → normalize_remote_key path ≡ ok key
    → (synced_object_path dir path ≡ ok (join dir path))
      × (components (join dir path) ≡ components dir ++ interior (split b'/' path))
      × All Descends (interior (split b'/' path))
unfolding synced_object_path
synced_object_path-Descends dir path key present h =
    let (same, k) = normalize_remote_key-IsKey path key h in
    let k' : IsKey path = subst IsKey same k in
    let inside = path_starts_with-join dir path present k' in
    let (eq, down) = join-Descends dir path present k' in (rw (h, same) (rw inside), eq, down)
