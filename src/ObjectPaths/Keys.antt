-- ===== src/ObjectPaths/Keys.antt =====
-- What a normalised key is made of (src/repositories/local_mirror.rs, src/repositories/sync.rs).
use rendermesh.Base.{
  ◌≡◌, ◌≢◌, ◌↔◌, refl, ap, text_dec, false, List, [], ◌∷◌, arith, Text, any, is_empty, ok, All,
}
use rendermesh.Base.{
  is_control, Component, root_dir, cur_dir, parent_dir, normal, components, is_absolute, trim,
  trim_start_matches, Descends,
}
use rendermesh.ObjectPaths.{
  metadata_dir_name, first_is_metadata, climbs, object_path_refused, normalize_object_path,
  normalize_remote_key, is_reserved_metadata_key,
}

-- What both normalisations establish.
pub record IsKey (key : Text) : Type 0 where
  pub present : is_empty key ≡ false
  pub printable : any is_control key ≡ false
  pub relative : is_absolute key ≡ false
  pub descends : All Descends (components key)

All-Descends : (cs : List Component) → any climbs cs ≡ false → All Descends cs
unfolding climbs
All-Descends [] h = tt
All-Descends (root_dir ∷ cs) h = cc
All-Descends (parent_dir ∷ cs) h = cc
All-Descends (cur_dir ∷ cs) h = (tt, All-Descends cs h)
All-Descends (normal part ∷ cs) h = (tt, All-Descends cs h)

IsKey-of_tests :
    (key : Text)
    → is_empty key ≡ false
    → any is_control key ≡ false
    → is_absolute key ≡ false
    → any climbs (components key) ≡ false
    → IsKey key
IsKey-of_tests key a b c d = record {
  present = a;
  printable = b;
  relative = c;
  descends = All-Descends (components key) d;
}

-- The first part of the key is not the metadata directory.
abbrev pub BeginsElsewhere : Text → Type 0
BeginsElsewhere key = (rest : List Component) → components key ≢ normal metadata_dir_name ∷ rest

any-climbs : (cs : List Component) → All Descends cs → any climbs cs ≡ false
unfolding climbs
any-climbs [] h = refl
any-climbs (root_dir ∷ cs) (h, _) = absurd h
any-climbs (parent_dir ∷ cs) (h, _) = absurd h
any-climbs (cur_dir ∷ cs) (_, h) = any-climbs cs h
any-climbs (normal part ∷ cs) (_, h) = any-climbs cs h

first_is_metadata_iff :
    (cs : List Component)
    → (first_is_metadata cs ≡ false)
      ↔ ((rest : List Component) → cs ≢ normal metadata_dir_name ∷ rest)
first_is_metadata_iff [] = (λ h rest e. cc, λ h. refl)
first_is_metadata_iff (root_dir ∷ cs) = (λ h rest e. cc, λ h. refl)
first_is_metadata_iff (cur_dir ∷ cs) = (λ h rest e. cc, λ h. refl)
first_is_metadata_iff (parent_dir ∷ cs) = (λ h rest e. cc, λ h. refl)
first_is_metadata_iff (normal part ∷ cs) = (
  λ h rest e. let same : part ≡ metadata_dir_name = cc in absurd (ground arith),
  λ h. elim (text_dec part metadata_dir_name) [
    | yes same ↦ absurd (h cs (ap (λ t. normal t ∷ cs) same))
    | no different ↦ ground arith
  ],
)

pub normalize_object_path-IsKey :
    (path key : Text)
    → normalize_object_path path ≡ ok key
    → (key ≡ trim_start_matches b'/' (trim path)) × IsKey key × BeginsElsewhere key
unfolding normalize_object_path is_reserved_metadata_key
normalize_object_path-IsKey path key h =
    let same : key ≡ trim_start_matches b'/' (trim path) = ground arith in
    let allowed : object_path_refused key ≡ false = ground arith in
    (
      same,
      IsKey-of_tests key (ground arith) (ground arith) (ground arith) (ground arith),
      (first_is_metadata_iff (components key)).0 (ground arith),
    )

-- An object path is accepted with a key exactly if the key is the trimmed path without its leading
-- slashes, it is not empty, has no control character, is relative and only descends, and its first
-- part is not the metadata directory. A key that begins with `./` has `.` as its first part, so that
-- it is accepted also if the metadata directory comes next.
pub normalize_object_path_iff :
    (path key : Text)
    → (normalize_object_path path ≡ ok key)
      ↔ ((key ≡ trim_start_matches b'/' (trim path)) × IsKey key × BeginsElsewhere key)
unfolding normalize_object_path is_reserved_metadata_key
normalize_object_path_iff path key = (
  normalize_object_path-IsKey path key,
  λ (same, k, elsewhere).
      let descends = any-climbs (components key) k.descends in
      let unreserved = (first_is_metadata_iff (components key)).1 elsewhere in
      let allowed : object_path_refused key ≡ false =
        ground (arith, k.present, k.printable, k.relative) in
      rw (← same, allowed) refl,
)

-- A remote key is accepted as it is, and is a key.
pub normalize_remote_key-IsKey :
    (path key : Text) → normalize_remote_key path ≡ ok key → (key ≡ path) × IsKey key
unfolding normalize_remote_key
normalize_remote_key-IsKey path key h =
    let same : key ≡ path = ground arith in
    (same, IsKey-of_tests key (ground arith) (ground arith) (ground arith) (ground arith))
