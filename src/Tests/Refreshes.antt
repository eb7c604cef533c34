-- ===== src/Tests/Refreshes.antt =====
-- Refreshes, swaps and locks at a concrete disk.
use rendermesh.Base.{
  ◌≡◌, ◌↔◌, refl, sym, ap, subst, text_dec, arith, ℕ, ◌<◌, ◌≤◌, Bool, true, false, Option, none,
  some, List, [], ◌∷◌, ◌++◌, Text, text, TextMap, TextSet, member, get, if◌then◌else◌, ◌===◌,
  Result, ok, err, path_starts_with, path_starts_with_refl, Bool-cases, inl, inr, components,
  Component, components_start_with,
}
use rendermesh.Edge.{default_edge_config}
use rendermesh.Base.Actions.{Ends}
use rendermesh.Refresh.Locks.{try_acquire}
use rendermesh.Refresh.Locks.Exclusion.{count, start, after, acquired, Reachable-exclusive}
use rendermesh.Refresh.Service.{Origins, RefreshState, refresh_origin}
use rendermesh.Refresh.Service.Outcome.{Unlocked, Outcome, refresh_origin-Outcome}
use rendermesh.Refresh.Snapshot.{refresh_origin_snapshot}
use rendermesh.Refresh.Stores.{Host, Stores}
use rendermesh.Refresh.Snapshot.Outcome.{IsUntouched, IsInstalled, refresh_origin_snapshot-Ends}
use rendermesh.Sync.{FileSystem, FileMetadata, IoError, not_found, RemoteStorage}
use rendermesh.Sync.Swap.{swap_origin_dir}
use rendermesh.Sync.Swap.Outcome.{IsFileSystem, IsLayout, Apart, swap_origin_dir-Ends}
use rendermesh.Tests.Cdns.{Registry, sample_engine, sample_files}

Reachable-exclusive_example :
    (count (text "docs") (text "docs" ∷ []) ≤ 1)
    × ((try_acquire (text "docs" ∷ []) (text "docs") ≡ none)
        ↔ (count (text "docs") (text "docs" ∷ []) ≡ 1))
unfolding try_acquire member rendermesh.Base.add
Reachable-exclusive_example = Reachable-exclusive (text "docs") (
    after start
      (acquired (record { active = []; guards = [] }) (text "docs") (text "docs" ∷ []) refl))

-- What stands at each path.
abbrev pub Disk : Type 0
Disk = Text → Option ℕ

abbrev pub sample_fs : FileSystem Disk
sample_fs = record {
  files = λ disk. sample_files;
  metadata = λ disk path.
      if path === text "/m/docs" then ok (record { is_file = false; len = 0 }) else err not_found;
  read_dir = λ disk path. ok [];
  create_dir_all = λ disk path. (disk, ok tt);
  remove_dir_all = λ disk path. (λ r. if r === path then none else disk r, ok tt);
  remove_file = λ disk path. (disk, ok tt);
  rename = λ disk p q. (λ r. if r === q then disk p else if r === p then none else disk r, ok tt);
  copy = λ disk p q. (disk, ok tt);
  write = λ disk path body. (disk, ok tt);
  parent = λ path. some (text "/m");
  file_name = λ path. some (text "docs-1");
  backup_dir = λ dir. text "/m/.backup";
  stamp = text "-1";
  metadata_json = λ metadata. [];
}

Apart-ne : (r p : Text) → Apart r p → (r === p) ≡ false
Apart-ne r p (a, b) = elim (text_dec r p) [
  | yes same ↦
      absurd
        (ground (arith, subst (λ q. path_starts_with r q ≡ true) same (path_starts_with_refl r)))
  | no different ↦ ground arith
]

sample_fs-IsFileSystem : IsFileSystem sample_fs (λ disk path. disk path)
sample_fs-IsFileSystem = record {
  rename_moves = λ disk p q e. ground arith;
  rename_fails = λ disk p q r error e. absurd cc;
  rename_apart = λ disk p q r a b. ground (arith, Apart-ne r p a, Apart-ne r q b);
  remove_apart = λ disk p r a. ground (arith, Apart-ne r p a);
  create_apart = λ disk p r e. refl;
}

some_inj : {a b : Text} → some a ≡ some b → a ≡ b
some_inj e = cc

docs-IsLayout : IsLayout sample_fs (text "/m/docs") (text "/m/stage")
unfolding path_starts_with components components_start_with rendermesh.Base.split
    rendermesh.Base.text_dec rendermesh.Base.starts_with
docs-IsLayout = record {
  staging_apart = (refl, refl);
  backup_apart = (refl, refl);
  staging_backup_apart = (refl, refl);
  parent_above_dir =
      λ p e. subst (λ q. path_starts_with q (text "/m/docs") ≡ false) (some_inj e) refl;
  parent_above_staging =
      λ p e. subst (λ q. path_starts_with q (text "/m/stage") ≡ false) (some_inj e) refl;
}

-- An old mirror and a staged one.
abbrev pub two_mirrors : Disk
two_mirrors path =
    if path === text "/m/docs" then some 1 else if path === text "/m/stage" then some 2 else none

swap_origin_dir-Ends_example :
    (swap_origin_dir sample_fs (text "/m/docs") (text "/m/stage") two_mirrors).0 (text "/m/docs")
    ≡ some 2
unfolding rendermesh.Base.text_dec swap_origin_dir rendermesh.Sync.Swap.replace_dir
    rendermesh.Sync.Swap.back_up rendermesh.Sync.Swap.finish_swap
    rendermesh.Sync.Swap.remove_dir_if_exists
swap_origin_dir-Ends_example =
    swap_origin_dir-Ends sample_fs (λ disk path. disk path) sample_fs-IsFileSystem (text "/m/docs")
      (text "/m/stage") docs-IsLayout two_mirrors

-- A host that runs at noon.
abbrev pub sample_host : Host Disk Registry Text
sample_host = record {
  fs = sample_fs;
  engine = sample_engine;
  from_utf8 = λ bytes. some bytes;
  scheme_of = λ url. none;
  parse_config = λ input. some default_edge_config;
  root = text "/m";
  fuel = 3;
  captured_at = text "noon";
  activated_at = text "noon";
  refreshed_at = text "noon";
  to_rfc3339 = λ time. time;
}

abbrev pub sample_stores : Stores Disk Registry Text
sample_stores = record {
  disk = two_mirrors;
  edge_configs = [];
  templates = [];
  freshness_indexes = [];
  origin_runtime = [];
}

abbrev pub no_objects : RemoteStorage
no_objects = record { list_objects = ok []; get_object = λ key. err [] }

refresh_origin_snapshot-Ends_example :
    Ends
      (λ _ after. IsUntouched sample_host (text "docs") none none sample_stores after)
      (IsInstalled sample_host (text "docs") none none sample_stores no_objects)
      (refresh_origin_snapshot sample_host (text "docs") no_objects none none sample_stores)
refresh_origin_snapshot-Ends_example =
    refresh_origin_snapshot-Ends sample_host (text "docs") none none no_objects sample_stores

abbrev pub sample_origins : Origins
sample_origins = record {
  storage_by_origin = (text "docs", no_objects) ∷ [];
  activation_barrier_by_origin = [];
  cdn_by_origin = [];
}

abbrev pub sample_state : RefreshState Disk Registry Text
sample_state = record { stores = sample_stores; active = text "blog" ∷ [] }

refresh_origin-Outcome_example :
    Unlocked sample_host
      (λ e. text "failed")
      sample_origins
      (text "docs")
      (text "blog" ∷ [])
      (refresh_origin sample_host (λ e. text "failed") sample_origins (text "docs") sample_state)
    × Outcome sample_host
        (λ e. text "failed")
        sample_origins
        (text "docs")
        sample_state
        (refresh_origin sample_host (λ e. text "failed") sample_origins (text "docs") sample_state)
refresh_origin-Outcome_example =
    refresh_origin-Outcome sample_host (λ e. text "failed") sample_origins (text "docs")
      sample_state
