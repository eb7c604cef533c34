-- ===== src/Sync/Swap/Outcome.antt =====
-- No mirror is lost when a staged one takes its place, src/repositories/sync.rs.
use rendermesh.Base.{
  ◌≡◌, refl, ◌∙◌, ◌⊎◌, inl, inr, Bool, true, false, Option, none, some, Text, path_starts_with,
  Result, ok, err,
}
use rendermesh.Base.Actions.{then_run, checked, Ends, Ends-follow}
use rendermesh.Sync.{
  FileSystem, IoError, SyncError, io_failed, at_path, unless_missing, not_found, other_io, tried,
}
use rendermesh.Sync.Swap.{is_ok, create_parent, finish_swap, back_up, replace_dir, swap_origin_dir}

-- Neither path lies below the other.
abbrev pub Apart : Text → Text → Type 0
Apart p q = (path_starts_with p q ≡ false) × (path_starts_with q p ≡ false)

-- What the operating system documents of the operations, where `tree` is what stands at a path: a
-- rename moves it or fails and changes nothing, and no operation touches what is apart from its paths.
pub record IsFileSystem {Disk Tree : Type 0} (fs : FileSystem Disk)
    (tree : Disk → Text → Option Tree) : Type 0 where
  pub rename_moves :
      (disk : Disk) (p q : Text)
      → (fs.rename disk p q).1 ≡ ok tt
      → tree ((fs.rename disk p q).0) q ≡ tree disk p
  pub rename_fails :
      (disk : Disk) (p q r : Text) (error : IoError)
      → (fs.rename disk p q).1 ≡ err error
      → tree ((fs.rename disk p q).0) r ≡ tree disk r
  pub rename_apart :
      (disk : Disk) (p q r : Text)
      → Apart r p
      → Apart r q
      → tree ((fs.rename disk p q).0) r ≡ tree disk r
  pub remove_apart :
      (disk : Disk) (p r : Text) → Apart r p → tree ((fs.remove_dir_all disk p).0) r ≡ tree disk r
  pub create_apart :
      (disk : Disk) (p r : Text)
      → path_starts_with p r ≡ false
      → tree ((fs.create_dir_all disk p).0) r ≡ tree disk r

-- The directories of an origin are apart, and its parent, if there is one, lies below none of them.
pub record IsLayout {Disk : Type 0} (fs : FileSystem Disk) (dir staging : Text) : Type 0 where
  pub staging_apart : Apart dir staging
  pub backup_apart : Apart dir (fs.backup_dir dir)
  pub staging_backup_apart : Apart staging (fs.backup_dir dir)
  pub parent_above_dir : (p : Text) → fs.parent dir ≡ some p → path_starts_with p dir ≡ false
  pub parent_above_staging :
      (p : Text) → fs.parent dir ≡ some p → path_starts_with p staging ≡ false

Ends-at_path :
    {Disk : Type 0} (F : SyncError → Disk → Type 0) (Q : Unit {0} → Disk → Type 0) (path : Text)
    (disk : Disk) (result : Result IoError (Unit {0}))
    → (result ≡ ok tt → Q tt disk)
    → ((e : IoError) → result ≡ err e → F (io_failed e path) disk)
    → Ends F Q (disk, at_path path result)
Ends-at_path F Q path disk (ok done) good bad = good refl
Ends-at_path F Q path disk (err e) good bad = bad e refl

Ends-unless_missing :
    {Disk : Type 0} (F : SyncError → Disk → Type 0) (Q : Unit {0} → Disk → Type 0) (path : Text)
    (disk : Disk) (result : Result IoError (Unit {0}))
    → Q tt disk
    → ((e : SyncError) → F e disk)
    → Ends F Q (disk, unless_missing path result)
Ends-unless_missing F Q path disk (ok done) good bad = good
Ends-unless_missing F Q path disk (err not_found) good bad = good
Ends-unless_missing F Q path disk (err (other_io message)) good bad =
    bad (io_failed (other_io message) path)

module _ {Disk Tree : Type 0} (fs : FileSystem Disk) (tree : Disk → Text → Option Tree)
    (laws : IsFileSystem fs tree) (dir staging : Text) (layout : IsLayout fs dir staging) where
  abbrev backup : Text
  backup = fs.backup_dir dir

  -- A swap that fails: the old mirror is still active, or the staged one is, or the old one is in the
  -- backup directory.
  abbrev pub IsKept : Option Tree → Option Tree → SyncError → Disk → Type 0
  IsKept old staged error disk =
      (tree disk dir ≡ old) ⊎ (tree disk dir ≡ staged) ⊎ (tree disk backup ≡ old)

  abbrev pub IsActive : Option Tree → Unit {0} → Disk → Type 0
  IsActive staged done disk = tree disk dir ≡ staged

  put_back :
      (old staged : Option Tree) (disk : Disk) (error : IoError)
      → tree disk backup ≡ old
      → Ends (IsKept old staged) (IsActive staged) (
          then_run
            (tried dir (λ now. fs.rename now backup dir))
            (λ _. checked (err (io_failed error dir)))
            disk)
  put_back old staged disk error b =
      Ends-follow (IsKept old staged) (λ _ now. tree now dir ≡ old) (IsActive staged)
        (tried dir (λ now. fs.rename now backup dir) disk)
        (λ _. checked (err (io_failed error dir)))
        (Ends-at_path (IsKept old staged) (λ _ now. tree now dir ≡ old) dir
          ((fs.rename disk backup dir).0) ((fs.rename disk backup dir).1)
          (λ e. laws.rename_moves disk backup dir e ∙ b)
          (λ e p. inr (inr (laws.rename_fails disk backup dir backup e p ∙ b))))
        (λ _ now h. inl h)

  finish_swap-at :
      (had_origin : Bool) (old staged : Option Tree) (disk : Disk)
      (result : Result IoError (Unit {0}))
      → (result ≡ ok tt → tree disk dir ≡ staged)
      → (had_origin ≡ true → (e : IoError) → result ≡ err e → tree disk backup ≡ old)
      → (had_origin ≡ false → (e : IoError) → result ≡ err e → tree disk dir ≡ old)
      → Ends (IsKept old staged) (IsActive staged) (finish_swap fs had_origin dir (disk, result))
  unfolding finish_swap
  finish_swap-at had_origin old staged disk (ok done) moved b k =
      let active : tree ((fs.remove_dir_all disk backup).0) dir ≡ staged =
        laws.remove_apart disk backup dir layout.backup_apart ∙ moved refl in
      Ends-unless_missing (IsKept old staged) (IsActive staged) backup
        ((fs.remove_dir_all disk backup).0) ((fs.remove_dir_all disk backup).1) active
        (λ e. inr (inl active))
  finish_swap-at true old staged disk (err error) moved b k =
      put_back old staged disk error (b refl error refl)
  finish_swap-at false old staged disk (err error) moved b k = inl (k refl error refl)

  finish_swap-Ends :
      (had_origin : Bool) (old staged : Option Tree) (disk : Disk)
      → tree disk staging ≡ staged
      → (had_origin ≡ true → tree disk backup ≡ old)
      → (had_origin ≡ false → tree disk dir ≡ old)
      → Ends
          (IsKept old staged)
          (IsActive staged)
          (finish_swap fs had_origin dir (fs.rename disk staging dir))
  finish_swap-Ends had_origin old staged disk s b k =
      finish_swap-at had_origin old staged ((fs.rename disk staging dir).0)
        ((fs.rename disk staging dir).1) (λ e. laws.rename_moves disk staging dir e ∙ s)
        (λ h e p. laws.rename_fails disk staging dir backup e p ∙ b h)
        (λ h e p. laws.rename_fails disk staging dir dir e p ∙ k h)

  replace_dir-Ends :
      (had_origin : Bool) (old staged : Option Tree) (disk : Disk)
      → tree disk dir ≡ old
      → tree disk staging ≡ staged
      → Ends (IsKept old staged) (IsActive staged) (replace_dir fs had_origin dir staging disk)
  unfolding replace_dir back_up
  replace_dir-Ends false old staged disk o s =
      finish_swap-Ends false old staged disk s (λ h. cc) (λ h. o)
  replace_dir-Ends true old staged disk o s =
      let moved = fs.rename disk dir backup in
      let (a, b) = layout.staging_apart in
      Ends-follow (IsKept old staged)
        (λ _ now. (tree now backup ≡ old) × (tree now staging ≡ staged)) (IsActive staged)
        (tried backup (λ now. fs.rename now dir backup) disk)
        (λ _ now. finish_swap fs true dir (fs.rename now staging dir))
        (Ends-at_path (IsKept old staged)
          (λ _ now. (tree now backup ≡ old) × (tree now staging ≡ staged)) backup (moved.0)
          (moved.1)
          (λ e. (
            laws.rename_moves disk dir backup e ∙ o,
            laws.rename_apart disk dir backup staging (b, a) layout.staging_backup_apart ∙ s,
          ))
          (λ e p. inl (laws.rename_fails disk dir backup dir e p ∙ o)))
        (λ _ now (b', s'). finish_swap-Ends true old staged now s' (λ h. b') (λ h. cc))

  create_parent-Ends :
      (parent : Option Text) (old staged : Option Tree) (disk : Disk)
      → ((p : Text) → parent ≡ some p → path_starts_with p dir ≡ false)
      → ((p : Text) → parent ≡ some p → path_starts_with p staging ≡ false)
      → tree disk dir ≡ old
      → tree disk staging ≡ staged
      → Ends
          (IsKept old staged)
          (λ _ now. (tree now dir ≡ old) × (tree now staging ≡ staged))
          (create_parent fs parent disk)
  create_parent-Ends none old staged disk pd ps o s = (o, s)
  create_parent-Ends (some p) old staged disk pd ps o s =
      let kept = laws.create_apart disk p dir (pd p refl) ∙ o in
      Ends-at_path (IsKept old staged) (λ _ now. (tree now dir ≡ old) × (tree now staging ≡ staged))
        p ((fs.create_dir_all disk p).0) ((fs.create_dir_all disk p).1)
        (λ e. (kept, laws.create_apart disk p staging (ps p refl) ∙ s)) (λ e q. inl kept)

  -- If the origin's directory, its staging directory and its backup directory are apart, and the
  -- operating system does what it documents, then a swap loses no mirror: when it succeeds, the staged
  -- mirror is the active one; and when it fails, the active mirror is still the old one, or it is the
  -- staged one, or the old one stands in the backup directory.
  pub swap_origin_dir-Ends :
      (disk : Disk)
      → Ends
          (IsKept (tree disk dir) (tree disk staging))
          (IsActive (tree disk staging))
          (swap_origin_dir fs dir staging disk)
  unfolding swap_origin_dir
  swap_origin_dir-Ends disk =
      let old = tree disk dir in
      let staged = tree disk staging in
      Ends-follow (IsKept old staged) (λ _ now. (tree now dir ≡ old) × (tree now staging ≡ staged))
        (IsActive staged) (create_parent fs (fs.parent dir) disk)
        (λ _ now. replace_dir fs (is_ok (fs.metadata now dir)) dir staging now)
        (create_parent-Ends (fs.parent dir) old staged disk layout.parent_above_dir
          layout.parent_above_staging refl refl)
        (λ _ now (o, s). replace_dir-Ends (is_ok (fs.metadata now dir)) old staged now o s)
