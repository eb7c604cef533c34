-- ===== src/Refresh/Purge/Generations.antt =====
-- The purge behind an activation leaves the generation, src/services/origin_runtime.rs.
use rendermesh.Base.{
  ◌≡◌, refl, ap, ◌∙◌, inl, inr, ℕ, Option, none, some, List, Text, get, insert, get-insert,
  is_empty, Option-cases, Bool-cases, arith, Result, ok, err,
}
use rendermesh.Cdn.Plan.{
  OriginCdnRefresh, CdnRefreshOutcome, RefreshError, refresh_failed, other_refresh_error,
  refresh_after_activation,
}
use rendermesh.Freshness.{OriginFreshnessDiff}
use rendermesh.Refresh.Purge.{record_partial, record_purge, purge_activated}
use rendermesh.Runtime.{
  OriginSnapshotDebug, OriginRuntimeStore, keep_cdn, set_snapshot, update, set_cdn_result,
  set_cdn_error,
}

abbrev pub generation_of : Option OriginSnapshotDebug → Option ℕ
generation_of none = none
generation_of (some snapshot) = some snapshot.generation

get-insert_self :
    (origin_id : Text) (snapshot : OriginSnapshotDebug) (store : OriginRuntimeStore)
    → get origin_id (insert origin_id snapshot store) ≡ some snapshot
get-insert_self origin_id snapshot store =
    get-insert origin_id origin_id snapshot store ∙ ground arith

update-generation :
    (change : OriginSnapshotDebug → OriginSnapshotDebug) (store : OriginRuntimeStore)
    (origin_id : Text)
    → ((snapshot : OriginSnapshotDebug) → (change snapshot).generation ≡ snapshot.generation)
    → generation_of (get origin_id (update change store origin_id))
      ≡ generation_of (get origin_id store)
unfolding update
update-generation change store origin_id same = elim (Option-cases (get origin_id store)) [
  | inl e ↦ rw (e, update) (rw e refl)
  | inr (snapshot, e) ↦
      rw (e, update)
        (ap generation_of (get-insert_self origin_id (change snapshot) store)
          ∙ ap some (same snapshot))
]

pub set_snapshot-generation :
    (store : OriginRuntimeStore) (snapshot : OriginSnapshotDebug)
    → generation_of (get snapshot.origin_id (set_snapshot store snapshot))
      ≡ some snapshot.generation
unfolding set_snapshot
set_snapshot-generation store snapshot = elim (Option-cases (get snapshot.origin_id store)) [
  | inl e ↦ rw e (ap generation_of (get-insert_self snapshot.origin_id snapshot store))
  | inr (previous, e) ↦ rw e (
      ap generation_of
        (get-insert_self snapshot.origin_id (keep_cdn (some previous) snapshot) store))
]

set_cdn_error-generation :
    (store : OriginRuntimeStore) (origin_id error : Text)
    → generation_of (get origin_id (set_cdn_error store origin_id error))
      ≡ generation_of (get origin_id store)
unfolding set_cdn_error
set_cdn_error-generation store origin_id error =
    update-generation _ store origin_id (λ snapshot. refl)

module _ (now : Text) (store : OriginRuntimeStore) (origin_id : Text) where
  abbrev Same : OriginRuntimeStore → Type 0
  Same after = generation_of (get origin_id after) ≡ generation_of (get origin_id store)

  set_cdn_result-generation :
      (provider status : Text) (request_id : Option Text) (request_ids : List Text) (items : ℕ)
      → Same (set_cdn_result now store origin_id provider status request_id request_ids items)
  unfolding set_cdn_result
  set_cdn_result-generation provider status request_id request_ids items =
      update-generation _ store origin_id (λ snapshot. refl)

  record_partial-generation :
      (error : RefreshError) → Same (record_partial now store origin_id error)
  record_partial-generation (other_refresh_error message) = refl
  record_partial-generation (refresh_failed failure) =
      elim (Bool-cases (is_empty failure.request_ids)) [
        | inl e ↦ rw e refl
        | inr e ↦ rw e (set_cdn_result-generation _ _ _ _ _)
      ]

  record_purge-generation :
      (result : Result RefreshError (Option CdnRefreshOutcome))
      → Same ((record_purge now store origin_id result).0)
  unfolding record_purge
  record_purge-generation (ok none) = refl
  record_purge-generation (ok (some outcome)) = set_cdn_result-generation _ _ _ _ _
  record_purge-generation (err error) =
      set_cdn_error-generation (record_partial now store origin_id error) origin_id _
      ∙ record_partial-generation error

  pub purge_activated-generation :
      (generation : ℕ) (diff : OriginFreshnessDiff) (cdn : Option OriginCdnRefresh)
      → Same ((purge_activated now store origin_id generation diff cdn).0)
  unfolding purge_activated
  purge_activated-generation generation diff none = refl
  purge_activated-generation generation diff (some cdn) =
      record_purge-generation (refresh_after_activation cdn origin_id generation diff)
