-- ===== src/Runtime/Snapshots.antt =====
-- The runtime store under any sequence of its operations, src/services/origin_runtime.rs.
use rendermesh.Base.{
  ℕ, ◌≡◌, refl, ◌∙◌, inl, inr, Option, none, some, List, [], ◌∷◌, arith, Text, get, insert, All,
  All-insert, NodupKeys, NodupKeys-insert, Option-cases,
}
use rendermesh.Runtime.{
  OriginSnapshotDebug, OriginRuntimeStore, keep_cdn, set_snapshot, with_error, set_error, update,
  set_cdn_result, set_cdn_error, set_cdn_domain_result, set_cdn_domain_error,
}

-- One operation of the store.
pub data Step : OriginRuntimeStore → OriginRuntimeStore → Type 0 where
  snapshot_set :
      (store : OriginRuntimeStore) (snapshot : OriginSnapshotDebug)
      → Step store (set_snapshot store snapshot)
  error_set :
      (store : OriginRuntimeStore) (origin_id error : Text)
      → Step store (set_error store origin_id error)
  cdn_result_set :
      (now : Text) (store : OriginRuntimeStore) (origin_id provider status : Text)
      (request_id : Option Text) (request_ids : List Text) (submitted_items : ℕ)
      → Step store (
          set_cdn_result now store origin_id provider status request_id request_ids submitted_items)
  cdn_error_set :
      (store : OriginRuntimeStore) (origin_id error : Text)
      → Step store (set_cdn_error store origin_id error)
  domain_result_set :
      (now : Text) (store : OriginRuntimeStore) (origin_id provider status : Text)
      (added updated removed unchanged : ℕ)
      → Step store (
          set_cdn_domain_result now store origin_id provider status added updated removed unchanged)
  domain_error_set :
      (store : OriginRuntimeStore) (origin_id error : Text)
      → Step store (set_cdn_domain_error store origin_id error)

-- Any sequence of operations on the store of a new process.
pub data Reachable : OriginRuntimeStore → Type 0 where
  empty : Reachable []
  after : {store next : OriginRuntimeStore} → Reachable store → Step store next → Reachable next

-- The snapshot stands under its own origin.
unfoldable pub IsOwn : Text × OriginSnapshotDebug → Type 0
IsOwn (origin_id, snapshot) = snapshot.origin_id ≡ origin_id

abbrev pub Keeps : OriginRuntimeStore → Type 0
Keeps store = NodupKeys store × All IsOwn store

insert-Keeps :
    (store : OriginRuntimeStore) (origin_id : Text) (snapshot : OriginSnapshotDebug)
    → snapshot.origin_id ≡ origin_id
    → Keeps store
    → Keeps (insert origin_id snapshot store)
unfolding IsOwn
insert-Keeps store origin_id snapshot e (u, h) =
    (NodupKeys-insert origin_id snapshot store u, All-insert IsOwn origin_id snapshot store e h)

get-own :
    (origin_id : Text) (store : OriginRuntimeStore) (snapshot : OriginSnapshotDebug)
    → All IsOwn store
    → get origin_id store ≡ some snapshot
    → snapshot.origin_id ≡ origin_id
unfolding IsOwn get
get-own origin_id [] snapshot h e = absurd (ground arith)
get-own origin_id ((other, first) ∷ store) snapshot (own, h) e =
    ground (arith, get-own origin_id store snapshot h)

update-Keeps :
    (change : OriginSnapshotDebug → OriginSnapshotDebug) (store : OriginRuntimeStore)
    (origin_id : Text)
    → ((snapshot : OriginSnapshotDebug) → (change snapshot).origin_id ≡ snapshot.origin_id)
    → Keeps store
    → Keeps (update change store origin_id)
unfolding update
update-Keeps change store origin_id same (u, h) = elim (Option-cases (get origin_id store)) [
  | inl e ↦ rw (e, update) (u, h)
  | inr (snapshot, e) ↦
      rw (e, update)
        (insert-Keeps store origin_id (change snapshot)
          (same snapshot ∙ get-own origin_id store snapshot h e) (u, h))
]

keep_cdn-own :
    (o : Option OriginSnapshotDebug) (snapshot : OriginSnapshotDebug)
    → (keep_cdn o snapshot).origin_id ≡ snapshot.origin_id
keep_cdn-own none snapshot = refl
keep_cdn-own (some previous) snapshot = refl

set_error-Keeps :
    (store : OriginRuntimeStore) (origin_id error : Text)
    → Keeps store
    → Keeps (set_error store origin_id error)
unfolding set_error
set_error-Keeps store origin_id error (u, h) = elim (Option-cases (get origin_id store)) [
  | inl e ↦
      insert-Keeps store origin_id (with_error origin_id error (get origin_id store)) (rw e refl)
        (u, h)
  | inr (snapshot, e) ↦
      insert-Keeps store origin_id (with_error origin_id error (get origin_id store))
        (rw e (get-own origin_id store snapshot h e)) (u, h)
]

Step-Keeps : {store next : OriginRuntimeStore} → Step store next → Keeps store → Keeps next
unfolding set_snapshot set_cdn_result set_cdn_error set_cdn_domain_result set_cdn_domain_error
Step-Keeps (snapshot_set store snapshot) k =
    let kept = keep_cdn (get snapshot.origin_id store) snapshot in
    insert-Keeps store kept.origin_id kept refl k
Step-Keeps (error_set store origin_id error) k = set_error-Keeps store origin_id error k
Step-Keeps (cdn_result_set now store origin_id provider status r rs n) k =
    update-Keeps _ store origin_id (λ snapshot. refl) k
Step-Keeps (cdn_error_set store origin_id error) k =
    update-Keeps _ store origin_id (λ snapshot. refl) k
Step-Keeps (domain_result_set now store origin_id provider status a c r n) k =
    update-Keeps _ store origin_id (λ snapshot. refl) k
Step-Keeps (domain_error_set store origin_id error) k =
    update-Keeps _ store origin_id (λ snapshot. refl) k

-- Whatever operations a new store goes through, no origin stands in it twice and every snapshot
-- stands under its own origin.
pub Reachable-Keeps :
    {store : OriginRuntimeStore} → Reachable store → NodupKeys store × All IsOwn store
Reachable-Keeps empty = (tt, tt)
Reachable-Keeps (after reached step) = Step-Keeps step (Reachable-Keeps reached)
