-- ===== src/Routes/Authorization.antt =====
-- Who can start a refresh by hand, src/routes/system/origins.rs.
use rendermesh.Base.{
  ◌≡◌, ◌⊎◌, refl, sym, ap, ◌∙◌, inl, inr, true, false, Option, none, some, List, ◌++◌, Text, text,
  ◌===◌, strip_prefix, strip_prefix-eq-some, strip_prefix-append, arith, text_dec, Result, ok, err,
}
use rendermesh.Refresh.Service.{Origins, RefreshState}
use rendermesh.Refresh.Stores.{Host, SnapshotError}
use rendermesh.Routes.{
  ErrorReply, SyncReply, refused, header_value, check_token, check_header, authorize_manual_sync,
  refresh_and_reply, unless_refused, sync_origin,
}

-- The request carries the configured token.
abbrev pub IsAuthorized : Option Text → List (Text × Option Text) → Type 0
IsAuthorized none headers = ⊥
IsAuthorized (some expected) headers =
    header_value (text "authorization") headers ≡ some (some (text "Bearer " ++ expected))

-- 401 or 403.
abbrev pub IsDenied : ErrorReply → Type 0
IsDenied reply = (reply.status ≡ 401) ⊎ (reply.status ≡ 403)

-- A check that lets exactly the authorized requests pass.
abbrev Decides : Type 0 → Result ErrorReply (Unit {0}) → Type 0
Decides P (ok allowed) = P
Decides P (err reply) = (P → ⊥) × IsDenied reply

check_token-Decides :
    (expected value : Text) (token : Option Text)
    → strip_prefix value (text "Bearer ") ≡ token
    → Decides
        (some (some value) ≡ some (some (text "Bearer " ++ expected)))
        (check_token expected token)
check_token-Decides expected value none e = (
  λ h.
      let same : value ≡ text "Bearer " ++ expected = cc in
      let bad : none ≡ some expected =
        sym e
        ∙ ap (λ v. strip_prefix v (text "Bearer ")) same
        ∙ strip_prefix-append (text "Bearer ") expected in
      cc,
  inr refl,
)
check_token-Decides expected value (some token) e =
    let whole : value ≡ text "Bearer " ++ token =
      strip_prefix-eq-some value (text "Bearer ") token e in
    elim (text_dec token expected) [
      | yes same ↦
          let hit : (token === expected) ≡ true = ground arith in
          rw hit (ap (λ v. some (some v)) (whole ∙ ap (λ t. text "Bearer " ++ t) same))
      | no different ↦
          let miss : (token === expected) ≡ false = ground arith in
          rw miss (λ h. different cc, inr refl)
    ]

check_header-Decides :
    (expected : Text) (value : Option (Option Text))
    → Decides (value ≡ some (some (text "Bearer " ++ expected))) (check_header expected value)
check_header-Decides expected none = (λ h. cc, inl refl)
check_header-Decides expected (some none) = (λ h. cc, inr refl)
check_header-Decides expected (some (some value)) = check_token-Decides expected value _ refl

authorize_manual_sync-Decides :
    (admin_token : Option Text) (headers : List (Text × Option Text))
    → Decides (IsAuthorized admin_token headers) (authorize_manual_sync admin_token headers)
unfolding authorize_manual_sync
authorize_manual_sync-Decides none headers = (λ h. h, inr refl)
authorize_manual_sync-Decides (some expected) headers =
    check_header-Decides expected (header_value (text "authorization") headers)

module _ {Disk Registry Time : Type 0} (host : Host Disk Registry Time)
    (message_of : SnapshotError → Text) where
  -- The request was denied, or it was authorized and answered with what the service did.
  abbrev pub IsGuarded :
      Option Text
      → Option Origins
      → Text
      → List (Text × Option Text)
      → RefreshState Disk Registry Time
      → RefreshState Disk Registry Time × SyncReply
      → Type 0
  IsGuarded admin_token origin_refresh origin_id headers before end =
      (IsAuthorized admin_token headers
        × (end ≡ refresh_and_reply host message_of origin_refresh origin_id before))
      ⊎ ((IsAuthorized admin_token headers → ⊥)
          × (end.0 ≡ before)
          × ((reply : ErrorReply) × (end.1 ≡ refused reply) × IsDenied reply))

  unless_refused-IsGuarded :
      (admin_token : Option Text) (origin_refresh : Option Origins) (origin_id : Text)
      (headers : List (Text × Option Text)) (before : RefreshState Disk Registry Time)
      (check : Result ErrorReply (Unit {0}))
      → Decides (IsAuthorized admin_token headers) check
      → IsGuarded admin_token origin_refresh origin_id headers before (
          unless_refused host message_of check
            (refresh_and_reply host message_of origin_refresh origin_id before)
            before)
  unless_refused-IsGuarded admin_token origin_refresh origin_id headers before (ok allowed) h =
      inl (h, refl)
  unless_refused-IsGuarded admin_token origin_refresh origin_id headers before (err reply) (h, d) =
      inr (h, refl, (reply, refl, d))

  -- A refresh by hand is run only for a request whose first authorization header is the configured
  -- token behind `Bearer `; without a configured token no request is. Every other request is answered
  -- with 401 or 403 and changes nothing, neither the stores nor the locks.
  pub sync_origin-IsGuarded :
      (admin_token : Option Text) (origin_refresh : Option Origins) (origin_id : Text)
      (headers : List (Text × Option Text)) (before : RefreshState Disk Registry Time)
      → IsGuarded admin_token origin_refresh origin_id headers before
          (sync_origin host message_of admin_token origin_refresh origin_id headers before)
  unfolding sync_origin
  sync_origin-IsGuarded admin_token origin_refresh origin_id headers before =
      unless_refused-IsGuarded admin_token origin_refresh origin_id headers before
        (authorize_manual_sync admin_token headers)
        (authorize_manual_sync-Decides admin_token headers)
