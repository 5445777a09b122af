-- ===== src/Devices/Removal.antt =====
-- apps/im-server/src/modules/devices/services/device.service.ts: what `removeDevice` leaves.
use slowchat.Base.{
  ◌≡◌, refl, ◌∙◌, Bool, false, ◌==◌, none, some, List, [], ◌∷◌, arith, upsert, Option-cases, inl,
  inr,
}
use slowchat.Base.Action.{ok, err, app_error, device_not_found}
use slowchat.Base.Rows.{AtMostOne, find_one-first}
use slowchat.Base.Saves.{first-upsert, AtMostOne-upsert}
use slowchat.Base.Database.{Database}
use slowchat.Model.{Uuid, Time, Store, Device, AuthSession, AuthContext, RevokedReason}
use slowchat.Sessions.{Env, revoke_session, session_is_good, session_of}
use slowchat.Devices.{
  same_device, device_of, active_on, revoked_device, revoke_all, save_device, remove_body,
  remove_device,
}

module _ (db : Database) where
  revoke_session-devices :
      (now : Time) (id : Uuid) (reason : RevokedReason) (s : Store)
      → ((revoke_session db now id reason s).1.devices ≡ s.devices)
  unfolding revoke_session
  revoke_session-devices now id reason s =
      elim (Option-cases (db.find_one (λ x. x.id == id) s.sessions)) [
        | inl e ↦ ground arith
        | inr (x, e) ↦ ground arith
      ]

  revoke_all-devices :
      (now : Time) (xs : List AuthSession) (s : Store)
      → (revoke_all db now xs s).1.devices ≡ s.devices
  unfolding revoke_all
  revoke_all-devices now [] s = refl
  revoke_all-devices now (x ∷ xs) s = ground (
    arith,
    revoke_session-devices now x.id RevokedReason.device_removed s,
    revoke_all-devices now xs (revoke_session db now x.id RevokedReason.device_removed s).1,
  )

module _ (db : Database) (env : Env) (context : AuthContext) (device_id : Uuid) (s : Store) where
  abbrev key : Device → Bool
  key d = d.id == device_id

  devices_after :
      (revoked : List AuthSession) (s' : Store)
      → remove_device db env context device_id s ≡ (ok revoked, s')
      → (d : Device) × (db.find_one (device_of context.user_id device_id) s.devices ≡ some d)
        × (s'.devices ≡ upsert same_device (revoked_device env.now d) s.devices)
  unfolding remove_device remove_body save_device
  devices_after revoked s' done =
      let law = db.transaction_lem (remove_body db env context device_id) s in
      elim (Option-cases (db.find_one (device_of context.user_id device_id) s.devices)) [
        | inl e ↦ absurd (ground (arith, done, law))
        | inr (d, e) ↦
            let row = revoked_device env.now d in
            let saved : Store = save_device db row s in
            let active = db.find_by (active_on context.user_id device_id) saved.sessions in
            (
              d,
              e,
              ground (
                arith,
                done,
                law,
                revoke_all-devices db env.now active saved,
                db.save_lem same_device row s.devices,
              ),
            )
      ]

  -- After a device was removed, no session on it is good, whoever has it and at no time. Only the
  -- user's own device is removed: DEVICE_NOT_FOUND (404) is the answer for any other, and nothing
  -- changes. Condition: devices are told apart by their ids.
  pub remove_device-SignedOut :
      AtMostOne key s.devices
      → ((revoked : List AuthSession) (s' : Store)
          → remove_device db env context device_id s ≡ (ok revoked, s')
          → (auth : AuthContext) (later : Time) → auth.device_id ≡ device_id
          → session_is_good db later auth s' ≡ false)
        × (db.find_one (device_of context.user_id device_id) s.devices ≡ none
            → remove_device db env context device_id s ≡ (err (app_error device_not_found 404), s))
  unfolding session_is_good remove_device remove_body
  remove_device-SignedOut one = (
    λ revoked s' done auth later same.
        let (d, found, saved) = devices_after revoked s' done in
        let row = revoked_device env.now d in
        let passes = db.find_one_some (device_of context.user_id device_id) s.devices d found in
        let unique =
          AtMostOne-upsert same_device key row s.devices (λ x e. ground (arith, passes))
            (λ x e f. ground (arith, passes)) one in
        let there =
          find_one-first db key (upsert same_device row s.devices) unique
          ∙ first-upsert same_device key row s.devices (λ x. ground (arith, passes))
              (ground (arith, passes)) in
        elim (Option-cases (db.find_one (session_of auth) s'.sessions)) [
          | inl e ↦ ground arith
          | inr (x, e) ↦
              let on_device : x.device_id ≡ device_id =
                ground (arith, db.find_one_some (session_of auth) s'.sessions x e) in
              let device : db.find_one (λ (d : Device). d.id == x.device_id) s'.devices ≡ some row =
                rw (on_device, saved) there in
              ground arith
        ],
    λ absent. ground (arith, db.transaction_lem (remove_body db env context device_id) s),
  )
