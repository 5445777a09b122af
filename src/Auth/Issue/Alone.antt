-- ===== src/Auth/Issue/Alone.antt =====
-- apps/im-server/src/modules/auth/services/auth-command.service.ts: what `issueSession` leaves of the
-- sessions and the devices.
use slowchat.Base.{
  ◌≡◌, ◌≤◌, refl, sym, ap, subst, ◌∙◌, Bool, true, false, not, leb, Option, none, List, [], arith,
  All, count_where, select, upsert, is_some, Option-cases, inl, inr,
}
use slowchat.Base.Rows.{All-map}
use slowchat.Base.Saves.{All-upsert}
use slowchat.Base.Counts.{count_where-upsert}
use slowchat.Base.Action.{Error, Result, Result-cases, ok, err}
use slowchat.Base.Database.{Database}
use slowchat.Model.{Uuid, Text, Store, Device, AuthSession, RequestMetadata, RevokedReason}
use slowchat.Sessions.{Env, same_session}
use slowchat.Devices.{active_on, same_device, save_device}
use slowchat.Auth.Tokens.{Crypto, AuthConfig}
use slowchat.Auth.Revoking.{revoke_each}
use slowchat.Auth.Revoking.Loop.{
  HasUniqueIds, Outstanding, revoke_each-ok, revoke_each-Inactive, Outstanding-select,
}
use slowchat.Auth.Revoking.Kept.{revoke_each-apart}
use slowchat.Auth.Issue.{
  DeviceInput, SessionIssue, client_device, active_device_of, created_session, signed_in_device,
  open_session, issue_session, save_session, save_token,
}

module _ (db : Database) (crypto : Crypto) (config : AuthConfig) (env : Env) (secret : Text)
    (user_id : Uuid) (input : DeviceInput) (metadata : RequestMetadata) (s : Store) where
  abbrev found : Option Device
  found = db.find_one (client_device user_id input) s.devices

  abbrev sign_in : Result Device × Store
  sign_in = signed_in_device db crypto config env user_id input metadata found s

  -- The store and the sessions of the device before the new session is stored.
  abbrev ready : Device → Store
  ready device = save_device db device s

  abbrev existing : Device → List AuthSession
  existing device = select (active_on user_id device.id) s.sessions

  abbrev cleared : Device → Store
  cleared device =
      (revoke_each db env.now RevokedReason.session_replaced none (existing device)
        (ready device)).1

  abbrev session : Device → AuthSession
  session device = created_session env.now (env.uuid 1) (env.uuid 2) user_id device.id metadata

  signed_in :
      (device : Device) (t : Store)
      → sign_in ≡ (ok device, t)
      → (t ≡ s)
        × (is_some found ≡ false
            → (leb config.max_devices (count_where (active_device_of user_id) s.devices) ≡ false))
  unfolding signed_in_device
  signed_in device t done = elim (Option-cases found) [
    | inr (d, e) ↦ (ground arith, λ none_found. absurd (ground arith))
    | inl e ↦
        let count = db.count_by_lem (active_device_of user_id) s.devices in
        (ground (arith, count), λ _. ground (arith, count))
  ]

  through :
      (device : Device)
      → sign_in ≡ (ok device, s)
      → (revoked : List AuthSession) × (issue_session db crypto config env secret user_id input
            metadata s
          ≡ open_session db crypto config env secret user_id metadata device
              (not (is_some found))
              revoked
              (cleared device))
  unfolding issue_session save_device
  through device passed =
      let rows = db.find_by_lem (active_on user_id device.id) s.sessions in
      let (revoked, run) =
        revoke_each-ok db env.now RevokedReason.session_replaced none (existing device)
          (ready device) in
      (revoked, ground (arith, rows, run))

  opened :
      (device : Device) (new : Bool) (revoked : List AuthSession) (t : Store)
      → (issue : SessionIssue) × (s' : Store) × (open_session db crypto config env secret user_id
            metadata device new revoked t
          ≡ (ok issue, s'))
        × (issue.device ≡ device)
        × (issue.session ≡ session device)
        × (issue.new_device ≡ new)
        × (s'.sessions ≡ upsert same_session (session device) t.sessions)
        × (s'.devices ≡ t.devices)
  unfolding open_session save_session save_token
  opened device new revoked t =
      (_, _, refl, refl, refl, refl, db.save_lem same_session (session device) t.sessions, refl)

  ready-devices : (d : Device) → (ready d).devices ≡ upsert same_device d s.devices
  unfolding save_device
  ready-devices d = db.save_lem same_device d s.devices

  stopped :
      (e : Error)
      → sign_in.0 ≡ err e
      → issue_session db crypto config env secret user_id input metadata s ≡ (err e, sign_in.1)
  unfolding issue_session
  stopped e failed = ground arith

  issued :
      (issue : SessionIssue) (s' : Store)
      → issue_session db crypto config env secret user_id input metadata s ≡ (ok issue, s')
      → (device : Device) × (sign_in ≡ (ok device, s))
        × (issue.device ≡ device)
        × (issue.session ≡ session device)
        × (issue.new_device ≡ not (is_some found))
        × (s'.sessions ≡ upsert same_session (session device) (cleared device).sessions)
        × (s'.devices ≡ upsert same_device device s.devices)
  issued issue s' done = elim (Result-cases sign_in.0) [
    | inr (e, failed) ↦ absurd (ground (arith, stopped e failed))
    | inl (device, passed) ↦
        let whole : sign_in ≡ (ok device, sign_in.1) = ground arith in
        let (same, _) = signed_in device sign_in.1 whole in
        let here : sign_in ≡ (ok device, s) = ground (arith, same) in
        let (revoked, run) = through device here in
        let (given, after, law, its_device, its_session, its_new, sessions, devices) =
          opened device (not (is_some found)) revoked (cleared device) in
        let both : (ok given, after) ≡ (ok issue, s') = sym law ∙ sym run ∙ done in
        let same_issue : given ≡ issue = cc both in
        let same_store : after ≡ s' = cc both in
        (
          device,
          here,
          ap (λ g. g.device) (sym same_issue) ∙ its_device,
          ap (λ g. g.session) (sym same_issue) ∙ its_session,
          ap (λ g. g.new_device) (sym same_issue) ∙ its_new,
          ap (λ t. t.sessions) (sym same_store) ∙ sessions,
          ap (λ t. t.devices) (sym same_store)
              ∙ devices
              ∙ ap (λ p. p.0.0)
                  (revoke_each-apart db env.now RevokedReason.session_replaced none
                    (existing device) (ready device))
              ∙ ready-devices device,
        )
  ]

  -- After a session was issued, it is the only active session of the user on its device; and if
  -- the device is new, the user has no more active devices than the limit allows. Condition:
  -- sessions are told apart by their ids. A device that was known before is not counted.
  pub issue_session-Alone :
      HasUniqueIds s.sessions
      → (issue : SessionIssue) (s' : Store)
      → issue_session db crypto config env secret user_id input metadata s ≡ (ok issue, s')
      → (All (λ x. active_on user_id issue.device.id x ≡ true → x ≡ issue.session) s'.sessions)
        × (active_on user_id issue.device.id issue.session ≡ true)
        × (issue.new_device ≡ true
            → count_where (active_device_of user_id) s'.devices ≤ config.max_devices)
  unfolding save_device
  issue_session-Alone unique issue s' done =
      let (device, passed, its_device, its_session, is_new, sessions, devices) =
        issued issue s' done in
      let (_, limit) = signed_in device s passed in
      let row = session device in
      let start =
        Outstanding-select db env.now RevokedReason.session_replaced (active_on user_id device.id)
          none (active_on user_id device.id) s.sessions (λ x passes act. passes) in
      let (_, inactive) =
        revoke_each-Inactive db env.now RevokedReason.session_replaced (active_on user_id device.id)
          none (existing device) (ready device) unique start in
      let others : All (λ x. active_on user_id device.id x ≡ true → x ≡ row)
          (cleared device).sessions =
        All-map
          (Outstanding db env.now RevokedReason.session_replaced (active_on user_id device.id) none
            [])
          (λ x. active_on user_id device.id x ≡ true → x ≡ row) (cleared device).sessions
          (λ x out passes. absurd (ground (arith, out passes refl))) inactive in
      (
        subst (λ id. All (λ x. active_on user_id id x ≡ true → x ≡ issue.session) s'.sessions)
            (ap (λ d. d.id) (sym its_device))
            (subst (λ y. All (λ x. active_on user_id device.id x ≡ true → x ≡ y) s'.sessions)
              (sym its_session)
              (subst (λ rows. All (λ x. active_on user_id device.id x ≡ true → x ≡ row) rows)
                (sym sessions)
                (All-upsert (λ x. active_on user_id device.id x ≡ true → x ≡ row) same_session row
                  (cleared device).sessions (λ _. refl) others))),
        ground (arith, its_device, its_session),
        λ new.
            let one_more =
              count_where-upsert (active_device_of user_id) same_device device s.devices in
            ground (arith, limit (ground arith), devices, one_more),
      )
