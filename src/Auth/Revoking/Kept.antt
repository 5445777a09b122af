-- ===== src/Auth/Revoking/Kept.antt =====
-- apps/im-server/src/modules/auth/services/auth-command.service.ts: what the loop over the sessions
-- leaves as it was.
use slowchat.Base.{
  ◌≡◌, refl, ◌∙◌, Bool, true, false, ◌==◌, Option, none, some, List, [], ◌∷◌, arith, first,
  Option-cases, Bool-cases, inl, inr, if◌then◌else◌,
}
use mathlib.Core.Option
use slowchat.Base.Rows.{find_one-first, first-update_where, AtMostOne-narrower}
use slowchat.Base.Saves.{that_passes, first-narrower}
use slowchat.Base.Search.{passes_of_first}
use slowchat.Base.Database.{Database}
use slowchat.Model.{
  Uuid, Time, Store, Device, User, UserCredential, AuthChallenge, AuthSession, AuthContext,
  RevokedReason,
}
use slowchat.Sessions.{session_of, revoke_session, revoked_session, session_is_good}
use slowchat.Auth.Revoking.{is_excepted, revoke_each}
use slowchat.Auth.Revoking.Loop.{
  HasUniqueIds, hits, revoke_session-sessions, HasUniqueIds-revoke_session, revoke_each-next,
}

-- The tables that no revocation writes.
abbrev pub apart : Store → (List Device × List User) × (List UserCredential × List AuthChallenge)
apart s = ((s.devices, s.users), (s.credentials, s.challenges))

module _ (db : Database) (now : Time) (reason : RevokedReason) where
  revoke_session-apart :
      (id : Uuid) (s : Store) → apart (revoke_session db now id reason s).1 ≡ apart s
  unfolding revoke_session
  revoke_session-apart id s = elim (Option-cases (db.find_one (λ x. x.id == id) s.sessions)) [
    | inl e ↦ ground arith
    | inr (y, e) ↦ ground arith
  ]

  pub revoke_each-apart :
      (except : Option Uuid) (xs : List AuthSession) (s : Store)
      → apart (revoke_each db now reason except xs s).1 ≡ apart s
  unfolding revoke_each
  revoke_each-apart except [] s = refl
  revoke_each-apart except (y ∷ ys) s = elim (Bool-cases (is_excepted except y)) [
    | inl e ↦ rw e (revoke_each-apart except ys s)
    | inr e ↦
        let s1 : Store = (revoke_session db now y.id reason s).1 in
        rw (revoke_each-next db now reason except y ys s e)
          (revoke_each-apart except ys s1 ∙ revoke_session-apart y.id s)
  ]

  module _ (id : Uuid) where
    abbrev key : AuthSession → Bool
    key x = x.id == id

    spared :
        (y : AuthSession) (o : Option AuthSession)
        → ((x : AuthSession) → o ≡ some x → key x ≡ true)
        → key y ≡ false
        → Option.map (λ x. if hits y.id x then revoked_session db now reason x else x) o ≡ o
    spared y none h e = refl
    spared y (some x) h e = ground (arith, h x refl)

    -- The session that is excepted stays as it was.
    pub revoke_each-spares :
        (xs : List AuthSession) (s : Store)
        → HasUniqueIds s.sessions
        → (first key (revoke_each db now reason (some id) xs s).1.sessions ≡ first key s.sessions)
          × HasUniqueIds (revoke_each db now reason (some id) xs s).1.sessions
    unfolding revoke_each
    revoke_each-spares [] s unique = (refl, unique)
    revoke_each-spares (y ∷ ys) s unique = elim (Bool-cases (key y)) [
      | inl e ↦ rw e (revoke_each-spares ys s unique)
      | inr e ↦
          let s1 : Store = (revoke_session db now y.id reason s).1 in
          let (same, still) =
            revoke_each-spares ys s1 (HasUniqueIds-revoke_session db now reason y.id s unique) in
          let law =
            first-update_where key (hits y.id) (revoked_session db now reason) s.sessions
              (λ x. refl) in
          let kept =
            spared y (first key s.sessions) (λ x h. passes_of_first key s.sessions x h) e in
          rw (revoke_each-next db now reason (some id) y ys s e)
            (same ∙ rw (revoke_session-sessions db now reason y.id s unique) (law ∙ kept), still)
    ]

  -- A session is as good as before where its row, the devices and the users are as before.
  pub session_is_good-same :
      (auth : AuthContext) (later : Time) (s t : Store)
      → HasUniqueIds s.sessions
      → HasUniqueIds t.sessions
      → first (key auth.session_id) t.sessions ≡ first (key auth.session_id) s.sessions
      → t.devices ≡ s.devices
      → t.users ≡ s.users
      → session_is_good db later auth t ≡ session_is_good db later auth s
  unfolding session_is_good
  session_is_good-same auth later s t unique unique' same devices users =
      let narrow : (x : AuthSession) → session_of auth x ≡ true → key auth.session_id x ≡ true =
        λ x h. ground arith in
      let found = row s unique narrow in
      let found' = row t unique' narrow in ground (arith, found, found')
    where
      row :
          (u : Store)
          → HasUniqueIds u.sessions
          → ((x : AuthSession) → session_of auth x ≡ true → key auth.session_id x ≡ true)
          → db.find_one (session_of auth) u.sessions
            ≡ that_passes (session_of auth) (first (key auth.session_id) u.sessions)
      row u h narrow =
          find_one-first db (session_of auth) u.sessions (
            AtMostOne-narrower (key auth.session_id) (session_of auth) u.sessions narrow
              (h auth.session_id))
          ∙ first-narrower (session_of auth) (key auth.session_id) u.sessions narrow
              (h auth.session_id)
