-- ===== src/Sessions/Revocation.antt =====
-- apps/im-server/src/modules/auth/services/auth-session.service.ts: what `revokeWithManager` leaves.
use slowchat.Base.{
  ◌≡◌, sym, ap, ◌∙◌, Bool, true, false, none, some, List, [], ◌∷◌, arith, ◌==◌, All, any, first,
  upsert, refl, update_where, Option-cases, Bool-cases, inl, inr, ◌⊎◌,
}
use slowchat.Base.Rows.{AtMostOne, any-Among, first-Among, find_one-first, All-update_where}
use slowchat.Base.Saves.{first-upsert, AtMostOne-upsert}
use slowchat.Base.Database.{Database}
use slowchat.Model.{
  Uuid, Time, Store, AuthContext, AuthSession, TokenStatus, RevokedReason, access_is_active,
  RefreshToken,
}
use slowchat.Sessions.{session_of, same_session, session_is_good, revoke_session, revoked_session}

module _ (db : Database) (now : Time) (session_id : Uuid) (reason : RevokedReason) (s : Store)
    (one : AtMostOne (λ (x : AuthSession). x.id == session_id) s.sessions) where
  abbrev after : Store
  after = (revoke_session db now session_id reason s).1

  abbrev key : AuthSession → Bool
  key x = x.id == session_id

  -- The row of the session, if there is one, is not active.
  row_after :
      (db.find_one key s.sessions ≡ none) × (after.sessions ≡ s.sessions)
      ⊎ ((y : AuthSession) × (first key after.sessions ≡ some y)
          × (access_is_active y.status ≡ false)
          × AtMostOne key after.sessions)
  unfolding revoke_session
  row_after = elim (Option-cases (db.find_one key s.sessions)) [
    | inl e ↦ inl (e, ground arith)
    | inr (y, e) ↦ inr (elim (Bool-cases (access_is_active y.status)) [
      | inr inactive ↦
          let same : after.sessions ≡ s.sessions = ground arith in
          (y, rw same (sym (find_one-first db key s.sessions one) ∙ e), inactive, rw same one)
      | inl active ↦
          let row : AuthSession = revoked_session db now reason y in
          let saved : after.sessions ≡ upsert same_session row s.sessions =
            ground (arith, db.save_lem same_session row s.sessions) in
          let passes = db.find_one_some key s.sessions y e in
          (
            row,
            rw saved
                (first-upsert same_session key row s.sessions (λ x. ground (arith, passes)) passes),
            refl,
            rw saved (
                AtMostOne-upsert same_session key row s.sessions (λ x h. ground (arith, passes))
                  (λ x h k. ground (arith, passes)) one),
          )
    ])
  ]

  -- A row of the session that a test finds is inactive.
  judged :
      (auth : AuthContext) (later : Time)
      → auth.session_id ≡ session_id
      → session_is_good db later auth after ≡ false
  unfolding session_is_good
  judged auth later same = elim (Option-cases (db.find_one (session_of auth) after.sessions)) [
    | inl e ↦ ground arith
    | inr (x, e) ↦
        let among = db.find_one_among (session_of auth) after.sessions x e in
        let passes : key x ≡ true =
          ground (arith, db.find_one_some (session_of auth) after.sessions x e) in
        elim row_after [
          | inl (nobody, unchanged) ↦ ground (
            arith,
            any-Among key x after.sessions among passes,
            ap (any key) unchanged,
            db.find_one_none key s.sessions nobody,
          )
          | inr (y, there, inactive, unique) ↦
              ground (arith, first-Among key x after.sessions unique among passes)
        ]
  ]

  abbrev IsRevoked : RefreshToken → Type 0
  IsRevoked t = t.session_id ≡ session_id → t.status ≡ TokenStatus.revoked

  tokens :
      (y : AuthSession)
      → db.find_one key s.sessions ≡ some y
      → access_is_active y.status ≡ true
      → All IsRevoked after.refresh_tokens
  unfolding revoke_session
  tokens y e active =
      let revoke : RefreshToken → RefreshToken = λ t. record t { status = TokenStatus.revoked } in
      let updated : after.refresh_tokens
          ≡ update_where (λ t. t.session_id == y.id) revoke s.refresh_tokens =
        ground (
          arith,
          db.update_lem (λ (t : RefreshToken). t.session_id == y.id) revoke s.refresh_tokens,
        ) in
      rw updated (
        All-update_where (λ _. Unit) IsRevoked (λ t. t.session_id == y.id) revoke s.refresh_tokens
          (λ t _ hit same. refl)
          (λ t _ miss same. ground (arith, db.find_one_some key s.sessions y e))
          (anything s.refresh_tokens))
    where
      anything : (rows : List RefreshToken) → All (λ _. Unit) rows
      anything [] = tt
      anything (x ∷ xs) = (tt, anything xs)

  -- After a revocation the session is good for nobody, at no time, and if it was active, its refresh
  -- tokens are all revoked. Condition: sessions are told apart by their ids.
  pub revoke_session-Revoked :
      ((auth : AuthContext) (later : Time)
        → auth.session_id ≡ session_id
        → session_is_good db later auth after ≡ false)
      × ((y : AuthSession)
          → db.find_one key s.sessions ≡ some y
          → access_is_active y.status ≡ true
          → All IsRevoked after.refresh_tokens)
  revoke_session-Revoked = (judged, tokens)
