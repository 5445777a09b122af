-- ===== src/Auth/Refresh/Replay.antt =====
-- apps/im-server/src/modules/auth/services/auth-command.service.ts: the second use of a refresh
-- token.
use slowchat.Base.{
  ◌≡◌, sym, subst, ◌∙◌, true, false, ◌==◌, some, arith, All, any, Among, upsert, Bool-cases, inl,
  inr,
}
use slowchat.Base.Rows.{AtMostOne, any-Among, find_one-first, All-map, All-only}
use slowchat.Base.Saves.{first-upsert, first-upsert_other, AtMostOne-upsert}
use slowchat.Base.Counts.{Among-upsert}
use slowchat.Base.Action.{Error, Result, ok, err, app_error, auth_refresh_reused}
use slowchat.Base.Database.{Database}
use slowchat.Model.{
  Uuid, Time, Text, Store, AuthSession, AuthContext, RefreshToken, RequestMetadata, RevokedReason,
}
use slowchat.Sessions.{Env, same_session, session_is_good}
use slowchat.Auth.Tokens.{Crypto, AuthConfig, ParsedToken, NewRefreshToken}
use slowchat.Auth.Revoking.{find_token, in_family, token_in_family}
use slowchat.Auth.Revoking.Loop.{HasUniqueIds}
use slowchat.Auth.Revoking.Family.{family_after, revoke_family-ok, family-SignedOut}
use slowchat.Auth.Issue.{TokenResponse, same_token}
use slowchat.Auth.Refresh.{
  Refreshed, refresh, refresh_body, refresh_found, refresh_with, reuse_detected, used_token,
  next_token, touched_session,
}
use slowchat.Auth.Refresh.Spent.{IsSpent, revoke_family-IsSpent, refresh-refused}
use slowchat.Auth.Refresh.Rotation.{token_id, Names, rotated, next, refresh-rotates}

module _ (db : Database) (crypto : Crypto) (config : AuthConfig) (token : Text) where
  module _ (env : Env) (secret : Text) (metadata : RequestMetadata) (parsed : ParsedToken)
      (id : Uuid) (t : RefreshToken) (x : AuthSession) (s : Store)
      (names : Names db crypto config token parsed id t x s)
      (one : AtMostOne (token_id id) s.refresh_tokens) (unique : HasUniqueIds s.sessions)
      (fresh : any (token_id (next db crypto config token env secret metadata).id) s.refresh_tokens
        ≡ false) where
    abbrev new : NewRefreshToken
    new = next db crypto config token env secret metadata

    abbrev pub after : Store
    after = rotated db crypto config token env secret metadata t x s

    mine : t.id == id ≡ true
    mine =
        let (_, _, found, _, _) = names in db.find_one_some (token_id id) s.refresh_tokens t found

    other : new.id == id ≡ false
    other =
        let (_, _, found, _, _) = names in
        let among = db.find_one_among (token_id id) s.refresh_tokens t found in
        elim (Bool-cases (new.id == id)) [
          | inr e ↦ e
          | inl e ↦ absurd (
              ground (
                arith,
                mine,
                fresh,
                any-Among (token_id new.id) t s.refresh_tokens among (ground (arith, mine)),
              ))
        ]

    abbrev used : RefreshToken
    used = used_token env.now new.id t

    inner_one : AtMostOne (token_id id) (upsert same_token used s.refresh_tokens)
    inner_one =
        AtMostOne-upsert same_token (token_id id) used s.refresh_tokens
          (λ y e. ground (arith, mine)) (λ y e f. ground (arith, mine)) one

    one_after : AtMostOne (token_id id) after.refresh_tokens
    one_after =
        AtMostOne-upsert same_token (token_id id) (next_token new x)
          (upsert same_token used s.refresh_tokens) (λ y e. ground (arith, other))
          (λ y e f. ground (arith, other)) inner_one

    used_there : db.find_one (token_id id) after.refresh_tokens ≡ some used
    used_there =
        find_one-first db (token_id id) after.refresh_tokens one_after
        ∙ first-upsert_other same_token (token_id id) (next_token new x)
            (upsert same_token used s.refresh_tokens) other (λ y e. ground (arith, other))
        ∙ first-upsert same_token (token_id id) used s.refresh_tokens (λ y. ground (arith, mine))
            mine

    HasUniqueIds-after : HasUniqueIds after.sessions
    HasUniqueIds-after = λ i.
        AtMostOne-upsert same_session (λ (y : AuthSession). y.id == i)
          (touched_session env.now metadata x) s.sessions (λ y e. ground arith)
          (λ y e f. ground arith) (unique i)

    session_there :
        db.find_one (λ (y : AuthSession). y.id == t.session_id) after.sessions
        ≡ some (touched_session env.now metadata x)
    session_there =
        let (_, _, _, _, opened) = names in
        let own =
          db.find_one_some (λ (y : AuthSession). y.id == t.session_id) s.sessions x opened in
        find_one-first db (λ (y : AuthSession). y.id == t.session_id) after.sessions
          (HasUniqueIds-after t.session_id)
        ∙ first-upsert same_session (λ (y : AuthSession). y.id == t.session_id)
            (touched_session env.now metadata x) s.sessions (λ y. ground (arith, own)) own

    abbrev family_gone : Env → Store
    family_gone env' =
        family_after db env'.now RevokedReason.refresh_token_reused t.token_family_id after

    -- The family is that of the token, so that its row is revoked with it.
    spent : (env' : Env) → All (IsSpent id) (family_gone env').refresh_tokens
    spent env' =
        let only =
          All-only (token_id id) used after.refresh_tokens one_after
            (db.find_one_among (token_id id) after.refresh_tokens used used_there) mine in
        revoke_family-IsSpent db env'.now RevokedReason.refresh_token_reused id t.token_family_id
          after
          (All-map (λ (y : RefreshToken). token_id id y ≡ true → y ≡ used)
            (λ (y : RefreshToken).
              token_id id y ≡ true → token_in_family t.token_family_id y ≡ true)
            after.refresh_tokens (λ y it here. ground (arith, it here)) only)

    module _ (env' : Env) (secret' : Text) (metadata' : RequestMetadata) where
      abbrev detected : Result Refreshed × Store
      detected = (
        ok (
            Refreshed.refused (app_error auth_refresh_reused 401)
              (some (touched_session env.now metadata x))),
        family_gone env',
      )

      with-detects :
          refresh_with db crypto config env' secret' metadata'
            (used_token env.now new.id t)
            (some (touched_session env.now metadata x))
            after
          ≡ detected
      unfolding refresh_with reuse_detected
      with-detects =
          let (revoked, run) =
            revoke_family-ok db env'.now RevokedReason.refresh_token_reused t.token_family_id
              after in
          ground (arith, run)

      found-detects :
          refresh_found db crypto config env' secret' metadata' parsed
            (some (used_token env.now new.id t))
            after
          ≡ detected
      unfolding refresh_found
      found-detects =
          let (_, _, _, hash, _) = names in ground (arith, hash, session_there, with-detects)

      body-detects : refresh_body db crypto config env' secret' metadata' parsed after ≡ detected
      unfolding refresh_body find_token
      body-detects =
          let (_, named, _, _, _) = names in ground (arith, named, used_there, found-detects)

      refused :
          refresh db crypto config env' secret' metadata' token after
          ≡ (err (app_error auth_refresh_reused 401), family_gone env')
      unfolding refresh
      refused =
          let (read, _, _, _, _) = names in
          let law =
            db.transaction_lem (refresh_body db crypto config env' secret' metadata' parsed)
              after in
          ground (arith, read, law, body-detects)

      signed_out :
          t.token_family_id ≡ x.token_family_id
          → (auth : AuthContext) (later : Time) → auth.session_id ≡ x.id
          → session_is_good db later auth (family_gone env') ≡ false
      signed_out family auth later same =
          let row = touched_session env.now metadata x in
          let among = Among-upsert same_session row s.sessions in
          let only =
            All-only (λ (y : AuthSession). y.id == x.id) row after.sessions
              (HasUniqueIds-after x.id) among (ground arith) in
          family-SignedOut db env'.now RevokedReason.refresh_token_reused t.token_family_id after
            HasUniqueIds-after x.id
            (All-map (λ (y : AuthSession). y.id == x.id ≡ true → y ≡ row)
              (λ (y : AuthSession). y.id == x.id ≡ true → in_family t.token_family_id y ≡ true)
              after.sessions (λ y it here. ground (arith, it here)) only)
            auth later same

  -- After a refresh that succeeded with a token, the next refresh, if it is with this token again,
  -- at any time, is refused as AUTH_REFRESH_REUSED (401), the session of the token is then good for
  -- nobody, at any time, and every refresh with the token after that is refused with an error and
  -- changes nothing. Conditions: tokens and sessions are told apart
  -- by their ids, the id that the new token got is not taken, and the tokens of a session are of
  -- its family.
  pub refresh-Once :
      (env : Env) (secret : Text) (metadata : RequestMetadata) (s : Store)
      → ((id : Uuid) → AtMostOne (token_id id) s.refresh_tokens)
      → HasUniqueIds s.sessions
      → any (token_id (next db crypto config token env secret metadata).id) s.refresh_tokens ≡ false
      → ((t : RefreshToken) (x : AuthSession)
          → Among t s.refresh_tokens
          → Among x s.sessions
          → t.session_id ≡ x.id
          → t.token_family_id ≡ x.token_family_id)
      → (response : TokenResponse) (s' : Store)
      → refresh db crypto config env secret metadata token s ≡ (ok response, s')
      → (env' : Env) (secret' : Text) (metadata' : RequestMetadata)
      → (s'' : Store) × (refresh db crypto config env' secret' metadata' token s'
          ≡ (err (app_error auth_refresh_reused 401), s''))
        × ((auth : AuthContext) (later : Time)
            → auth.session_id ≡ response.session.id
            → session_is_good db later auth s'' ≡ false)
        × ((later : Env) (secret'' : Text) (metadata'' : RequestMetadata)
            → (e : Error) × (refresh db crypto config later secret'' metadata'' token s''
                ≡ (err e, s'')))
  refresh-Once env secret metadata s tokens unique fresh families response s' done env' secret'
        metadata' =
      let (parsed, id, t, x, names, _, _, same, final) =
        refresh-rotates db crypto config token env secret metadata s response s' done in
      let (_, _, found, _, opened) = names in
      let one = tokens id in
      let family =
        families t x (db.find_one_among (token_id id) s.refresh_tokens t found)
          (db.find_one_among (λ (y : AuthSession). y.id == t.session_id) s.sessions x opened)
          (ground (
            arith,
            db.find_one_some (λ (y : AuthSession). y.id == t.session_id) s.sessions x opened,
          )) in
      (
        family_gone env secret metadata parsed id t x s names one unique fresh env',
        subst
            (λ u. refresh db crypto config env' secret' metadata' token u ≡ (
              err (app_error auth_refresh_reused 401),
              family_gone env secret metadata parsed id t x s names one unique fresh env',
            ))
            (sym final)
            (refused env secret metadata parsed id t x s names one unique fresh env' secret'
              metadata'),
        (λ auth later mine.
            signed_out env secret metadata parsed id t x s names one unique fresh env' secret'
              metadata' family auth later (mine ∙ same)),
        λ later secret'' metadata''.
            let (read, named, _, _, _) = names in
            refresh-refused db crypto config token later secret'' metadata'' parsed id
              (family_gone env secret metadata parsed id t x s names one unique fresh env') read
              named (spent env secret metadata parsed id t x s names one unique fresh env'),
      )
