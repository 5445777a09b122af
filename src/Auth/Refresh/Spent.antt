-- ===== src/Auth/Refresh/Spent.antt =====
-- apps/im-server/src/modules/auth/services/auth-command.service.ts: a refresh token whose row is revoked.
use slowchat.Base.{
  ◌≡◌, refl, true, ◌==◌, Bool, Bool-cases, none, some, List, [], ◌∷◌, arith, All, inl, inr,
  Option-cases,
}
use slowchat.Base.Rows.{All-Among, All-update_where}
use slowchat.Base.Action.{Error, ok, err, app_error, auth_token_invalid, auth_session_revoked}
use slowchat.Base.Database.{Database}
use slowchat.Model.{
  Uuid, Time, Text, Store, AuthSession, RefreshToken, TokenStatus, RequestMetadata, RevokedReason,
  access_is_active,
}
use slowchat.Sessions.{Env, revoke_session}
use slowchat.Auth.Tokens.{
  Crypto, AuthConfig, ParsedToken, parse_refresh_token, refresh_hash_matches,
}
use slowchat.Auth.Revoking.{
  token_in_family, revoked_token, revoke_tokens, revoke_each, revoke_family, find_token,
}
use slowchat.Auth.Revoking.Loop.{revoke_each-next}
use slowchat.Auth.Refresh.{refresh, refresh_body, refresh_found, refresh_with}
use slowchat.Auth.Refresh.Rotation.{token_id}

-- The row of this id is revoked.
abbrev pub IsSpent : Uuid → RefreshToken → Type 0
IsSpent id t = token_id id t ≡ true → t.status ≡ TokenStatus.revoked

module _ (db : Database) (now : Time) (reason : RevokedReason) (id : Uuid) where
  revoke_session-IsSpent :
      (session_id : Uuid) (s : Store)
      → All (IsSpent id) s.refresh_tokens
      → All (IsSpent id) (revoke_session db now session_id reason s).1.refresh_tokens
  unfolding revoke_session
  revoke_session-IsSpent session_id s spent =
      elim (Option-cases (db.find_one (λ (x : AuthSession). x.id == session_id) s.sessions)) [
        | inl e ↦ rw e spent
        | inr (x, e) ↦ elim (Bool-cases (access_is_active x.status)) [
          | inr inactive ↦ rw (e, inactive) spent
          | inl active ↦
              let hit : RefreshToken → Bool = λ t. t.session_id == x.id in
              rw (e, active, db.update_lem hit revoked_token s.refresh_tokens)
                (All-update_where (IsSpent id) (IsSpent id) hit revoked_token s.refresh_tokens
                  (λ t old passes same. refl) (λ t old fails. old) spent)
        ]
      ]

  pub revoke_each-IsSpent :
      (xs : List AuthSession) (s : Store)
      → All (IsSpent id) s.refresh_tokens
      → All (IsSpent id) (revoke_each db now reason none xs s).1.refresh_tokens
  unfolding revoke_each
  revoke_each-IsSpent [] s spent = spent
  revoke_each-IsSpent (x ∷ xs) s spent = rw (revoke_each-next db now reason none x xs s refl) (
      revoke_each-IsSpent xs (revoke_session db now x.id reason s).1
        (revoke_session-IsSpent x.id s spent))

  -- After the family of a token was revoked, its row is.
  pub revoke_family-IsSpent :
      (family_id : Uuid) (s : Store)
      → All (λ t. token_id id t ≡ true → token_in_family family_id t ≡ true) s.refresh_tokens
      → All (IsSpent id) (revoke_family db now reason family_id s).1.refresh_tokens
  unfolding revoke_family revoke_tokens
  revoke_family-IsSpent family_id s members = revoke_each-IsSpent _ (revoke_tokens db family_id s) (
      rw (db.update_lem (token_in_family family_id) revoked_token s.refresh_tokens) (
        All-update_where (λ t. token_id id t ≡ true → token_in_family family_id t ≡ true)
          (IsSpent id) (token_in_family family_id) revoked_token s.refresh_tokens
          (λ t old passes same. refl) (λ t old fails same. absurd (ground (arith, old same, fails)))
          members))

-- A spent token is refused and changes nothing.
module _ (db : Database) (crypto : Crypto) (config : AuthConfig) (token : Text) (env : Env)
    (secret : Text) (metadata : RequestMetadata) (parsed : ParsedToken) (id : Uuid)
    (s : Store) where
  pub refresh-refused :
      parse_refresh_token crypto config token ≡ ok parsed
      → crypto.read_uuid parsed.id ≡ some id
      → All (IsSpent id) s.refresh_tokens
      → (e : Error) × (refresh db crypto config env secret metadata token s ≡ (err e, s))
  unfolding refresh refresh_body refresh_found refresh_with find_token
  refresh-refused read named spent =
      let law = db.transaction_lem (refresh_body db crypto config env secret metadata parsed) s in
      elim (Option-cases (db.find_one (token_id id) s.refresh_tokens)) [
        | inl e ↦ (app_error auth_token_invalid 401, ground (arith, read, named, law))
        | inr (t, e) ↦
            let dead =
              All-Among (IsSpent id) t s.refresh_tokens spent
                (db.find_one_among (token_id id) s.refresh_tokens t e)
                (db.find_one_some (token_id id) s.refresh_tokens t e) in
            elim (Bool-cases (refresh_hash_matches t.token_hash parsed.hash)) [
              | inr other ↦ (app_error auth_token_invalid 401, ground (arith, read, named, law))
              | inl same ↦
                  elim (Option-cases
                    (db.find_one (λ (x : AuthSession). x.id == t.session_id) s.sessions)) [
                      | inl f ↦ (app_error auth_token_invalid 401, ground (arith, read, named, law))
                      | inr (x, f) ↦ (
                        app_error auth_session_revoked 401,
                        ground (arith, read, named, law, dead),
                      )
                    ]
            ]
      ]
