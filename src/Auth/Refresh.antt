-- ===== src/Auth/Refresh.antt =====
-- apps/im-server/src/modules/auth/services/auth-command.service.ts: `refresh`. A refusal inside of
-- the transaction is an answer and no throw, so that what it revokes stays revoked.
pub mod Rotation
pub mod Replay
pub mod Spent
use slowchat.Base.{
  ℕ, Bool, true, false, not, ◌&&◌, ◌||◌, leb, ◌==◌, Option, none, some, List, [], ◌∷◌,
  if◌then◌else◌,
}
use slowchat.Base.Action.{
  Action, Result, Error, ok, err, app_error, pure, raise, gets, modify, ◌>>=◌, ◌>>◌,
  auth_token_invalid, auth_refresh_reused, auth_session_revoked,
}
use slowchat.Base.Database.{Database}
use slowchat.Model.{
  Uuid, Time, Text, Store, User, Device, AuthSession, RefreshToken, TokenStatus, RequestMetadata,
  RevokedReason, access_is_active, user_is_active, token_is_active, token_is_used,
}
use slowchat.Sessions.{Env, revoke_session}
use slowchat.Auth.Tokens.{
  Crypto, AuthConfig, NewRefreshToken, ParsedToken, parse_refresh_token, create_refresh_token,
  refresh_hash_matches,
}
use slowchat.Auth.Revoking.{find_token, revoke_family}
use slowchat.Auth.Issue.{SessionIssue, TokenResponse, save_session, save_token, token_response}

-- How the transaction ends: with a new token or with an error, `reusedSession` beside it.
pub data Refreshed : Type 0 where
  renewed : User → SessionIssue → Refreshed
  refused : Error → Option AuthSession → Refreshed

abbrev pub token_invalid : Refreshed
token_invalid = Refreshed.refused (app_error auth_token_invalid 401) none

abbrev pub session_revoked : Refreshed
session_revoked = Refreshed.refused (app_error auth_session_revoked 401) none

-- The token and its session may still be used.
abbrev pub is_current : Time → RefreshToken → AuthSession → Bool
is_current now t x =
    token_is_active t.status
    && not (leb t.expires_at now)
    && access_is_active x.status
    && not (leb x.expires_at now)

abbrev pub used_token : Time → Uuid → RefreshToken → RefreshToken
used_token now next_id t = record t {
  status = TokenStatus.used;
  used_at = some now;
  replaced_by_token_id = some next_id;
}

abbrev pub next_token : NewRefreshToken → AuthSession → RefreshToken
next_token next x = record {
  id = next.id;
  session_id = x.id;
  token_family_id = x.token_family_id;
  token_hash = next.hash;
  status = TokenStatus.active;
  replaced_by_token_id = none;
  used_at = none;
  expires_at = x.expires_at;
}

abbrev pub touched_session : Time → RequestMetadata → AuthSession → AuthSession
touched_session now metadata x = record x {
  last_used_at = now;
  last_ip = metadata.ip;
  last_user_agent = metadata.user_agent;
}

-- device and user, if both are there and active
abbrev pub active_subject : Option Device → Option User → Option (Device × User)
active_subject (some d) (some u) =
    if access_is_active d.status && user_is_active u.status then some (d, u) else none
active_subject _ _ = none

module _ (db : Database) (crypto : Crypto) (config : AuthConfig) where
  open db use {find_one, transaction}

  abbrev pub subject_of : AuthSession → Store → Option (Device × User)
  subject_of x s =
      active_subject (find_one (λ d. d.id == x.device_id) s.devices)
        (find_one (λ u. u.id == x.user_id) s.users)

  -- The token is used up and its replacement stored.
  unfoldable pub rotate :
      Env
      → Text
      → RequestMetadata
      → RefreshToken
      → AuthSession
      → Device × User
      → Action Store Refreshed
  unfolding save_token save_session
  rotate env secret metadata t x (device, user) =
      let next = create_refresh_token crypto config (env.uuid 0) secret in
      let session = touched_session env.now metadata x in
      (do
        modify (save_token db (used_token env.now next.id t))
        modify (save_token db (next_token next x))
        modify (save_session db session)
        pure (
            Refreshed.renewed user (record {
              device = device;
              refresh_token = next.token;
              session = session;
              revoked_sessions = [];
              new_device = false;
            })))

  unfoldable pub refresh_active :
      Env
      → Text
      → RequestMetadata
      → RefreshToken
      → AuthSession
      → Option (Device × User)
      → Action Store Refreshed
  unfolding rotate
  refresh_active env secret metadata t x (some subject) = rotate env secret metadata t x subject
  refresh_active env secret metadata t x none = do
    revoke_session db env.now x.id RevokedReason.subject_unavailable
    pure session_revoked

  -- A used token revokes its family.
  unfoldable pub reuse_detected : Env → RefreshToken → AuthSession → Action Store Refreshed
  reuse_detected env t x = do
    revoke_family db env.now RevokedReason.refresh_token_reused t.token_family_id
    pure (Refreshed.refused (app_error auth_refresh_reused 401) (some x))

  unfoldable pub refresh_with :
      Env → Text → RequestMetadata → RefreshToken → Option AuthSession → Action Store Refreshed
  unfolding reuse_detected refresh_active
  refresh_with env secret metadata t none s = (ok token_invalid, s)
  refresh_with env secret metadata t (some x) s =
      if token_is_used t.status
      then reuse_detected env t x s
      else if is_current env.now t x
      then refresh_active env secret metadata t x (subject_of x s) s
      else (ok session_revoked, s)

  unfoldable pub refresh_found :
      Env → Text → RequestMetadata → ParsedToken → Option RefreshToken → Action Store Refreshed
  unfolding refresh_with
  refresh_found env secret metadata parsed none s = (ok token_invalid, s)
  refresh_found env secret metadata parsed (some t) s =
      if refresh_hash_matches t.token_hash parsed.hash
      then refresh_with env secret metadata t (find_one (λ x. x.id == t.session_id) s.sessions) s
      else (ok token_invalid, s)

  unfoldable pub refresh_body : Env → Text → RequestMetadata → ParsedToken → Action Store Refreshed
  unfolding refresh_found
  refresh_body env secret metadata parsed = do
    token ← find_token db crypto config parsed.id
    refresh_found env secret metadata parsed token

  abbrev pub answer : Refreshed → Action Store TokenResponse
  answer (Refreshed.renewed user issue) = pure (token_response db crypto user issue)
  answer (Refreshed.refused e reused) = raise e

  unfoldable pub refresh : Env → Text → RequestMetadata → Text → Action Store TokenResponse
  unfolding refresh_body
  refresh env secret metadata token = elim (parse_refresh_token crypto config token) [
    | err e ↦ raise e
    | ok parsed ↦ transaction (refresh_body env secret metadata parsed) >>= answer
  ]
