-- ===== src/Auth/Revoking.antt =====
-- apps/im-server/src/modules/auth/services/auth-command.service.ts: `revokeFamily`,
-- `revokeUserSessionsInManager`, `logoutAll` and `logout`. The answers are the sessions that
-- `notifyRevoked` then tells Redis and the sockets of.
pub mod Loop
pub mod Kept
pub mod Everywhere
pub mod Family
use slowchat.Base.{
  ℕ, Bool, true, false, ◌&&◌, ◌==◌, Option, none, some, List, [], ◌∷◌, if◌then◌else◌,
}
use slowchat.Base.Action.{Action, Result, ok, err, failure, pure, raise, gets, modify, ◌>>=◌, ◌>>◌}
use slowchat.Base.Database.{Database}
use slowchat.Model.{
  Uuid, Time, Text, Store, AuthSession, AuthContext, RefreshToken, TokenStatus, RevokedReason,
  access_is_active,
}
use slowchat.Sessions.{Env, revoke_session}
use slowchat.Auth.Tokens.{
  Crypto, AuthConfig, ParsedToken, parse_refresh_token, refresh_hash_matches,
}

-- session.id === exceptSessionId
abbrev pub is_excepted : Option Uuid → AuthSession → Bool
is_excepted none x = false
is_excepted (some id) x = x.id == id

-- { userId, status: "ACTIVE" }
abbrev pub active_of : Uuid → AuthSession → Bool
active_of user_id x = x.user_id == user_id && access_is_active x.status

-- { tokenFamilyId: familyId }
abbrev pub in_family : Uuid → AuthSession → Bool
in_family family_id x = x.token_family_id == family_id

abbrev pub token_in_family : Uuid → RefreshToken → Bool
token_in_family family_id t = t.token_family_id == family_id

abbrev pub revoked_token : RefreshToken → RefreshToken
revoked_token t = record t { status = TokenStatus.revoked }

module _ (db : Database) where
  open db use {find_one, find_by, update, transaction}

  -- for (const session of sessions): the one that is excepted is skipped.
  unfoldable pub revoke_each :
      Time → RevokedReason → Option Uuid → List AuthSession → Action Store (List AuthSession)
  revoke_each now reason except [] = pure []
  revoke_each now reason except (x ∷ xs) =
      let rest = revoke_each now reason except xs in
      if is_excepted except x then rest else (do
        value ← revoke_session db now x.id reason
        revoked ← rest
        pure (elim value [ none ↦ revoked | some session ↦ session ∷ revoked ]))

  unfoldable pub revoke_tokens : Uuid → Store → Store
  revoke_tokens family_id s = record s {
    refresh_tokens = update (token_in_family family_id) revoked_token s.refresh_tokens;
  }

  unfoldable pub revoke_family : Time → RevokedReason → Uuid → Action Store (List AuthSession)
  unfolding revoke_tokens
  revoke_family now reason family_id = do
    modify (revoke_tokens family_id)
    sessions ← gets (λ s. find_by (in_family family_id) s.sessions)
    revoke_each now reason none sessions

  unfoldable pub revoke_user_sessions_in_manager :
      Time → Uuid → RevokedReason → Option Uuid → Action Store (List AuthSession)
  revoke_user_sessions_in_manager now user_id reason except = do
    active ← gets (λ s. find_by (active_of user_id) s.sessions)
    revoke_each now reason except active

  unfoldable pub logout_all : Env → AuthContext → Action Store (List AuthSession)
  logout_all env context =
      transaction
        (revoke_user_sessions_in_manager env.now context.user_id RevokedReason.logout_all none)

  module _ (crypto : Crypto) (config : AuthConfig) where
    -- The token of an id that was sent as text. PostgreSQL refuses a text that is no UUID.
    unfoldable pub find_token : Text → Action Store (Option RefreshToken)
    find_token id = elim (crypto.read_uuid id) [
      | none ↦ raise failure
      | some uuid ↦ gets (λ s. find_one (λ t. t.id == uuid) s.refresh_tokens)
    ]

    abbrev logout_found :
        Time → ParsedToken → Option RefreshToken → Action Store (Option AuthSession)
    logout_found now parsed none = pure none
    logout_found now parsed (some t) =
        if refresh_hash_matches t.token_hash parsed.hash
        then revoke_session db now t.session_id RevokedReason.logout
        else pure none

    unfoldable pub logout_body : Env → ParsedToken → Action Store (Option AuthSession)
    unfolding find_token
    logout_body env parsed = do token ← find_token parsed.id; logout_found env.now parsed token

    -- A token that is not parsed is no error.
    unfoldable pub logout : Env → Text → Action Store (Option AuthSession)
    logout env token = elim (parse_refresh_token crypto config token) [
      | err e ↦ pure none
      | ok parsed ↦ transaction (logout_body env parsed)
    ]
