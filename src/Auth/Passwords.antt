-- ===== src/Auth/Passwords.antt =====
-- apps/im-server/src/modules/auth/services/auth-command.service.ts: `changePassword` and
-- `confirmPasswordReset`. The answers are the sessions that `notifyRevoked` then tells Redis and
-- the sockets of.
pub mod Change
pub mod Reset
use slowchat.Base.{Bool, ◌==◌, Option, none, some, List, [], if◌then◌else◌}
use slowchat.Base.Action.{
  Action, Result, Error, ok, err, app_error, pure, raise, gets, modify, ◌>>=◌, ◌>>◌,
  auth_invalid_credentials,
}
use slowchat.Base.Database.{Database}
use slowchat.Model.{
  Uuid, Time, Text, Store, User, UserCredential, AuthChallenge, ChallengePurpose, AuthSession,
  AuthContext, RevokedReason,
}
use slowchat.Sessions.{Env}
use slowchat.Auth.Tokens.{Crypto, AuthConfig, hash_password}
use slowchat.Auth.Challenges.{find_credential, consume_challenge, save_challenge}
use slowchat.Auth.Revoking.{revoke_user_sessions_in_manager}
use slowchat.Auth.Registration.{consumed, same_credential, or_raise}

abbrev pub with_password : Time → Text → UserCredential → UserCredential
with_password now hash c = record c { password_hash = some hash; password_changed_at = now }

module _ (db : Database) (crypto : Crypto) (config : AuthConfig) where
  open db use {find_one, save, update, transaction}

  -- !credential?.passwordHash || !verify(credential.passwordHash, password)
  abbrev pub knows_password : Text → Option UserCredential → Bool
  knows_password password none = Bool.false
  knows_password password (some c) = elim c.password_hash [
    | none ↦ Bool.false
    | some hash ↦ crypto.verify hash password
  ]

  unfoldable pub set_password : Time → Uuid → Text → Store → Store
  set_password now user_id hash s = record s {
    credentials = update (λ c. c.user_id == user_id) (with_password now hash) s.credentials;
  }

  unfoldable pub change_body : Env → AuthContext → Text → Bool → Action Store (List AuthSession)
  unfolding set_password
  change_body env context hash revoke_other_sessions = do
    modify (set_password env.now context.user_id hash)
    (if revoke_other_sessions
        then revoke_user_sessions_in_manager db env.now context.user_id
            RevokedReason.password_changed (some context.session_id)
        else pure [])

  unfoldable pub change_password :
      Env → AuthContext → Text → Text → Bool → Action Store (List AuthSession)
  unfolding change_body
  change_password env context current_password new_password revoke_other_sessions = do
    credential ← gets (λ s. find_one (λ c. c.user_id == context.user_id) s.credentials)
    (if knows_password current_password credential
        then elim (hash_password crypto config new_password) [
          | err e ↦ raise e
          | ok hash ↦ transaction (change_body env context hash revoke_other_sessions)
        ]
        else raise (app_error auth_invalid_credentials 401))

  unfoldable pub save_credential : UserCredential → Store → Store
  save_credential c s = record s { credentials = save same_credential c s.credentials }

  -- A reset of an identity without an account uses the challenge up and answers as any other.
  abbrev pub reset_account :
      Env → Text → Option (UserCredential × Option User) → Action Store (List AuthSession)
  reset_account env hash none = pure []
  reset_account env hash (some (c, _)) = do
    modify (save_credential (with_password env.now hash c))
    revoke_user_sessions_in_manager db env.now c.user_id RevokedReason.password_reset none

  abbrev pub reset_consumed :
      Env → Text → Result AuthChallenge → Action Store (Result (List AuthSession))
  reset_consumed env hash (err e) = pure (err e)
  reset_consumed env hash (ok challenge) = do
    credential ← gets (find_credential db challenge.identity)
    modify (save_challenge db (consumed env.now challenge))
    revoked ← reset_account env hash credential
    pure (ok revoked)

  unfoldable pub reset_body : Env → Uuid → Text → Text → Action Store (Result (List AuthSession))
  unfolding save_credential
  reset_body env challenge_id code hash = do
    challenge ←
        consume_challenge db crypto config env.now challenge_id code ChallengePurpose.password_reset
    reset_consumed env hash challenge

  unfoldable pub confirm_password_reset : Env → Uuid → Text → Text → Action Store (List AuthSession)
  unfolding reset_body
  confirm_password_reset env challenge_id code new_password =
      elim (hash_password crypto config new_password) [
        | err e ↦ raise e
        | ok hash ↦
            transaction (reset_body env challenge_id code hash) >>= or_raise db crypto config
      ]
