-- ===== src/Auth/Login.antt =====
-- apps/im-server/src/modules/auth/services/auth-command.service.ts: `createRegistrationChallenge`,
-- `createPasswordResetChallenge` and `login`. A command keeps the rows of the database and the
-- counters of Redis; `draw` is the random number of a code, `secret` that of a token. The log and
-- the text of an error are left out.
use slowchat.Base.{
  ℕ, Bool, true, false, Option, none, some, List, [], ◌∷◌, ◌++◌, is_some, or_else, if◌then◌else◌,
  not,
}
use slowchat.Base.Action.{
  Action, ok, err, app_error, pure, raise, gets, modify, throw_if, ◌>>=◌, ◌>>◌,
  identifier_already_registered, auth_invalid_credentials, auth_account_unavailable,
}
use slowchat.Base.Database.{Database}
use slowchat.Model.{
  Uuid, Text, Digest, Store, User, UserCredential, AuthIdentity, ChallengePurpose, LoginResult,
  RiskReason, AuthSession, RequestMetadata, user_is_active,
}
use slowchat.Sessions.{Env}
use slowchat.Auth.Tokens.{Crypto, AuthConfig, hash_identifier, ip_hash}
use slowchat.Auth.Normalizer.{normalize}
use slowchat.Auth.Limiter.{
  Redis, assert_challenge_allowed, assert_login_allowed, record_login_failure, clear_login_failures,
}
use slowchat.Auth.Challenges.{Delivery, ChallengeResponse, find_credential, create_challenge}
use slowchat.Auth.Issue.{DeviceInput, SessionIssue, TokenResponse, issue_session, token_response}

pub record LoginRequest : Type 0 where
  pub identity : AuthIdentity
  pub password : Text
  pub device : DeviceInput

-- metadata.ip ?? "unknown"
abbrev ip_text : RequestMetadata → Text
ip_text metadata = or_else metadata.ip (117 ∷ 110 ∷ 107 ∷ 110 ∷ 111 ∷ 119 ∷ 110 ∷ [])

abbrev when : Bool → RiskReason → List RiskReason
when true reason = reason ∷ []
when false reason = []

abbrev risk_reasons : SessionIssue → List RiskReason
risk_reasons issue =
    when issue.new_device RiskReason.new_device
    ++ elim issue.revoked_sessions [ [] ↦ [] | _ ∷ _ ↦ RiskReason.session_replaced ∷ [] ]

module _ {Cache : Type 0} where
  -- A command of the database, and one of Redis, on both.
  abbrev pub on_store : {A : Type 0} → Action Store A → Action (Store × Cache) A
  on_store m (s, c) = let (r, s') = m s in (r, (s', c))

  abbrev pub on_cache : {A : Type 0} → Action Cache A → Action (Store × Cache) A
  on_cache m (s, c) = let (r, c') = m c in (r, (s, c'))

module _ (db : Database) (crypto : Crypto) (config : AuthConfig) where
  open db use {find_one, insert, transaction}

  unfoldable pub record_login_attempt :
      Digest
      → Option Uuid
      → Text
      → RequestMetadata
      → LoginResult
      → List RiskReason
      → Action Store Unit
  record_login_attempt identity_hash user_id client_device_id metadata result reasons = modify (λ s.
      record s {
        login_attempts =
            insert
              (record {
                identity_hash = identity_hash;
                user_id = user_id;
                ip = metadata.ip;
                client_device_id = client_device_id;
                result = result;
                risk_reasons = reasons;
              })
              s.login_attempts;
      })

  -- credential?.passwordHash and credential.user, with the password verified
  abbrev pub verified :
      Text → Option (UserCredential × Option User) → Option (UserCredential × User)
  verified password (some (c, some u)) = elim c.password_hash [
    | none ↦ none
    | some hash ↦ if crypto.verify hash password then some (c, u) else none
  ]
  verified password _ = none

  -- The user of a failed attempt: none if there is no such account.
  abbrev pub attempted_user : Option (UserCredential × Option User) → Option Uuid
  attempted_user (some (c, some u)) = elim c.password_hash [ none ↦ none | some _ ↦ some c.user_id ]
  attempted_user _ = none

  module _ {Cache : Type 0} (redis : Redis Cache) where
    unfoldable pub create_registration_challenge :
        Env
        → ℕ
        → AuthIdentity
        → RequestMetadata
        → Action (Store × Cache) (ChallengeResponse × Option Delivery)
    unfolding create_challenge find_credential
    create_registration_challenge env draw identity_input metadata =
        elim (normalize identity_input) [
          | err e ↦ raise e
          | ok identity ↦ (do
            on_cache (
                assert_challenge_allowed redis config (hash_identifier crypto config identity)
                  (ip_hash crypto config (ip_text metadata)))
            credential ← on_store (gets (find_credential db identity))
            throw_if (is_some credential) identifier_already_registered 409
            on_store (
                create_challenge db crypto config env draw ChallengePurpose.registration identity
                  true))
        ]

    unfoldable pub create_password_reset_challenge :
        Env
        → ℕ
        → AuthIdentity
        → RequestMetadata
        → Action (Store × Cache) (ChallengeResponse × Option Delivery)
    unfolding create_challenge find_credential
    create_password_reset_challenge env draw identity_input metadata =
        elim (normalize identity_input) [
          | err e ↦ raise e
          | ok identity ↦ (do
            on_cache (
                assert_challenge_allowed redis config (hash_identifier crypto config identity)
                  (ip_hash crypto config (ip_text metadata)))
            credential ← on_store (gets (find_credential db identity))
            on_store (
                create_challenge db crypto config env draw ChallengePurpose.password_reset identity
                  (is_some credential)))
        ]

    unfoldable pub login_refused :
        AuthIdentity → LoginRequest → RequestMetadata → Option Uuid → Action (Store × Cache) Unit
    unfolding record_login_attempt
    login_refused identity input metadata user_id =
        let identity_hash = hash_identifier crypto config identity in
        (do
          on_store (
              record_login_attempt identity_hash user_id input.device.client_device_id metadata
                LoginResult.failed [])
          on_cache (
              record_login_failure redis config identity_hash
                (ip_hash crypto config (ip_text metadata))))

    unfoldable pub login_accepted :
        Env
        → Text
        → AuthIdentity
        → LoginRequest
        → RequestMetadata
        → UserCredential × User
        → Action (Store × Cache) (TokenResponse × List AuthSession)
    unfolding record_login_attempt
    login_accepted env secret identity input metadata (credential, user) =
        let identity_hash = hash_identifier crypto config identity in
        (do
          throw_if (not (user_is_active user.status)) auth_account_unavailable 403
          issue ← on_store (
              transaction (
                issue_session db crypto config env secret credential.user_id input.device metadata))
          on_cache (clear_login_failures redis identity_hash)
          on_store (
              record_login_attempt identity_hash (some credential.user_id)
                input.device.client_device_id metadata LoginResult.succeeded (risk_reasons issue))
          pure (token_response db crypto user issue, issue.revoked_sessions))

    unfoldable pub login :
        Env
        → Text
        → LoginRequest
        → RequestMetadata
        → Action (Store × Cache) (TokenResponse × List AuthSession)
    unfolding login_refused login_accepted
    login env secret input metadata = elim (normalize input.identity) [
      | err e ↦ raise e
      | ok identity ↦ (do
        on_cache (
            assert_login_allowed redis config (hash_identifier crypto config identity)
              (ip_hash crypto config (ip_text metadata)))
        credential ← on_store (gets (find_credential db identity))
        elim (verified input.password credential) [
          | none ↦ (do
            login_refused identity input metadata (attempted_user credential)
            raise (app_error auth_invalid_credentials 401))
          | some account ↦ login_accepted env secret identity input metadata account
        ])
    ]
