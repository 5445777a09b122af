-- ===== src/Auth/Registration.antt =====
-- apps/im-server/src/modules/auth/services/auth-command.service.ts: `register`. `secret` is what
-- randomBytes gives for the new token.
use slowchat.Base.{Bool, false, Option, none, some, List, is_some, same_text, ◌==◌, ◌+◌}
use slowchat.Base.Action.{
  Action, Result, ok, err, pure, raise, gets, modify, throw_if, ◌>>=◌, ◌>>◌,
  identifier_already_registered, username_taken,
}
use slowchat.Base.Database.{Database}
use slowchat.Model.{
  Uuid, Time, Text, Store, User, UserStatus, UserType, UserCredential, UserPrivacySettings,
  Audience, AuthChallenge, AuthIdentity, IdentityType, ChallengePurpose, AuthSession,
  RequestMetadata,
}
use slowchat.Sessions.{Env}
use slowchat.Auth.Tokens.{Crypto, AuthConfig, hash_password}
use slowchat.Auth.Challenges.{find_credential, consume_challenge, save_challenge}
use slowchat.Auth.Issue.{DeviceInput, SessionIssue, TokenResponse, issue_session, token_response}

pub record RegisterRequest : Type 0 where
  pub challenge_id : Uuid
  pub code : Text
  pub username : Text
  pub password : Text
  pub device : DeviceInput

abbrev pub same_user : User → User → Bool
same_user a b = a.id == b.id

abbrev pub same_credential : UserCredential → UserCredential → Bool
same_credential a b = a.user_id == b.user_id

abbrev pub same_privacy : UserPrivacySettings → UserPrivacySettings → Bool
same_privacy a b = a.user_id == b.user_id

-- The surroundings after one UUID was taken.
abbrev pub after_uuid : Env → Env
after_uuid env = record { now = env.now; uuid = λ k. env.uuid (k + 1) }

abbrev pub registered_user : Uuid → Text → User
registered_user id username = record {
  id = id;
  username = some username;
  username_normalized = some username;
  nickname = username;
  avatar_url = none;
  signature = none;
  region = none;
  status = UserStatus.active;
  user_type = UserType.user;
}

abbrev email_of : AuthIdentity → Option Text
email_of identity = elim identity.type [
  | IdentityType.email ↦ some identity.value
  | IdentityType.phone ↦ none
]

abbrev phone_of : AuthIdentity → Option Text
phone_of identity = elim identity.type [
  | IdentityType.email ↦ none
  | IdentityType.phone ↦ some identity.value
]

abbrev pub registered_credential : Time → Uuid → Text → AuthIdentity → UserCredential
registered_credential now user_id password_hash identity = record {
  user_id = user_id;
  password_hash = some password_hash;
  email_normalized = email_of identity;
  phone_e164 = phone_of identity;
  identity_verified_at = now;
  password_changed_at = now;
}

-- The defaults of the columns.
abbrev pub default_privacy : Uuid → UserPrivacySettings
default_privacy user_id = record {
  user_id = user_id;
  search_audience = Audience.everyone;
  friend_request_audience = Audience.everyone;
  group_invite_audience = Audience.contacts;
  online_status_audience = Audience.contacts;
  last_seen_audience = Audience.contacts;
  allow_stranger_messages = false;
  allow_bot_direct_messages = false;
}

abbrev pub has_username : Text → User → Bool
has_username username u = elim u.username_normalized [
  | none ↦ false
  | some taken ↦ same_text taken username
]

abbrev pub consumed : Time → AuthChallenge → AuthChallenge
consumed now c = record c { consumed_at = some now }

module _ (db : Database) (crypto : Crypto) (config : AuthConfig) where
  open db use {find_one, save, insert, transaction}

  unfoldable pub save_account : Time → User → Text → AuthIdentity → AuthChallenge → Store → Store
  unfolding save_challenge
  save_account now user password_hash identity challenge s =
      save_challenge db (consumed now challenge) (record s {
        users = save same_user user s.users;
        credentials =
            save same_credential (registered_credential now user.id password_hash identity)
              s.credentials;
        privacy_settings = save same_privacy (default_privacy user.id) s.privacy_settings;
      })

  -- The part of `register` after its challenge was accepted.
  unfoldable pub register_account :
      Env
      → Text
      → Text
      → RegisterRequest
      → RequestMetadata
      → AuthChallenge
      → Action Store (User × SessionIssue)
  unfolding save_account
  register_account env secret password_hash input metadata challenge =
      let user = registered_user (env.uuid 0) input.username in
      (do
        existing ← gets (λ s. find_one (has_username input.username) s.users)
        throw_if (is_some existing) username_taken 409
        credential ← gets (find_credential db challenge.identity)
        throw_if (is_some credential) identifier_already_registered 409
        modify (save_account env.now user password_hash challenge.identity challenge)
        issue ← issue_session db crypto config (after_uuid env) secret user.id input.device metadata
        pure (user, issue))

  abbrev pub register_consumed :
      Env
      → Text
      → Text
      → RegisterRequest
      → RequestMetadata
      → Result AuthChallenge
      → Action Store (Result (User × SessionIssue))
  register_consumed env secret password_hash input metadata (err e) = pure (err e)
  register_consumed env secret password_hash input metadata (ok challenge) = do
    account ← register_account env secret password_hash input metadata challenge
    pure (ok account)

  unfoldable pub register_body :
      Env
      → Text
      → Text
      → RegisterRequest
      → RequestMetadata
      → Action Store (Result (User × SessionIssue))
  register_body env secret password_hash input metadata = do
    challenge ←
        consume_challenge db crypto config env.now input.challenge_id input.code
          ChallengePurpose.registration
    register_consumed env secret password_hash input metadata challenge

  -- if ("error" in result) throw result.error
  abbrev pub or_raise : {A : Type 0} → Result A → Action Store A
  or_raise (err e) = raise e
  or_raise (ok a) = pure a

  unfoldable pub register :
      Env
      → Text
      → RegisterRequest
      → RequestMetadata
      → Action Store (TokenResponse × List AuthSession)
  unfolding register_body
  register env secret input metadata = elim (hash_password crypto config input.password) [
    | err e ↦ raise e
    | ok password_hash ↦ (do
      result ← transaction (register_body env secret password_hash input metadata)
      (user, issue) ← or_raise result
      pure (token_response db crypto user issue, issue.revoked_sessions))
  ]
