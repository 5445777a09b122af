-- ===== src/Auth/Issue.antt =====
-- apps/im-server/src/modules/auth/services/auth-command.service.ts: `issueSession` and
-- `tokenResponse`. The advisory lock lets one command of a user run at a time; `secret` is what
-- randomBytes gives for the new token.
pub mod Alone
use slowchat.Base.{
  ℕ, Bool, true, false, ◌+◌, ◌*◌, ◌&&◌, leb, ◌==◌, Option, none, some, List, [], ◌∷◌, is_some, not,
  same_text,
}
use slowchat.Base.Action.{Action, pure, gets, modify, throw_if, ◌>>=◌, ◌>>◌, device_limit_reached}
use slowchat.Base.Database.{Database}
use slowchat.Model.{
  Uuid, Time, Text, Store, User, Device, AuthSession, AccessStatus, RefreshToken, TokenStatus,
  RequestMetadata, RevokedReason, access_is_active,
}
use Prim.Native.String.{String}
use slowchat.Sessions.{Env, same_session}
use slowchat.Devices.{active_on, save_device}
use slowchat.Auth.Tokens.{Crypto, AuthConfig, create_refresh_token}
use slowchat.Auth.Revoking.{revoke_each}

pub record DeviceInput : Type 0 where
  pub client_device_id : Text
  pub platform : String
  pub name : String
  pub app_version : Option String

pub record SessionIssue : Type 0 where
  pub device : Device
  pub refresh_token : Text
  pub session : AuthSession
  pub revoked_sessions : List AuthSession
  pub new_device : Bool

pub record TokenResponse : Type 0 where
  pub access_token : Text
  pub expires_in : ℕ
  pub refresh_token : Text
  pub refresh_expires_in : ℕ
  pub user : User
  pub device : Device
  pub session : AuthSession

-- { userId, clientDeviceId: input.clientDeviceId }
abbrev pub client_device : Uuid → DeviceInput → Device → Bool
client_device user_id input d =
    d.user_id == user_id && same_text d.client_device_id input.client_device_id

-- { userId, status: "ACTIVE" }
abbrev pub active_device_of : Uuid → Device → Bool
active_device_of user_id d = d.user_id == user_id && access_is_active d.status

abbrev pub created_device : Time → Uuid → Uuid → DeviceInput → RequestMetadata → Device
created_device now id user_id input metadata = record {
  id = id;
  user_id = user_id;
  client_device_id = input.client_device_id;
  platform = input.platform;
  name = input.name;
  app_version = input.app_version;
  status = AccessStatus.active;
  last_ip = metadata.ip;
  last_user_agent = metadata.user_agent;
  last_seen_at = now;
  revoked_at = none;
}

abbrev pub renewed_device : Time → DeviceInput → RequestMetadata → Device → Device
renewed_device now input metadata d = record d {
  platform = input.platform;
  name = input.name;
  app_version = input.app_version;
  status = AccessStatus.active;
  revoked_at = none;
  last_ip = metadata.ip;
  last_user_agent = metadata.user_agent;
  last_seen_at = now;
}

-- now + 30 * 24 * 60 * 60 * 1000
abbrev pub session_expiry : Time → Time
session_expiry now = now + 2592000000

abbrev pub created_session : Time → Uuid → Uuid → Uuid → Uuid → RequestMetadata → AuthSession
created_session now id family_id user_id device_id metadata = record {
  id = id;
  user_id = user_id;
  device_id = device_id;
  token_family_id = family_id;
  status = AccessStatus.active;
  revoked_reason = none;
  last_ip = metadata.ip;
  last_user_agent = metadata.user_agent;
  last_used_at = now;
  expires_at = session_expiry now;
  revoked_at = none;
}

abbrev pub same_token : RefreshToken → RefreshToken → Bool
same_token a b = a.id == b.id

module _ (db : Database) where
  open db use {find_one, find_by, count_by, save}

  unfoldable pub save_session : AuthSession → Store → Store
  save_session x s = record s { sessions = save same_session x s.sessions }

  unfoldable pub save_token : RefreshToken → Store → Store
  save_token t s = record s { refresh_tokens = save same_token t s.refresh_tokens }

  module _ (crypto : Crypto) (config : AuthConfig) where
    -- The device that signs in: a new one only below the limit.
    unfoldable pub signed_in_device :
        Env → Uuid → DeviceInput → RequestMetadata → Option Device → Action Store Device
    signed_in_device env user_id input metadata none = do
      active_count ← gets (λ s. count_by (active_device_of user_id) s.devices)
      throw_if (leb config.max_devices active_count) device_limit_reached 409
      pure (created_device env.now (env.uuid 0) user_id input metadata)
    signed_in_device env user_id input metadata (some d) =
        pure (renewed_device env.now input metadata d)

    -- The new session and its refresh token, with the UUIDs that come next (a device that was found
    -- takes none: the first is then left over).
    unfoldable pub open_session :
        Env
        → Text
        → Uuid
        → RequestMetadata
        → Device
        → Bool
        → List AuthSession
        → Action Store SessionIssue
    unfolding save_session save_token
    open_session env secret user_id metadata device new_device revoked =
        let session =
          created_session env.now (env.uuid 1) (env.uuid 2) user_id device.id metadata in
        let refresh = create_refresh_token crypto config (env.uuid 3) secret in
        (do
          modify (save_session session)
          modify (
              save_token (record {
                id = refresh.id;
                session_id = session.id;
                token_family_id = session.token_family_id;
                token_hash = refresh.hash;
                status = TokenStatus.active;
                replaced_by_token_id = none;
                used_at = none;
                expires_at = session.expires_at;
              }))
          pure (record {
            device = device;
            refresh_token = refresh.token;
            session = session;
            revoked_sessions = revoked;
            new_device = new_device;
          }))

    unfoldable pub issue_session :
        Env → Text → Uuid → DeviceInput → RequestMetadata → Action Store SessionIssue
    unfolding signed_in_device open_session
    issue_session env secret user_id input metadata = do
      found ← gets (λ s. find_one (client_device user_id input) s.devices)
      device ← signed_in_device env user_id input metadata found
      modify (save_device db device)
      existing ← gets (λ s. find_by (active_on user_id device.id) s.sessions)
      revoked ← revoke_each db env.now RevokedReason.session_replaced none existing
      open_session env secret user_id metadata device (not (is_some found)) revoked

  unfoldable pub token_response : Crypto → User → SessionIssue → TokenResponse
  token_response crypto user issue = record {
    access_token =
        crypto.sign_access_token (record {
          user_id = user.id;
          session_id = issue.session.id;
          device_id = issue.device.id;
        });
    expires_in = 900;
    refresh_token = issue.refresh_token;
    refresh_expires_in = 2592000;
    user = user;
    device = issue.device;
    session = issue.session;
  }
