-- ===== src/Users.antt =====
-- apps/im-server/src/modules/users/services/user.service.ts: `updateCurrent`, `deleteCurrent`,
-- `getPublic` and `updatePrivacy`. The columns extensions, version, lastOnlineAt and deletedAt are left
-- out; what the sockets are told after a deletion is the list of sessions that it answers.
pub mod Erasure
use slowchat.Base.{
  ℕ, Bool, true, false, not, ◌&&◌, ◌||◌, ◌==◌, any, Option, none, some, List, [], ◌∷◌, ◌++◌, reject,
  is_some, or_else, same_text, if◌then◌else◌,
}
use Prim.Native.String.{String}
use slowchat.Base.Action.{
  Action, pure, gets, modify, throw_if, or_throw, ◌>>=◌, ◌>>◌, not_found, username_taken,
  auth_invalid_credentials,
}
use slowchat.Base.Database.{Database}
use slowchat.Model.{
  Uuid, Time, Text, Store, User, UserStatus, Device, AuthSession, AccessStatus, RefreshToken,
  RevokedReason, Friendship, FriendRequest, Block, UserPrivacySettings, Audience, AuthContext,
  user_is_active, access_is_active,
}
use slowchat.Sessions.{Env, revoked_session}
use slowchat.Devices.{revoked_device}
use slowchat.Contacts.Policy.{blocks_between}
use slowchat.Auth.Tokens.{Crypto, AuthConfig, is_empty}
use slowchat.Auth.Revoking.{active_of, revoked_token}
use slowchat.Auth.Issue.{active_device_of}
use slowchat.Auth.Registration.{same_user, same_privacy, has_username}
use slowchat.Auth.Passwords.{knows_password}

-- A field that is none is not given; one that may be null is none inside.
pub record UpdateCurrentUser : Type 0 where
  pub username : Option Text
  pub nickname : Option Text
  pub avatar_url : Option (Option String)
  pub signature : Option (Option String)
  pub region : Option (Option String)

pub record UpdatePrivacy : Type 0 where
  pub search_audience : Option Audience
  pub friend_request_audience : Option Audience
  pub group_invite_audience : Option Audience
  pub online_status_audience : Option Audience
  pub last_seen_audience : Option Audience
  pub allow_stranger_messages : Option Bool
  pub allow_bot_direct_messages : Option Bool

abbrev taken : ℕ → Text → Text
taken n [] = []
taken ℕ.zero (c ∷ cs) = []
taken (ℕ.suc n) (c ∷ cs) = c ∷ taken n cs

-- `deleted_${id.replaceAll("-", "").slice(0, 24)}`
abbrev pub tombstone : Text → Text
tombstone id =
    (100 ∷ 101 ∷ 108 ∷ 101 ∷ 116 ∷ 101 ∷ 100 ∷ 95 ∷ []) ++ taken 24 (reject (λ c. c == 45) id)

-- "Deleted User"
abbrev deleted_nickname : Text
deleted_nickname = 68 ∷ 101 ∷ 108 ∷ 101 ∷ 116 ∷ 101 ∷ 100 ∷ 32 ∷ 85 ∷ 115 ∷ 101 ∷ 114 ∷ []

abbrev pub deleted_user : Text → User → User
deleted_user name u = record u {
  status = UserStatus.deleted;
  username = some name;
  username_normalized = some name;
  nickname = deleted_nickname;
  avatar_url = none;
  signature = none;
  region = none;
}

abbrev pub friendship_with : Uuid → Friendship → Bool
friendship_with user_id f = f.user_id == user_id || f.contact_user_id == user_id

abbrev pub request_with : Uuid → FriendRequest → Bool
request_with user_id r = r.requester_id == user_id || r.recipient_id == user_id

abbrev pub block_with : Uuid → Block → Bool
block_with user_id b = b.user_id == user_id || b.blocked_user_id == user_id

-- session_id IN (SELECT id FROM auth_sessions WHERE user_id = :userId)
abbrev pub token_of : Uuid → List AuthSession → RefreshToken → Bool
token_of user_id sessions t = any (λ x. x.user_id == user_id && x.id == t.session_id) sessions

-- input.username && input.username !== user.usernameNormalized
abbrev changes_username : Option Text → User → Bool
changes_username none u = false
changes_username (some name) u =
    not (is_empty name) && not (same_text (or_else u.username_normalized []) name)

module _ (db : Database) where
  open db use {find_one, find_by, exists_by, save, update, delete, transaction}

  unfoldable pub require_user : Uuid → Action Store User
  require_user user_id = do
    found ← gets (λ s. find_one (λ u. u.id == user_id) s.users)
    or_throw found not_found 404

  unfoldable pub get_public : Uuid → Uuid → Action Store User
  unfolding require_user
  get_public viewer_id user_id = do
    user ← require_user user_id
    throw_if (not (user_is_active user.status)) not_found 404
    blocked ← gets (λ s. exists_by (blocks_between viewer_id user_id) s.blocks)
    throw_if blocked not_found 404
    pure user

  abbrev pub renamed : UpdateCurrentUser → User → User
  renamed input u =
      if changes_username input.username u
      then record u { username = input.username; username_normalized = input.username }
      else u

  abbrev pub updated_user : UpdateCurrentUser → User → User
  updated_user input u =
      let named = renamed input u in
      record named {
        nickname = or_else input.nickname u.nickname;
        avatar_url = or_else input.avatar_url u.avatar_url;
        signature = or_else input.signature u.signature;
        region = or_else input.region u.region;
      }

  unfoldable pub update_current : Uuid → UpdateCurrentUser → Action Store User
  unfolding require_user
  update_current user_id input = do
    user ← require_user user_id
    duplicate ← gets (λ s. find_one (has_username (or_else input.username [])) s.users)
    throw_if (changes_username input.username user && is_some duplicate) username_taken 409
    modify (λ s. record s { users = save same_user (updated_user input user) s.users })
    pure (updated_user input user)

  abbrev pub updated_privacy : UpdatePrivacy → UserPrivacySettings → UserPrivacySettings
  updated_privacy input p = record p {
    search_audience = or_else input.search_audience p.search_audience;
    friend_request_audience = or_else input.friend_request_audience p.friend_request_audience;
    group_invite_audience = or_else input.group_invite_audience p.group_invite_audience;
    online_status_audience = or_else input.online_status_audience p.online_status_audience;
    last_seen_audience = or_else input.last_seen_audience p.last_seen_audience;
    allow_stranger_messages = or_else input.allow_stranger_messages p.allow_stranger_messages;
    allow_bot_direct_messages = or_else input.allow_bot_direct_messages p.allow_bot_direct_messages;
  }

  unfoldable pub update_privacy : Uuid → UpdatePrivacy → Action Store UserPrivacySettings
  update_privacy user_id input = do
    found ← gets (λ s. find_one (λ p. p.user_id == user_id) s.privacy_settings)
    value ← or_throw found not_found 404
    modify (λ s. record s {
      privacy_settings = save same_privacy (updated_privacy input value) s.privacy_settings;
    })
    pure (updated_privacy input value)

  -- Sessions, their tokens and devices are revoked.
  unfoldable pub revoke_access : Time → Uuid → Store → Store
  revoke_access now user_id s =
      let sessions =
        update (active_of user_id) (revoked_session db now RevokedReason.account_deleted)
          s.sessions in
      record s {
        sessions = sessions;
        refresh_tokens = update (token_of user_id sessions) revoked_token s.refresh_tokens;
        devices = update (active_device_of user_id) (revoked_device now) s.devices;
      }

  -- Friendships, requests, blocks and the credential are deleted.
  unfoldable pub erase_relations : Uuid → Store → Store
  erase_relations user_id s = record s {
    friendships = delete (friendship_with user_id) s.friendships;
    friend_requests = delete (request_with user_id) s.friend_requests;
    blocks = delete (block_with user_id) s.blocks;
    credentials = delete (λ c. c.user_id == user_id) s.credentials;
  }

  module _ (crypto : Crypto) (config : AuthConfig) where
    unfoldable pub save_deleted : User → Store → Store
    save_deleted u s = record s {
      users = save same_user (deleted_user (tombstone (crypto.print_uuid u.id)) u) s.users;
    }

    unfoldable pub delete_body : Time → Uuid → Action Store (List AuthSession)
    unfolding revoke_access erase_relations save_deleted
    delete_body now user_id = do
      found ← gets (λ s. find_one (λ u. u.id == user_id) s.users)
      user ← or_throw found not_found 404
      sessions ← gets (λ s. find_by (active_of user_id) s.sessions)
      modify (revoke_access now user_id)
      modify (erase_relations user_id)
      modify (save_deleted user)
      pure sessions

    unfoldable pub delete_current : Env → AuthContext → Text → Action Store (List AuthSession)
    unfolding delete_body
    delete_current env context password = do
      credential ← gets (λ s. find_one (λ c. c.user_id == context.user_id) s.credentials)
      throw_if (not (knows_password db crypto config password credential)) auth_invalid_credentials
          401
      transaction (delete_body env.now context.user_id)
