-- ===== src/Groups/Profile.antt =====
-- apps/im-server/src/modules/groups/services/group-command.service.ts: `create` and `updateProfile`.
use slowchat.Base.{ℕ, ◌+◌, Bool, false, Option, none, some, [], ◌∷◌, ◌==◌, or_else}
use slowchat.Base.Action.{Action, pure, gets, modify, checked, ◌>>=◌, ◌>>◌}
use slowchat.Base.Database.{Database}
use slowchat.Model.{
  Uuid, Time, Digest, Text, Store, AuthContext, Conversation, ConversationType, ConversationStatus,
  ConversationMember, ConversationUserState, Role, MemberStatus, GroupProfile, JoinMode, Payload,
  SystemKind, Trace, same_conversation, same_member, same_state,
}
use slowchat.Sessions.{Env, validate_with_manager}
use slowchat.Outbox.Writer
use slowchat.Conversations.Direct.{fresh_state, conversation_created_event}
use slowchat.Groups.Locking.{lock_as_member, assert_admin, active_member_ids}
use slowchat.Groups.System

pub record CreateGroupRequest : Type 0 where
  pub title : Text
  pub announcement : Option Text
  pub max_members : ℕ
  pub join_mode : JoinMode
  pub allow_member_invites : Bool

pub record UpdateGroupRequest : Type 0 where
  pub title : Option Text
  pub announcement : Option (Option Text)
  pub max_members : Option ℕ
  pub join_mode : Option JoinMode
  pub allow_member_invites : Option Bool
  pub all_members_muted : Option Bool

abbrev pub same_profile : GroupProfile → GroupProfile → Bool
same_profile a b = a.conversation_id == b.conversation_id

abbrev pub new_group : Env → Uuid → CreateGroupRequest → Conversation
new_group env user_id input = record {
  id = env.uuid 0;
  type = ConversationType.group;
  direct_key = none;
  creator_id = user_id;
  owner_id = some user_id;
  title = some input.title;
  avatar_attachment_id = none;
  last_seq = 0;
  last_message_id = none;
  last_message_at = none;
  member_count = 1;
  status = ConversationStatus.active;
  version = 1;
  deleted_at = none;
  created_at = env.now;
  updated_at = env.now;
}

abbrev pub new_profile : Uuid → CreateGroupRequest → GroupProfile
new_profile id input = record {
  conversation_id = id;
  title = input.title;
  announcement = input.announcement;
  max_members = input.max_members;
  join_mode = input.join_mode;
  allow_member_invites = input.allow_member_invites;
  all_members_muted = false;
  version = 1;
}

abbrev pub new_owner : Env → Uuid → ConversationMember
new_owner env user_id = record {
  conversation_id = env.uuid 0;
  user_id = user_id;
  role = Role.owner;
  status = MemberStatus.active;
  nickname = none;
  joined_seq = 0;
  joined_at = env.now;
  left_at = none;
  mute_until = none;
}

-- Object.assign(profile, …): the settings that are given, and the next version.
unfoldable pub updated_profile : UpdateGroupRequest → GroupProfile → GroupProfile
updated_profile input p = record p {
  title = or_else input.title p.title;
  announcement = or_else input.announcement p.announcement;
  max_members = or_else input.max_members p.max_members;
  join_mode = or_else input.join_mode p.join_mode;
  allow_member_invites = or_else input.allow_member_invites p.allow_member_invites;
  all_members_muted = or_else input.all_members_muted p.all_members_muted;
  version = p.version + 1;
}

abbrev pub retitled : Time → Text → Conversation → Conversation
retitled now title c = record c { title = some title; version = c.version + 1; updated_at = now }

module _ (db : Database) (payload_hash : Payload → Digest) where
  open db use {save, transaction}

  -- The rows of a new group; `queries.get` then reads the conversation.
  unfoldable pub create : Env → AuthContext → CreateGroupRequest → Trace → Action Store Uuid
  create env auth input trace = transaction (do
    validate_with_manager db env.now auth
    let conversation : Conversation = new_group env auth.user_id input
    let state : ConversationUserState = fresh_state env.now (env.uuid 0) auth.user_id 0
    modify (λ s. record s {
      conversations = save same_conversation conversation s.conversations;
      profiles = save same_profile (new_profile (env.uuid 0) input) s.profiles;
      members = save same_member (new_owner env auth.user_id) s.members;
      states = save same_state state s.states;
    })
    Writer.append db env.now
        (conversation_created_event env auth conversation state (auth.user_id ∷ []) trace)
    pure (env.uuid 0))

  unfoldable pub update_profile :
      Env → AuthContext → Uuid → UpdateGroupRequest → Action Store GroupProfile
  update_profile env auth conversation_id input = transaction (do
    validate_with_manager db env.now auth
    (conversation, old, member) ← checked (lock_as_member db auth.user_id conversation_id)
    checked (assert_admin member.role)
    let profile : GroupProfile = updated_profile input old
    modify (λ s. record s {
      profiles = save same_profile profile s.profiles;
      conversations =
          save same_conversation (retitled env.now profile.title conversation) s.conversations;
    })
    ids ← gets (active_member_ids db conversation_id)
    System.append db payload_hash env auth conversation_id SystemKind.group_updated none ids 0
    pure profile)
