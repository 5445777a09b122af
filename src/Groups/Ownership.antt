-- ===== src/Groups/Ownership.antt =====
-- apps/im-server/src/modules/groups/services/group-command.service.ts: `transferOwner` and `disband`.
pub mod Disbanding
pub mod OneOwner
use slowchat.Base.{◌+◌, not, ◌==◌, none, some}
use slowchat.Base.Action.{
  Action, conversation_forbidden, pure, gets, modify, throw_if, or_throw, checked, ◌>>=◌, ◌>>◌,
}
use slowchat.Base.Database.{Database}
use slowchat.Model.{
  Uuid, Time, Digest, Store, AuthContext, Conversation, ConversationStatus, ConversationMember,
  MemberStatus, Role, Payload, SystemKind, is_owner, active_in, same_conversation,
}
use slowchat.Sessions.{Env, validate_with_manager}
use slowchat.Groups.Locking.{lock_as_member, active_member_ids, target_member}
use slowchat.Groups.Joining.{save_member}
use slowchat.Groups.Leaving.{gone}
use slowchat.Groups.System

abbrev pub with_role : Role → ConversationMember → ConversationMember
with_role role m = record m { role = role }

abbrev pub owned_by : Time → Uuid → Conversation → Conversation
owned_by now user_id c = record c {
  owner_id = some user_id;
  version = c.version + 1;
  updated_at = now;
}

-- conversation.status = "DELETED"; conversation.deletedAt = new Date()
abbrev pub deleted : Time → Conversation → Conversation
deleted now c = record c {
  status = ConversationStatus.deleted;
  deleted_at = some now;
  updated_at = now;
}

module _ (db : Database) (payload_hash : Payload → Digest) where
  open db use {save, update, transaction}

  unfoldable pub save_conversation : Conversation → Store → Store
  save_conversation c s = record s { conversations = save same_conversation c s.conversations }

  -- save([member, target]), and the conversation's owner
  unfoldable pub hand_over :
      Time → Conversation → ConversationMember → ConversationMember → Uuid → Store → Store
  unfolding save_conversation save_member
  hand_over now conversation member target target_user_id s =
      save_conversation (owned_by now target_user_id conversation) (
        save_member db (with_role Role.owner target)
          (save_member db (with_role Role.admin member) s))

  unfoldable pub transfer_body : Env → AuthContext → Uuid → Uuid → Action Store Unit
  unfolding hand_over
  transfer_body env auth conversation_id target_user_id = do
    validate_with_manager db env.now auth
    (conversation, _, member) ← checked (lock_as_member db auth.user_id conversation_id)
    throw_if (not (is_owner member.role)) conversation_forbidden 403
    found ← gets (target_member db conversation_id target_user_id)
    target ← or_throw found conversation_forbidden 403
    throw_if (target_user_id == auth.user_id) conversation_forbidden 403
    modify (hand_over env.now conversation member target target_user_id)
    ids ← gets (active_member_ids db conversation_id)
    System.append db payload_hash env auth conversation_id SystemKind.owner_transferred
        (some target_user_id) ids 0
    pure tt

  unfoldable pub transfer_owner : Env → AuthContext → Uuid → Uuid → Action Store Unit
  unfolding transfer_body
  transfer_owner env auth conversation_id target_user_id =
      transaction (transfer_body env auth conversation_id target_user_id)

  -- UPDATE of the active members, and save(conversation), the entity that was read at the start.
  unfoldable pub close_group : Time → Uuid → Conversation → Store → Store
  unfolding save_conversation
  close_group now conversation_id conversation s =
      save_conversation (deleted now conversation) (record s {
        members = update (active_in conversation_id) (gone now MemberStatus.removed) s.members;
      })

  unfoldable pub disband_body : Env → AuthContext → Uuid → Action Store Unit
  unfolding close_group
  disband_body env auth conversation_id = do
    validate_with_manager db env.now auth
    (conversation, _, member) ← checked (lock_as_member db auth.user_id conversation_id)
    throw_if (not (is_owner member.role)) conversation_forbidden 403
    audience ← gets (active_member_ids db conversation_id)
    System.append db payload_hash env auth conversation_id SystemKind.group_disbanded none audience
        0
    modify (close_group env.now conversation_id conversation)

  unfoldable pub disband : Env → AuthContext → Uuid → Action Store Unit
  unfolding disband_body
  disband env auth conversation_id = transaction (disband_body env auth conversation_id)
