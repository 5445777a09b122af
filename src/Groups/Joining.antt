-- ===== src/Groups/Joining.antt =====
-- apps/im-server/src/modules/groups/services/group-command.service.ts: `addMember`, and the count of
-- members when one goes.
use slowchat.Base.{◌+◌, ◌-◌, ◌&&◌, ◌==◌, if◌then◌else◌, none}
use slowchat.Base.Action.{Action, ok, err, check_violation, conversations_member_count_ck}
use slowchat.Base.Database.{Database}
use slowchat.Model.{
  Uuid, Time, Store, Conversation, ConversationMember, Role, MemberStatus, same_member, same_state,
  same_conversation,
}
use slowchat.Conversations.Direct.{fresh_state}

abbrev pub joined_member : Time → Conversation → Uuid → Role → ConversationMember
joined_member now conversation user_id role = record {
  conversation_id = conversation.id;
  user_id = user_id;
  role = role;
  status = MemberStatus.active;
  nickname = none;
  joined_seq = conversation.last_seq;
  joined_at = now;
  left_at = none;
  mute_until = none;
}

-- conversation.memberCount += 1, as it is saved
abbrev pub counted_up : Time → Conversation → Conversation
counted_up now c = record c { member_count = c.member_count + 1; updated_at = now }

module _ (db : Database) where
  open db use {save, update, exists_by}

  -- `conversation` is the row that the command has read.
  unfoldable pub add_member : Time → Conversation → Uuid → Role → Store → Store
  add_member now conversation user_id role s = record s {
    members = save same_member (joined_member now conversation user_id role) s.members;
    states =
        save same_state (fresh_state now conversation.id user_id conversation.last_seq) s.states;
    conversations = save same_conversation (counted_up now conversation) s.conversations;
  }

  unfoldable pub save_member : ConversationMember → Store → Store
  save_member member s = record s { members = save same_member member s.members }

  -- increment({ id }, "memberCount", -1), under CHECK (member_count >= 0)
  unfoldable pub decrement_member_count : Uuid → Action Store Unit
  decrement_member_count conversation_id s =
      if exists_by (λ c. c.id == conversation_id && c.member_count == 0) s.conversations
      then (err (check_violation conversations_member_count_ck), s)
      else (
        ok tt,
        record s {
          conversations =
              update (λ c. c.id == conversation_id)
                (λ c. record c { member_count = c.member_count - 1 }) s.conversations;
        },
      )
