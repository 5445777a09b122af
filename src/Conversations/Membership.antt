-- ===== src/Conversations/Membership.antt =====
-- apps/im-server/src/modules/conversations/services/conversation-command.service.ts:
-- `lockMembership`, which every command on an existing conversation begins with. Row locks are not
-- modelled: a command runs as one step.
pub mod Found
use slowchat.Base.{List, map}
use slowchat.Base.Action.{Check, conversation_not_found}
use slowchat.Base.Check.{pure, asks, or_throw, ◌>>=◌}
use slowchat.Base.Database.{Database}
use slowchat.Model.{
  Uuid, Store, Conversation, ConversationUserState, active_conversation, active_member, active_in,
  state_of,
}

pub record Membership : Type 0 where
  pub conversation : Conversation
  pub state : ConversationUserState
  pub audience : List Uuid

module _ (db : Database) where
  open db use {find_one, find_by}

  unfoldable pub lock_membership : Uuid → Uuid → Check Store Membership
  lock_membership user_id conversation_id = do
    found ← asks (λ s. find_one (active_conversation conversation_id) s.conversations)
    joined ← asks (λ s. find_one (active_member conversation_id user_id) s.members)
    conversation ← or_throw found conversation_not_found 404
    _ ← or_throw joined conversation_not_found 404
    locked ← asks (λ s. find_one (state_of conversation_id user_id) s.states)
    state ← or_throw locked conversation_not_found 404
    members ← asks (λ s. find_by (active_in conversation_id) s.members)
    pure (record {
      conversation = conversation;
      state = state;
      audience = map (λ m. m.user_id) members;
    })
