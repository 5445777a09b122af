-- ===== src/Messages/Hiding/Guard.antt =====
-- apps/im-server/src/modules/messages/services/advanced-message-command.service.ts: the reads of
-- `clearHistory`.
use slowchat.Base.Action.{Check, conversation_not_found, conversation_forbidden}
use slowchat.Base.Check.{pure, asks, or_throw, ◌>>=◌}
use slowchat.Base.Database.{Database}
use slowchat.Model.{Uuid, Store, Conversation, ConversationUserState, active_conversation, state_of}
use slowchat.Messages.Access.{member_in}

module _ (db : Database) where
  unfoldable pub clear_check : Uuid → Uuid → Check Store (Conversation × ConversationUserState)
  clear_check user_id conversation_id = do
    found ← asks (λ s. db.find_one (active_conversation conversation_id) s.conversations)
    conversation ← or_throw found conversation_not_found 404
    joined ← asks (member_in db user_id conversation_id)
    _ ← or_throw joined conversation_forbidden 403
    locked ← asks (λ s. db.find_one (state_of conversation_id user_id) s.states)
    state ← or_throw locked conversation_not_found 404
    pure (conversation, state)
