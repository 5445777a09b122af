-- ===== src/Messages/Recall/Guard.antt =====
-- apps/im-server/src/modules/messages/services/advanced-message-command.service.ts: who may recall
-- which message, and until when.
use slowchat.Base.{ℕ, ◌-◌, ◌*◌, Bool, not, ◌&&◌, ◌||◌, ◌==◌, ltb, is_some}
use slowchat.Base.Action.{
  Check, message_not_found, message_forbidden, message_already_recalled,
  message_recall_window_expired,
}
use slowchat.Base.Check.{pure, asks, or_throw, throw_if, ◌>>=◌, ◌>>◌}
use slowchat.Base.Database.{Database}
use slowchat.Model.{Uuid, Time, Store, Message, ConversationMember, is_owner, is_admin, is_member}
use slowchat.Messages.Access.{member_in}

abbrev pub is_moderator : ConversationMember → Bool
is_moderator member = is_owner member.role || is_admin member.role

-- Date.now() - message.createdAt.getTime() > recallWindowSeconds * 1000; a message of the future
-- has a negative age, which is in the window as 0 is.
abbrev pub window_is_over : ℕ → Time → Message → Bool
window_is_over recall_window_seconds now m = ltb (recall_window_seconds * 1000) (now - m.created_at)

module _ (db : Database) (recall_window_seconds : ℕ) where
  unfoldable pub recall_check : Time → Uuid → Uuid → Check Store Message
  recall_check now user_id message_id = do
    found ← asks (λ s. db.find_one (λ m. m.id == message_id) s.messages)
    message ← or_throw found message_not_found 404
    joined ← asks (member_in db user_id message.conversation_id)
    member ← or_throw joined message_forbidden 403
    throw_if (is_some message.recalled_at) message_already_recalled 409
    throw_if
        (not (message.sender_id == user_id)
          && not (is_moderator member && not (is_member member.role)))
        message_forbidden 403
    throw_if (message.sender_id == user_id && window_is_over recall_window_seconds now message)
        message_recall_window_expired 409
    pure message
