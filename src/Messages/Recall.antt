-- ===== src/Messages/Recall.antt =====
-- apps/im-server/src/modules/messages/services/advanced-message-command.service.ts: `recall`.
pub mod Guard
pub mod Authority
use slowchat.Base.{ℕ, some}
use slowchat.Base.Action.{
  Action, Check, Result, ok, err, message_not_found, message_forbidden, message_already_recalled,
  message_recall_window_expired, pure, modify, gets, checked, ◌>>=◌, ◌>>◌,
}
use slowchat.Base.Database.{Database}
use slowchat.Model.{
  Uuid, Time, Store, AuthContext, Message, MessageView, Trace, EventType, EventData, is_owner,
  is_admin, is_member, same_message,
}
use slowchat.Sessions.{Env, validate_with_manager}
use slowchat.Views.{to_message}
use slowchat.Outbox.Writer
use slowchat.Messages.Access.{member_in, audience, message_event}
use slowchat.Messages.Recall.Guard.{recall_check}

module _ (db : Database) (recall_window_seconds : ℕ) where
  open db use {save, transaction}

  -- message.recalledAt = new Date(); message.recalledBy = auth.userId
  abbrev pub recalled : Env → AuthContext → Message → Message
  recalled env auth m = record m { recalled_at = some env.now; recalled_by = some auth.user_id }

  unfoldable pub recall_body : Env → AuthContext → Uuid → Trace → Action Store MessageView
  recall_body env auth message_id trace = do
    validate_with_manager db env.now auth
    found ← checked (recall_check db recall_window_seconds env.now auth.user_id message_id)
    let message : Message = recalled env auth found
    modify (λ s. record s { messages = save same_message message s.messages })
    listeners ← gets (audience db message.conversation_id)
    Writer.append db env.now (
        message_event (env.uuid 0) env auth EventType.message_recalled message.id listeners trace
          (EventData.message_data (to_message message)))
    pure (to_message message)

  unfoldable pub recall : Env → AuthContext → Uuid → Trace → Action Store MessageView
  unfolding recall_body
  recall env auth message_id trace = transaction (recall_body env auth message_id trace)
