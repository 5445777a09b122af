-- ===== src/Messages/Hiding.antt =====
-- apps/im-server/src/modules/messages/services/advanced-message-command.service.ts: `hideMessage` and
-- `clearHistory`, which change the view of one user.
pub mod Guard
use slowchat.Base.{
  ℕ, Bool, true, false, ◌&&◌, ◌==◌, max, if◌then◌else◌, Option, some, List, [], ◌∷◌,
}
use slowchat.Base.Action.{
  Action, Check, Result, ok, err, conversation_not_found, conversation_forbidden, pure, modify,
  checked, ◌>>=◌, ◌>>◌,
}
use slowchat.Base.Database.{Database}
use slowchat.Model.{
  Uuid, Time, Store, AuthContext, Conversation, ConversationUserState, MessageUserHide, Trace,
  EventType, EventData, same_state,
}
use slowchat.Sessions.{Env, validate_with_manager}
use slowchat.Outbox.Writer
use slowchat.Conversations.Settings.{conversation_updated_event}
use slowchat.Messages.Access.{require_member_message, message_event}
use slowchat.Messages.Hiding.Guard.{clear_check}

-- (user_id, message_id), the primary key
abbrev pub hide_of : Uuid → Uuid → MessageUserHide → Bool
hide_of user_id message_id h = h.user_id == user_id && h.message_id == message_id

module _ (db : Database) where
  open db use {exists_by, insert, identifiers, save, transaction}

  -- INSERT … ON CONFLICT DO NOTHING, and identifiers.length
  insert_hide : Env → Uuid → Uuid → Action Store ℕ
  insert_hide env user_id message_id s =
      if exists_by (hide_of user_id message_id) s.hides then (ok (identifiers false), s) else (
        ok (identifiers true),
        record s {
          hides =
              insert (record { user_id = user_id; message_id = message_id; hidden_at = env.now })
                s.hides;
        },
      )

  unfoldable pub hide_message : Env → AuthContext → Uuid → Trace → Action Store Unit
  unfolding insert_hide
  hide_message env auth message_id trace = transaction (do
    validate_with_manager db env.now auth
    message ← checked (require_member_message db auth.user_id message_id)
    inserted ← insert_hide env auth.user_id message_id
    (if inserted == 0
        then pure tt
        else Writer.append db env.now (
            message_event (env.uuid 0) env auth EventType.message_hidden message.id
              (auth.user_id ∷ []) trace
              (EventData.hidden_data message_id message.conversation_id auth.user_id))))

  -- clearBeforeSeq advances to the conversation's last number; the counters go to zero.
  abbrev pub cleared : Time → Conversation → ConversationUserState → ConversationUserState
  cleared now conversation st = record st {
    clear_before_seq = max st.clear_before_seq conversation.last_seq;
    unread_count = 0;
    mention_count = 0;
    updated_at = now;
  }

  unfoldable pub clear_history : Env → AuthContext → Uuid → Trace → Action Store Unit
  clear_history env auth conversation_id trace = transaction (do
    validate_with_manager db env.now auth
    (conversation, found) ← checked (clear_check db auth.user_id conversation_id)
    let state : ConversationUserState = cleared env.now conversation found
    modify (λ s. record s { states = save same_state state s.states })
    Writer.append db env.now (conversation_updated_event env auth conversation state trace))
