-- ===== src/Messages/Send/Parts.antt =====
-- apps/im-server/src/modules/messages/services/message-command.service.ts: the statements of
-- `sendText`, one function each.
use slowchat.Base.{
  ℕ, ◌+◌, Bool, true, not, ◌&&◌, ◌||◌, Option, none, some, List, ◌==◌, ltb, leb, max, if◌then◌else◌,
  any,
}
use mathlib.Core.Option
use slowchat.Base.Action.{
  Action, ok, err, unique_violation, messages_sender_id_client_message_id_key,
}
use slowchat.Base.Database.{Database}
use slowchat.Model.{
  Uuid, Time, Digest, Store, AuthContext, Conversation, ConversationUserState, Message, Content,
  Payload, Trace, DomainEvent, EventType, AggregateType, EventData, active_conversation,
  same_message,
}
use slowchat.Sessions.{Env}
use slowchat.Views.{to_message}
use slowchat.Messages.Guards.{SendMessageRequest, content_type, preview, mentions, mention_all}

-- { senderId, clientMessageId }, which the table keeps unique
abbrev pub sent_as : Uuid → Uuid → Message → Bool
sent_as sender_id client_message_id m =
    m.sender_id == sender_id && m.client_message_id == client_message_id

-- The number of RETURNING last_seq, if it is a safe integer above zero.
abbrev pub safe_seq : Option ℕ → Option ℕ
safe_seq none = none
safe_seq (some seq) = if ltb 0 seq && leb seq 9007199254740991 then some seq else none

-- SET last_seq = last_seq + 1, updated_at = now(), version = version + 1
abbrev pub next_seq : Time → Conversation → Conversation
next_seq now c = record c { last_seq = c.last_seq + 1; updated_at = now; version = c.version + 1 }

abbrev pub new_message : Env → AuthContext → Uuid → Digest → ℕ → SendMessageRequest → Message
new_message env auth conversation_id hash seq input = record {
  id = env.uuid 0;
  conversation_id = conversation_id;
  seq = seq;
  sender_id = auth.user_id;
  sender_device_id = auth.device_id;
  client_message_id = input.client_message_id;
  content_hash = hash;
  type = content_type input.content;
  content_version = 1;
  payload = Payload.user_payload input.content;
  text_preview = preview input.content;
  reply_to_message_id = input.reply_to_message_id;
  forward_from_message_id = input.forward_from_message_id;
  counts_unread = true;
  edited_at = none;
  recalled_at = none;
  recalled_by = none;
  created_at = env.now;
}

-- The row of `conversation_user_states` of one member, by the CASE columns of the statement.
abbrev pub bump_state : Time → Uuid → ℕ → Content → ConversationUserState → ConversationUserState
bump_state now sender_id seq content st =
    let own : Bool = st.user_id == sender_id in
    let mentioned : Bool = any (λ id. id == st.user_id) (mentions content) || mention_all content in
    record st {
      last_delivered_seq = if own then max st.last_delivered_seq seq else st.last_delivered_seq;
      last_read_seq = if own then max st.last_read_seq seq else st.last_read_seq;
      unread_count = if own then st.unread_count else st.unread_count + 1;
      mention_count = if not own && mentioned then st.mention_count + 1 else st.mention_count;
      hidden_at = none;
      updated_at = now;
    }

abbrev pub created_event : Env → AuthContext → Message → List Uuid → Trace → DomainEvent
created_event env auth message member_ids trace = record {
  event_id = env.uuid 1;
  event_type = EventType.message_created;
  event_version = 1;
  occurred_at = message.created_at;
  aggregate_type = AggregateType.message;
  aggregate_id = message.id;
  actor_user_id = auth.user_id;
  audience_user_ids = member_ids;
  trace = trace;
  payload = EventData.message_data (to_message message);
}

module _ (db : Database) where
  open db use {find_one, exists_by, save, update}

  unfoldable pub find_sent : Uuid → Uuid → Store → Option Message
  find_sent sender_id client_message_id s =
      find_one (sent_as sender_id client_message_id) s.messages

  -- UPDATE conversations SET … WHERE id = $1 AND status = 'ACTIVE' RETURNING last_seq
  unfoldable pub allocate_seq : Time → Uuid → Action Store (Option ℕ)
  allocate_seq now conversation_id s =
      let rows = update (active_conversation conversation_id) (next_seq now) s.conversations in
      (
        ok (Option.map (λ c. c.last_seq) (find_one (active_conversation conversation_id) rows)),
        record s { conversations = rows },
      )

  -- manager.getRepository(MessageEntity).save(…), under UNIQUE(sender_id, client_message_id)
  unfoldable pub insert_message : Message → Action Store Unit
  insert_message m s =
      if exists_by (sent_as m.sender_id m.client_message_id) s.messages
      then (err (unique_violation messages_sender_id_client_message_id_key), s)
      else (ok tt, record s { messages = save same_message m s.messages })

  unfoldable pub point_at_last : Uuid → Message → Store → Store
  point_at_last conversation_id m s = record s {
    conversations =
        update (λ c. c.id == conversation_id)
          (λ c. record c { last_message_id = some m.id; last_message_at = some m.created_at })
          s.conversations;
  }

  unfoldable pub bump_states : Time → Uuid → Uuid → ℕ → Content → Store → Store
  bump_states now conversation_id sender_id seq content s = record s {
    states =
        update (λ st. st.conversation_id == conversation_id) (bump_state now sender_id seq content)
          s.states;
  }
