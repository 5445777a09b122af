-- ===== src/Conversations/Receipts.antt =====
-- apps/im-server/src/modules/conversations/services/conversation-command.service.ts: `read`,
-- `delivered` and `advanceReceipt`.
pub mod Cursors
pub mod Answers
use slowchat.Base.{ℕ, Bool, not, ◌&&◌, ◌||◌, ◌==◌, ltb, max, if◌then◌else◌}
use slowchat.Base.Action.{
  Action, receipt_seq_invalid, pure, gets, throw_if, modify, checked, ◌>>=◌, ◌>>◌,
}
use slowchat.Base.Database.{Database}
use slowchat.Model.{
  Uuid, Store, AuthContext, ConversationUserState, Message, Trace, Receipt, DomainEvent, EventType,
  AggregateType, EventData, same_state,
}
use slowchat.Sessions.{Env, validate_with_manager}
use slowchat.Outbox.Writer
use slowchat.Conversations.Membership.{Membership, lock_membership}

pub data ReceiptKind : Type 0 where
  delivered_kind read_kind : ReceiptKind

-- The messages of a conversation that a user has not read: message.seq > :lastReadSeq, of another
-- sender, that count.
abbrev pub is_unread : Uuid → Uuid → ℕ → Message → Bool
is_unread conversation_id user_id last_read_seq m =
    m.conversation_id == conversation_id
    && ltb last_read_seq m.seq
    && not (m.sender_id == user_id)
    && m.counts_unread

abbrev pub receipt_from_state : ConversationUserState → Receipt
receipt_from_state st = record {
  conversation_id = st.conversation_id;
  user_id = st.user_id;
  last_delivered_seq = st.last_delivered_seq;
  last_read_seq = st.last_read_seq;
  updated_at = st.updated_at;
}

abbrev receipt_event : Env → AuthContext → Membership → Receipt → Trace → DomainEvent
receipt_event env auth found receipt trace = record {
  event_id = env.uuid 0;
  event_type = EventType.receipt_updated;
  event_version = 1;
  occurred_at = receipt.updated_at;
  aggregate_type = AggregateType.receipt;
  aggregate_id = found.conversation.id;
  actor_user_id = auth.user_id;
  audience_user_ids = found.audience;
  trace = trace;
  payload = EventData.receipt_data receipt;
}

-- previousDelivered !== state.lastDeliveredSeq || previousRead !== state.lastReadSeq
abbrev pub has_moved : ConversationUserState → ConversationUserState → Bool
has_moved before after =
    not (before.last_delivered_seq == after.last_delivered_seq)
    || not (before.last_read_seq == after.last_read_seq)

module _ (db : Database) where
  open db use {count_by, save, transaction}

  -- The columns that the receipt moves, on the entity that was read.
  unfoldable pub advanced :
      ReceiptKind → Uuid → Uuid → ℕ → Store → ConversationUserState → ConversationUserState
  advanced delivered_kind conversation_id user_id seq s st = record st {
    last_delivered_seq = max st.last_delivered_seq seq;
  }
  advanced read_kind conversation_id user_id seq s st =
      let read = max st.last_read_seq seq in
      record st {
        last_delivered_seq = max (max st.last_delivered_seq seq) read;
        last_read_seq = read;
        unread_count = count_by (is_unread conversation_id user_id read) s.messages;
      }

  -- save(state), which sets its update time, and the event.
  save_receipt :
      Env → AuthContext → Membership → ConversationUserState → Trace → Action Store Receipt
  save_receipt env auth found state trace = do
    let saved : ConversationUserState = record state { updated_at = env.now }
    modify (λ s. record s { states = save same_state saved s.states })
    Writer.append db env.now (receipt_event env auth found (receipt_from_state saved) trace)
    pure (receipt_from_state saved)

  unfoldable pub receipt_body :
      Env → AuthContext → Uuid → ReceiptKind → ℕ → Trace → Action Store Receipt
  unfolding save_receipt
  receipt_body env auth conversation_id kind seq trace = do
    validate_with_manager db env.now auth
    found ← checked (lock_membership db auth.user_id conversation_id)
    throw_if (ltb found.conversation.last_seq seq) receipt_seq_invalid 400
    state ← gets (λ s. advanced kind conversation_id auth.user_id seq s found.state)
    (if has_moved found.state state
        then save_receipt env auth found state trace
        else pure (receipt_from_state state))

  unfoldable pub advance_receipt :
      Env → AuthContext → Uuid → ReceiptKind → ℕ → Trace → Action Store Receipt
  unfolding receipt_body
  advance_receipt env auth conversation_id kind seq trace =
      transaction (receipt_body env auth conversation_id kind seq trace)

  unfoldable pub read : Env → AuthContext → Uuid → ℕ → Trace → Action Store Receipt
  unfolding advance_receipt
  read env auth conversation_id last_read_seq trace =
      advance_receipt env auth conversation_id read_kind last_read_seq trace

  unfoldable pub delivered : Env → AuthContext → Uuid → ℕ → Trace → Action Store Receipt
  unfolding advance_receipt
  delivered env auth conversation_id last_delivered_seq trace =
      advance_receipt env auth conversation_id delivered_kind last_delivered_seq trace
