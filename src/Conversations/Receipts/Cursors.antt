-- ===== src/Conversations/Receipts/Cursors.antt =====
-- apps/im-server/src/modules/conversations/services/conversation-command.service.ts: the cursors of a
-- member, over `advanceReceipt`.
use slowchat.Base.{ℕ, ◌≤◌, ◌≡◌, true, some, List, arith, All, ◌==◌, ltb, inl, inr, Bool-cases}
use slowchat.Base.Rows.{AtMostOne, All-Among, All-only, All-map}
use slowchat.Base.Saves.{All-upsert}
use slowchat.Base.Action.{Result, ok, Result-cases}
use slowchat.Base.Database.{Database}
use slowchat.Model.{
  Uuid, Store, AuthContext, Conversation, ConversationUserState, Receipt, Trace, same_state,
  state_of, active_conversation,
}
use slowchat.Sessions.{Env, session_is_good, validate_with_manager}
use slowchat.Outbox.Writer
use slowchat.Conversations.Membership.{Membership, lock_membership}
use slowchat.Conversations.Membership.Found.{lock_membership-conversation, lock_membership-state}
use slowchat.Conversations.Receipts.{
  ReceiptKind, read_kind, delivered_kind, advance_receipt, receipt_body, save_receipt, advanced,
  has_moved, receipt_from_state,
}

-- last_read_seq <= last_delivered_seq, the table's CHECK, and neither is past the conversation.
abbrev pub IsOrdered : List Conversation → ConversationUserState → Type 0
IsOrdered conversations st =
    (st.last_read_seq ≤ st.last_delivered_seq)
    × All (λ c. c.id ≡ st.conversation_id → st.last_delivered_seq ≤ c.last_seq) conversations

pub record HasCursors (s : Store) : Type 0 where
  pub keyed : (id : Uuid) → AtMostOne (λ (c : Conversation). c.id == id) s.conversations
  pub ordered : All (IsOrdered s.conversations) s.states

module _ (db : Database) (env : Env) (auth : AuthContext) (conversation_id : Uuid)
    (kind : ReceiptKind) (seq : ℕ) (trace : Trace) where
  -- `advanceReceipt` changes no row, or it saves the moved state of the caller.
  pub data Outcome (s : Store) (answer : Result Receipt × Store) : Type 0 where
    unchanged : answer.1 ≡ s → Outcome s answer
    moved :
        (found : Membership)
        → lock_membership db auth.user_id conversation_id s ≡ ok found
        → seq ≤ found.conversation.last_seq
        → answer.1.states
          ≡ db.save same_state
              (record (advanced db kind conversation_id auth.user_id seq s found.state) {
                updated_at = env.now;
              })
              s.states
        → answer.1.conversations ≡ s.conversations
        → answer.1.members ≡ s.members
        → answer.1.messages ≡ s.messages
        → answer.0
          ≡ ok (
              receipt_from_state
                (record (advanced db kind conversation_id auth.user_id seq s found.state) {
                  updated_at = env.now;
                }))
        → Outcome s answer

  pub advance_receipt-Outcome :
      (s : Store) → Outcome s (advance_receipt db env auth conversation_id kind seq trace s)
  unfolding advance_receipt receipt_body validate_with_manager save_receipt Writer.append
  advance_receipt-Outcome s =
      let law = db.transaction_lem (receipt_body db env auth conversation_id kind seq trace) s in
      elim (Bool-cases (session_is_good db env.now auth s)) [
        | inr bad ↦ unchanged (ground (arith, law))
        | inl good ↦ elim (Result-cases (lock_membership db auth.user_id conversation_id s)) [
          | inr (e, h) ↦ unchanged (ground (arith, law))
          | inl (found, h) ↦ elim (Bool-cases (ltb found.conversation.last_seq seq)) [
            | inl past ↦ unchanged (ground (arith, law))
            | inr within ↦
                elim (Bool-cases (
                  has_moved found.state
                    (advanced db kind conversation_id auth.user_id seq s found.state))) [
                      | inr still ↦ unchanged (ground (arith, law))
                      | inl more ↦
                          moved found h (ground arith) (ground (arith, law)) (ground (arith, law))
                            (ground (arith, law)) (ground (arith, law)) (ground (arith, law))
                    ]
          ]
        ]
      ]

  -- The state that a receipt leaves is ordered, given that the receipt is within the conversation.
  module _ (s : Store) (found : Membership) (h : HasCursors s)
      (locked : lock_membership db auth.user_id conversation_id s ≡ ok found)
      (within : seq ≤ found.conversation.last_seq) where
    state_found : db.find_one (state_of conversation_id auth.user_id) s.states ≡ some found.state
    state_found = lock_membership-state db auth.user_id conversation_id s found locked

    row_found :
        db.find_one (active_conversation conversation_id) s.conversations ≡ some found.conversation
    row_found = lock_membership-conversation db auth.user_id conversation_id s found locked

    old_IsOrdered : IsOrdered s.conversations found.state
    old_IsOrdered =
        All-Among (IsOrdered s.conversations) found.state s.states h.ordered
          (db.find_one_among _ s.states found.state state_found)

    old_within : found.state.last_delivered_seq ≤ found.conversation.last_seq
    old_within =
        All-Among
          (λ c. c.id ≡ found.state.conversation_id → found.state.last_delivered_seq ≤ c.last_seq)
          found.conversation s.conversations old_IsOrdered.1
          (db.find_one_among _ s.conversations found.conversation row_found)
          (ground (
            arith,
            db.find_one_some (active_conversation conversation_id) s.conversations
                found.conversation row_found,
            db.find_one_some (state_of conversation_id auth.user_id) s.states found.state
                state_found,
          ))

    only_row :
        All
          (λ (c : Conversation). (c.id == conversation_id) ≡ true → c ≡ found.conversation)
          s.conversations
    only_row =
        All-only (λ (c : Conversation). c.id == conversation_id) found.conversation s.conversations
          (h.keyed conversation_id)
          (db.find_one_among _ s.conversations found.conversation row_found)
          (ground (
            arith,
            db.find_one_some (active_conversation conversation_id) s.conversations
                found.conversation row_found,
          ))

    bounded :
        (n : ℕ)
        → n ≤ found.conversation.last_seq
        → All
            (λ (c : Conversation). c.id ≡ found.state.conversation_id → n ≤ c.last_seq)
            s.conversations
    bounded n le =
        All-map (λ (c : Conversation). (c.id == conversation_id) ≡ true → c ≡ found.conversation)
          (λ (c : Conversation). c.id ≡ found.state.conversation_id → n ≤ c.last_seq)
          s.conversations
          (λ c only here. ground (
            arith,
            le,
            only,
            here,
            db.find_one_some (state_of conversation_id auth.user_id) s.states found.state
                state_found,
          ))
          only_row

    advanced-IsOrdered :
        IsOrdered s.conversations
          (record (advanced db kind conversation_id auth.user_id seq s found.state) {
            updated_at = env.now;
          })
    unfolding advanced
    advanced-IsOrdered = bounds kind
      where
        bounds :
            (k : ReceiptKind)
            → IsOrdered s.conversations
                (record (advanced db k conversation_id auth.user_id seq s found.state) {
                  updated_at = env.now;
                })
        bounds delivered_kind =
            (omega (arith, old_IsOrdered.0), bounded _ (omega (arith, old_within, within)))
        bounds read_kind = (
          omega (arith, old_IsOrdered.0),
          bounded _ (omega (arith, old_IsOrdered.0, old_within, within)),
        )

  -- A receipt keeps every member's cursors in order: what is read is delivered, and nothing is past
  -- the conversation's last number.
  pub advance_receipt-HasCursors :
      (s : Store)
      → HasCursors s
      → HasCursors (advance_receipt db env auth conversation_id kind seq trace s).1
  advance_receipt-HasCursors s h = finish (advance_receipt-Outcome s)
    where
      finish :
          Outcome s (advance_receipt db env auth conversation_id kind seq trace s)
          → HasCursors (advance_receipt db env auth conversation_id kind seq trace s).1
      finish (unchanged e) = rw e h
      finish (moved found locked within states conversations _ _ _) = record {
        keyed = rw conversations h.keyed;
        ordered =
            rw (conversations, states, db.save_lem)
              (All-upsert (IsOrdered s.conversations) same_state _ s.states
                (advanced-IsOrdered s found h locked within) h.ordered);
      }
