-- ===== src/Conversations/Receipts/Answers.antt =====
-- apps/im-server/src/modules/conversations/services/conversation-command.service.ts: what
-- `advanceReceipt` answers on each branch, and that a repeated receipt changes nothing.
use slowchat.Base.{ℕ, ◌≤◌, ◌<◌, ◌≡◌, true, arith, max, inl, inr, Bool-cases}
use slowchat.Base.Action.{ok, err, app_error, receipt_seq_invalid}
use slowchat.Base.Database.{Database}
use slowchat.Model.{Uuid, Store, AuthContext, ConversationUserState, Receipt, Trace}
use slowchat.Sessions.{Env, session_is_good, validate_with_manager}
use slowchat.Outbox.Writer
use slowchat.Conversations.Membership.{Membership, lock_membership}
use slowchat.Conversations.Receipts.{
  ReceiptKind, read_kind, delivered_kind, advance_receipt, receipt_body, save_receipt, advanced,
  has_moved, receipt_from_state,
}

-- The cursors after a receipt, without the code's nested maxima.
abbrev pub delivered_to : ReceiptKind → ℕ → ConversationUserState → ℕ
delivered_to delivered_kind seq st = max st.last_delivered_seq seq
delivered_to read_kind seq st = max (max st.last_delivered_seq st.last_read_seq) seq

abbrev pub read_to : ReceiptKind → ℕ → ConversationUserState → ℕ
read_to delivered_kind seq st = st.last_read_seq
read_to read_kind seq st = max st.last_read_seq seq

-- The state is where the receipt would move it.
abbrev pub IsThere : ReceiptKind → ℕ → ConversationUserState → Type 0
IsThere kind seq st =
    (st.last_delivered_seq ≡ delivered_to kind seq st) × (st.last_read_seq ≡ read_to kind seq st)

module _ (db : Database) (env : Env) (auth : AuthContext) (conversation_id : Uuid)
    (kind : ReceiptKind) (seq : ℕ) (trace : Trace) (s : Store) (found : Membership) where
  past_the_end :
      session_is_good db env.now auth s ≡ true
      → lock_membership db auth.user_id conversation_id s ≡ ok found
      → found.conversation.last_seq < seq
      → advance_receipt db env auth conversation_id kind seq trace s
        ≡ (err (app_error receipt_seq_invalid 400), s)
  unfolding advance_receipt receipt_body validate_with_manager
  past_the_end good locked past =
      ground (arith, db.transaction_lem (receipt_body db env auth conversation_id kind seq trace) s)

  answer_cursors :
      session_is_good db env.now auth s ≡ true
      → lock_membership db auth.user_id conversation_id s ≡ ok found
      → seq ≤ found.conversation.last_seq
      → (r : Receipt) × ((advance_receipt db env auth conversation_id kind seq trace s).0 ≡ ok r)
        × (r.last_delivered_seq ≡ delivered_to kind seq found.state)
        × (r.last_read_seq ≡ read_to kind seq found.state)
  unfolding advance_receipt receipt_body validate_with_manager save_receipt Writer.append advanced
  answer_cursors good locked within =
      let law = db.transaction_lem (receipt_body db env auth conversation_id kind seq trace) s in
      elim (Bool-cases
        (has_moved found.state (advanced db kind conversation_id auth.user_id seq s found.state))) [
          | inl more ↦ (
            receipt_from_state
                (record (advanced db kind conversation_id auth.user_id seq s found.state) {
                  updated_at = env.now;
                }),
            ground (arith, law),
            ground arith,
            ground arith,
          )
          | inr still ↦ (
            receipt_from_state (advanced db kind conversation_id auth.user_id seq s found.state),
            ground (arith, law),
            ground arith,
            ground arith,
          )
        ]

  nothing_moves :
      session_is_good db env.now auth s ≡ true
      → lock_membership db auth.user_id conversation_id s ≡ ok found
      → seq ≤ found.conversation.last_seq
      → IsThere kind seq found.state
      → (advance_receipt db env auth conversation_id kind seq trace s).1 ≡ s
  unfolding advance_receipt receipt_body validate_with_manager advanced
  nothing_moves good locked within there =
      ground (arith, db.transaction_lem (receipt_body db env auth conversation_id kind seq trace) s)

  -- For a caller with a good session and an active membership: a receipt past the conversation is
  -- refused with RECEIPT_SEQ_INVALID (400) and changes nothing; any other is answered with the
  -- cursors raised to it, never lowered, and READ raises both; and one that raises no cursor
  -- leaves the store as it was.
  pub advance_receipt_branches :
      session_is_good db env.now auth s ≡ true
      → lock_membership db auth.user_id conversation_id s ≡ ok found
      → (found.conversation.last_seq < seq
          → advance_receipt db env auth conversation_id kind seq trace s
            ≡ (err (app_error receipt_seq_invalid 400), s))
        × (seq ≤ found.conversation.last_seq
            → (r : Receipt) × ((advance_receipt db env auth conversation_id kind seq trace s).0
                ≡ ok r)
              × (r.last_delivered_seq ≡ delivered_to kind seq found.state)
              × (r.last_read_seq ≡ read_to kind seq found.state))
        × (seq ≤ found.conversation.last_seq
            → IsThere kind seq found.state
            → (advance_receipt db env auth conversation_id kind seq trace s).1 ≡ s)
  advance_receipt_branches good locked =
      (past_the_end good locked, answer_cursors good locked, nothing_moves good locked)
