-- ===== src/Messages/Send/Cursors.antt =====
-- apps/im-server/src/modules/messages/services/message-command.service.ts: the cursors of the members,
-- over `sendText`.
use slowchat.Base.{
  ℕ, ◌≤◌, ◌≡◌, refl, ap, ◌∙◌, true, some, List, arith, All, ◌==◌, ltb, update_where, max,
  Bool-cases, inl, inr,
}
use mathlib.Core.Path.{subst}
use slowchat.Base.Rows.{AtMostOne, AtMostOne-update_where, All-update_where, All-only}
use slowchat.Base.Database.{Database}
use slowchat.Model.{
  Uuid, Digest, Store, AuthContext, Conversation, ConversationUserState, Trace, active_conversation,
}
use slowchat.Sessions.{Env}
use slowchat.Conversations.Receipts.Cursors.{IsOrdered, HasCursors}
use slowchat.Messages.Guards.{SendMessageRequest}
use slowchat.Messages.Numbering.{returned_row}
use slowchat.Messages.Send.{send_text}
use slowchat.Messages.Send.Parts.{next_seq, bump_state}
use slowchat.Messages.Send.Accepted.{
  Delivery, Outcome, unchanged, delivered, deliver-Delivery, send_text-Outcome,
}

module _ (db : Database) (content_hash : Uuid → SendMessageRequest → Digest) (env : Env)
    (auth : AuthContext) (conversation_id : Uuid) (input : SendMessageRequest) (trace : Trace) where
  abbrev pointed : Conversation → Conversation
  pointed c = record c { last_message_id = some (env.uuid 0); last_message_at = some env.now }

  module _ (member_ids : List Uuid) (before after : Store) (seq : ℕ)
      (d : Delivery db content_hash env auth conversation_id input trace member_ids before after
        seq)
      (h : HasCursors before) where
    rows_after :
        after.conversations
        ≡ update_where
            (λ c. c.id == conversation_id)
            pointed
            (update_where
              (active_conversation conversation_id)
              (next_seq env.now)
              before.conversations)
    rows_after =
        d.conversations_after
        ∙ db.update_lem (λ c. c.id == conversation_id) pointed _
        ∙ ap (update_where (λ c. c.id == conversation_id) pointed) (
            db.update_lem (active_conversation conversation_id) (next_seq env.now)
              before.conversations)

    keyed_after : (id : Uuid) → AtMostOne (λ (c : Conversation). c.id == id) after.conversations
    keyed_after id = rw rows_after (
        AtMostOne-update_where (λ c. c.id == id) _ pointed _ (λ c. refl)
          (AtMostOne-update_where (λ c. c.id == id) _ (next_seq env.now) _ (λ c. refl)
            (h.keyed id)))

    -- A bound that holds before holds after, since last_seq only grows.
    abbrev IsBelow : ConversationUserState → ℕ → Conversation → Type 0
    IsBelow st n c = c.id ≡ st.conversation_id → n ≤ c.last_seq

    IsBelow-old :
        (st : ConversationUserState) (n : ℕ)
        → All (IsBelow st n) before.conversations
        → All (IsBelow st n) after.conversations
    IsBelow-old st n all = rw rows_after (
        All-update_where (IsBelow st n) (IsBelow st n) _ pointed _ (λ c w _. w) (λ c w _. w)
          (All-update_where (IsBelow st n) (IsBelow st n) (active_conversation conversation_id)
            (next_seq env.now) before.conversations (λ c w _ e. omega (arith, w e)) (λ c w _. w)
            all))

    -- The new number bounds the states of its conversation.
    IsBelow-new :
        (st : ConversationUserState)
        → st.conversation_id ≡ conversation_id
        → All (IsBelow st seq) after.conversations
    IsBelow-new st here =
        let (c, there, counted) =
          returned_row db conversation_id (next_seq env.now) (λ c. (refl, refl, refl))
            before.conversations d.row (h.keyed conversation_id) d.row_found in
        let passes =
          db.find_one_some (active_conversation conversation_id) before.conversations c there in
        let only =
          All-only (λ (x : Conversation). x.id == conversation_id) c before.conversations
            (h.keyed conversation_id) (db.find_one_among _ _ _ there) (ground (arith, passes)) in
        rw rows_after (
          All-update_where (IsBelow st seq) (IsBelow st seq) _ pointed _ (λ c w _. w) (λ c w _. w)
            (All-update_where (λ x. (x.id == conversation_id) ≡ true → x ≡ c) (IsBelow st seq)
              (active_conversation conversation_id) (next_seq env.now) before.conversations
              (λ x w hit e. ground (arith, w, d.seq_of_row, counted))
              (λ x w miss e. ground (arith, w, passes, here)) only))

    IsBelow-max :
        (st : ConversationUserState) (n k : ℕ)
        → All (IsBelow st n) after.conversations
        → All (IsBelow st k) after.conversations
        → All (IsBelow st (max n k)) after.conversations
    IsBelow-max st n k hn hk = elim (Bool-cases (ltb n k)) [
      | inl e ↦
          let up : k ≡ max n k = ground arith in
          subst (λ x. All (IsBelow st x) after.conversations) up hk
      | inr e ↦
          let up : n ≡ max n k = ground arith in
          subst (λ x. All (IsBelow st x) after.conversations) up hn
    ]

    bumped :
        (st : ConversationUserState)
        → IsOrdered before.conversations st
        → st.conversation_id ≡ conversation_id
        → IsOrdered after.conversations (bump_state env.now auth.user_id seq input.content st)
    bumped st (le, below) here = elim (Bool-cases (st.user_id == auth.user_id)) [
      | inl own ↦ rw own (
        omega (arith, le),
        IsBelow-max st st.last_delivered_seq seq (IsBelow-old st st.last_delivered_seq below)
            (IsBelow-new st here),
      )
      | inr other ↦ rw other (le, IsBelow-old st st.last_delivered_seq below)
    ]

    delivery-HasCursors : HasCursors after
    delivery-HasCursors = record {
      keyed = keyed_after;
      ordered =
          rw (d.states_after, db.update_lem)
            (All-update_where (IsOrdered before.conversations) (IsOrdered after.conversations)
              (λ st. st.conversation_id == conversation_id)
              (bump_state env.now auth.user_id seq input.content) before.states
              (λ st old hit. bumped st old (ground arith))
              (λ st old _. (old.0, IsBelow-old st st.last_delivered_seq old.1)) h.ordered);
    }

  -- Whatever `sendText` does, every member's cursors stay in order: what is read is delivered, and
  -- nothing is past the conversation's last number. Condition: they were in order after what other
  -- transactions committed meanwhile.
  pub send_text-HasCursors :
      (others : Store → Store) (s : Store)
      → HasCursors (others s)
      → HasCursors (send_text db content_hash env others auth conversation_id input trace s).1
  send_text-HasCursors others s h =
      finish (send_text-Outcome db content_hash env auth conversation_id input trace others s)
    where
      finish :
          Outcome db content_hash env auth conversation_id input trace others s
            (send_text db content_hash env others auth conversation_id input trace s)
          → HasCursors (send_text db content_hash env others auth conversation_id input trace s).1
      finish (unchanged e _) = rw e h
      finish (delivered c ids m _ _ _ done _) =
          delivery-HasCursors ids (others s) _ m.seq
            (deliver-Delivery db content_hash env auth conversation_id input trace ids (others s) _
              m done).0
            h
