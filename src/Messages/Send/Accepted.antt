-- ===== src/Messages/Send/Accepted.antt =====
-- apps/im-server/src/modules/messages/services/message-command.service.ts: the ways in which
-- `sendText` ends, and the writes of a delivery.
use slowchat.Base.{
  ℕ, ◌≡◌, true, false, none, some, List, arith, inl, inr, Option-cases, Bool-cases, ◌==◌,
}
use slowchat.Base.Action.{Result, ok, err, Result-cases}
use slowchat.Base.Database.{Database}
use slowchat.Model.{
  Uuid, Digest, Store, AuthContext, Conversation, Message, Trace, active_conversation, same_message,
}
use slowchat.Sessions.{Env, session_is_good, validate_with_manager}
use slowchat.Outbox.Writer
use slowchat.Outbox.Writer.{outbox_row}
use slowchat.Messages.Guards.{SendMessageRequest, assert_may_send}
use slowchat.Messages.Send.{
  MessageAccepted, accepted, deliver, send_body, send_text, recover, send_new, answer_duplicate,
}
use slowchat.Messages.Send.Parts.{
  find_sent, allocate_seq, insert_message, point_at_last, bump_states, new_message, next_seq,
  sent_as, bump_state, created_event,
}

module _ (db : Database) (content_hash : Uuid → SendMessageRequest → Digest) (env : Env)
    (auth : AuthContext) (conversation_id : Uuid) (input : SendMessageRequest) (trace : Trace) where
  open db use {find_one, update, save, exists_by, insert}

  abbrev pub sent : ℕ → Message
  sent seq = new_message env auth conversation_id (content_hash conversation_id input) seq input

  -- What a delivery reads and writes; `seq` is the sequence number that it took.
  pub record Delivery (member_ids : List Uuid) (before after : Store) (seq : ℕ) : Type 0 where
    pub row : Conversation
    pub row_found :
        find_one
          (active_conversation conversation_id)
          (update (active_conversation conversation_id) (next_seq env.now) before.conversations)
        ≡ some row
    pub seq_of_row : seq ≡ row.last_seq
    pub was_new : exists_by (sent_as auth.user_id input.client_message_id) before.messages ≡ false
    pub messages_after : after.messages ≡ save same_message (sent seq) before.messages
    pub conversations_after :
        after.conversations
        ≡ update
            (λ c. c.id == conversation_id)
            (λ c. record c { last_message_id = some (env.uuid 0); last_message_at = some env.now })
            (update (active_conversation conversation_id) (next_seq env.now) before.conversations)
    pub states_after :
        after.states
        ≡ update
            (λ st. st.conversation_id == conversation_id)
            (bump_state env.now auth.user_id seq input.content)
            before.states
    pub outbox_after :
        after.outbox
        ≡ insert
            (outbox_row env.now (created_event env auth (sent seq) member_ids trace))
            before.outbox
    pub sessions_after : after.sessions ≡ before.sessions
    pub devices_after : after.devices ≡ before.devices
    pub users_after : after.users ≡ before.users

  pub deliver-Delivery :
      (member_ids : List Uuid) (s s' : Store) (m : Message)
      → deliver db content_hash env auth conversation_id input trace member_ids s ≡ (ok m, s')
      → Delivery member_ids s s' m.seq × (m ≡ sent m.seq)
  unfolding deliver allocate_seq insert_message point_at_last bump_states Writer.append
  deliver-Delivery member_ids s s' m h = ground arith

  -- An answer that accepts no new message.
  abbrev pub Repeats : Result MessageAccepted → Type 0
  Repeats (ok r) = r.duplicate ≡ true
  Repeats (err _) = Unit

  -- `sendText` changes nothing of its own, or it delivers a new message.
  pub data Outcome (others : Store → Store) (s : Store) (answer : Result MessageAccepted × Store)
      : Type 0 where
    unchanged : answer.1 ≡ others s → Repeats answer.0 → Outcome others s answer
    delivered :
        (conversation : Conversation) (member_ids : List Uuid) (m : Message)
        → session_is_good db env.now auth s ≡ true
        → find_sent db auth.user_id input.client_message_id s ≡ none
        → assert_may_send db env.now auth.user_id conversation_id input (others s)
          ≡ ok (conversation, member_ids)
        → deliver db content_hash env auth conversation_id input trace member_ids (others s)
          ≡ (ok m, answer.1)
        → answer.0 ≡ ok (accepted env.now m false)
        → Outcome others s answer

  pub send_text-Outcome :
      (others : Store → Store) (s : Store)
      → Outcome others s (send_text db content_hash env others auth conversation_id input trace s)
  unfolding send_text send_body recover validate_with_manager send_new answer_duplicate
  send_text-Outcome others s =
      let law =
        db.transaction_lem (send_body db content_hash env others auth conversation_id input trace)
          s in
      elim (Bool-cases (session_is_good db env.now auth s)) [
        | inr bad ↦ unchanged (ground (arith, law)) (ground (arith, law))
        | inl good ↦ elim (Option-cases (find_sent db auth.user_id input.client_message_id s)) [
          | inr (m, e) ↦ unchanged (ground (arith, law)) (ground (arith, law))
          | inl new ↦
              elim (Result-cases
                (assert_may_send db env.now auth.user_id conversation_id input (others s))) [
                  | inr (e, h) ↦ unchanged (ground (arith, law)) (ground (arith, law))
                  | inl (may, h) ↦
                      elim (Result-cases
                        (deliver db content_hash env auth conversation_id input trace may.1
                          (others s)).0) [
                            | inr (e, g) ↦ unchanged (ground (arith, law)) (ground (arith, law))
                            | inl (m, g) ↦
                                delivered may.0 may.1 m good new h (ground (arith, law))
                                  (ground (arith, law))
                          ]
                ]
        ]
      ]
