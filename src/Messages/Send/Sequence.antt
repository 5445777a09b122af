-- ===== src/Messages/Send/Sequence.antt =====
-- apps/im-server/src/modules/messages/services/message-command.service.ts: the sequence numbers of a
-- conversation, over `sendText`.
use slowchat.Base.{ℕ, ◌+◌, ◌≡◌, refl, ap, ◌∙◌, false, some, List, arith, any, ◌==◌, update_where}
use slowchat.Base.Rows.{AtMostOne, upsert-new}
use slowchat.Base.Action.{ok}
use slowchat.Base.Database.{Database}
use slowchat.Model.{
  Uuid, Digest, Store, AuthContext, Conversation, Message, Trace, active_conversation, same_message,
}
use slowchat.Sessions.{Env}
use slowchat.Messages.Guards.{SendMessageRequest}
use slowchat.Messages.Numbering.{IsSequenced, numbered-IsSequenced, returned_row}
use slowchat.Messages.Send.{send_text, MessageAccepted}
use slowchat.Messages.Send.Parts.{next_seq}
use slowchat.Messages.Send.Accepted.{
  Delivery, Outcome, sent, unchanged, delivered, deliver-Delivery, send_text-Outcome,
}

module _ (db : Database) (content_hash : Uuid → SendMessageRequest → Digest) (env : Env)
    (auth : AuthContext) (conversation_id : Uuid) (input : SendMessageRequest) (trace : Trace) where
  abbrev message : ℕ → Message
  message = sent db content_hash env auth conversation_id input trace

  abbrev pointed : Conversation → Conversation
  pointed c = record c { last_message_id = some (env.uuid 0); last_message_at = some env.now }

  module _ (member_ids : List Uuid) (before after : Store) (seq : ℕ)
      (d : Delivery db content_hash env auth conversation_id input trace member_ids before after
        seq) where
    rows_after :
        after.conversations
        ≡ update_where
            (λ c. c.id == conversation_id)
            pointed
            (update_where
              (active_conversation conversation_id)
              (next_seq env.now)
              before.conversations)
    rows_after =
        d.conversations_after
        ∙ db.update_lem (λ c. c.id == conversation_id) pointed _
        ∙ ap (update_where (λ c. c.id == conversation_id) pointed) (
            db.update_lem (active_conversation conversation_id) (next_seq env.now)
              before.conversations)

    delivery-IsSequenced :
        IsSequenced before
        → any (same_message (message seq)) before.messages ≡ false
        → IsSequenced after
    delivery-IsSequenced ordered fresh =
        numbered-IsSequenced db conversation_id (next_seq env.now) pointed (λ c. (refl, refl, refl))
          (λ c. (refl, refl)) before after (message seq) d.row d.row_found d.seq_of_row refl
          rows_after
          (d.messages_after
            ∙ db.save_lem same_message (message seq) before.messages
            ∙ upsert-new same_message (message seq) before.messages fresh)
          ordered

    delivery-seq :
        AtMostOne (λ (c : Conversation). c.id == conversation_id) before.conversations
        → (c : Conversation)
        → db.find_one (active_conversation conversation_id) before.conversations ≡ some c
        → seq ≡ c.last_seq + 1
    delivery-seq one c there =
        let (old, found, counted) =
          returned_row db conversation_id (next_seq env.now) (λ c. (refl, refl, refl))
            before.conversations d.row one d.row_found in
        ground (arith, d.seq_of_row, found, counted, there)

  -- Whatever `sendText` does, conversations stay sequenced: a new message has a number that no
  -- message of its conversation has, none is past the conversation's last number, and no row is
  -- doubled. Conditions: the store was sequenced after what other transactions committed
  -- meanwhile, and the new message's UUID is fresh there.
  pub send_text-IsSequenced :
      (others : Store → Store) (s : Store)
      → IsSequenced (others s)
      → any (λ m. env.uuid 0 == m.id) (others s).messages ≡ false
      → IsSequenced (send_text db content_hash env others auth conversation_id input trace s).1
  send_text-IsSequenced others s ordered fresh =
      finish (send_text-Outcome db content_hash env auth conversation_id input trace others s)
    where
      finish :
          Outcome db content_hash env auth conversation_id input trace others s
            (send_text db content_hash env others auth conversation_id input trace s)
          → IsSequenced (send_text db content_hash env others auth conversation_id input trace s).1
      finish (unchanged e _) = rw e ordered
      finish (delivered c ids m _ _ _ done _) =
          delivery-IsSequenced ids (others s) _ m.seq
            (deliver-Delivery db content_hash env auth conversation_id input trace ids (others s) _
              m done).0
            ordered fresh

  -- A new message that `sendText` accepts takes the number after the last one of its conversation,
  -- the active one that is there when the numbers are allocated, after what other transactions
  -- committed meanwhile. Conditions: no more than one row has the conversation's id there, and the
  -- answer is no duplicate's.
  pub send_text-seq :
      (others : Store → Store) (s s' : Store) (r : MessageAccepted) (c : Conversation)
      → AtMostOne (λ (x : Conversation). x.id == conversation_id) (others s).conversations
      → db.find_one (active_conversation conversation_id) (others s).conversations ≡ some c
      → send_text db content_hash env others auth conversation_id input trace s ≡ (ok r, s')
      → r.duplicate ≡ false
      → r.seq ≡ c.last_seq + 1
  send_text-seq others s s' r c one there answered new =
      finish (send_text-Outcome db content_hash env auth conversation_id input trace others s)
    where
      finish :
          Outcome db content_hash env auth conversation_id input trace others s
            (send_text db content_hash env others auth conversation_id input trace s)
          → r.seq ≡ c.last_seq + 1
      finish (unchanged e repeats) = ground (arith, answered, repeats, new)
      finish (delivered _ ids m _ _ _ done accepts) = ground (
        arith,
        answered,
        accepts,
        delivery-seq ids (others s) _ m.seq
            (deliver-Delivery db content_hash env auth conversation_id input trace ids (others s) _
              m done).0
            one c there,
      )
