-- ===== src/Messages/Send.antt =====
-- apps/im-server/src/modules/messages/services/message-command.service.ts: `sendText`.
-- `content_hash` is `messageContentHash`, a digest of the library. `others` is what other
-- transactions commit while this one runs, between its look for a duplicate and its writes.
pub mod Parts
pub mod Accepted
pub mod Idempotence
pub mod Sequence
pub mod Permission
pub mod Cursors
use slowchat.Base.{
  ℕ, suc, ◌+◌, Bool, true, false, not, ◌&&◌, ◌||◌, Option, none, some, List, ◌==◌, ltb, leb, max,
  if◌then◌else◌, any,
}
use slowchat.Base.Action.{
  Action, Result, ok, err, Error, app_error, unique_violation, Constraint,
  messages_sender_id_client_message_id_key, message_seq_invalid, pure, raise, raise_if, gets,
  modify, or_throw, checked, ◌>>=◌, ◌>>◌,
}
use slowchat.Base.Database.{Database}
use slowchat.Model.{
  Uuid, Time, Digest, Store, AuthContext, Conversation, Message, Trace, active_conversation,
}
use slowchat.Sessions.{Env, validate_with_manager}
use slowchat.Outbox.Writer
use Parts.{
  find_sent, safe_seq, new_message, created_event, allocate_seq, insert_message, point_at_last,
  bump_states,
}
use slowchat.Messages.Guards.{SendMessageRequest, assert_may_send, assert_duplicate_matches}

pub record MessageAccepted : Type 0 where
  pub message_id : Uuid
  pub conversation_id : Uuid
  pub seq : ℕ
  pub duplicate : Bool
  pub server_timestamp : Time

abbrev pub accepted : Time → Message → Bool → MessageAccepted
accepted now m duplicate = record {
  message_id = m.id;
  conversation_id = m.conversation_id;
  seq = m.seq;
  duplicate = duplicate;
  server_timestamp = now;
}

abbrev is_client_message_unique_violation : Error → Bool
is_client_message_unique_violation (unique_violation messages_sender_id_client_message_id_key) =
    true
is_client_message_unique_violation _ = false

module _ (db : Database) (content_hash : Uuid → SendMessageRequest → Digest) where
  open db use {transaction}

  -- The writes of an accepted message.
  unfoldable pub deliver :
      Env → AuthContext → Uuid → SendMessageRequest → Trace → List Uuid → Action Store Message
  deliver env auth conversation_id input trace member_ids = do
    returned ← allocate_seq db env.now conversation_id
    seq ← or_throw (safe_seq returned) message_seq_invalid 500
    let message =
        new_message env auth conversation_id (content_hash conversation_id input) seq input
    insert_message db message
    modify (point_at_last db conversation_id message)
    modify (bump_states db env.now conversation_id auth.user_id seq input.content)
    Writer.append db env.now (created_event env auth message member_ids trace)
    pure message

  answer_duplicate : Uuid → Digest → Message → Action Store (Message × Bool)
  answer_duplicate conversation_id hash duplicate = do
    message ← checked (assert_duplicate_matches duplicate conversation_id hash)
    pure (message, true)

  send_new : Env → AuthContext → Uuid → SendMessageRequest → Trace → Action Store (Message × Bool)
  send_new env auth conversation_id input trace = do
    (_, member_ids) ← checked (assert_may_send db env.now auth.user_id conversation_id input)
    message ← deliver env auth conversation_id input trace member_ids
    pure (message, false)

  -- The body of the transaction.
  unfoldable pub send_body :
      Env
      → (Store → Store)
      → AuthContext
      → Uuid
      → SendMessageRequest
      → Trace
      → Action Store (Message × Bool)
  unfolding answer_duplicate send_new
  send_body env others auth conversation_id input trace = do
    validate_with_manager db env.now auth
    duplicate ← gets (find_sent db auth.user_id input.client_message_id)
    modify others
    elim duplicate [
      | some message ↦ answer_duplicate conversation_id (content_hash conversation_id input) message
      | none ↦ send_new env auth conversation_id input trace
    ]

  -- catch (error): the store is the one before the transaction, with the commits of the others.
  recover :
      Env
      → (Store → Store)
      → AuthContext
      → Uuid
      → SendMessageRequest
      → Result (Message × Bool) × Store
      → Result MessageAccepted × Store
  recover env others auth conversation_id input (ok (message, duplicate), s) =
      (ok (accepted env.now message duplicate), s)
  recover env others auth conversation_id input (err e, s) =
      if is_client_message_unique_violation e
      then (do
        existing ← gets (find_sent db auth.user_id input.client_message_id)
        elim existing [
          | none ↦ raise e
          | some message ↦ (do
            checked (
                assert_duplicate_matches message conversation_id
                  (content_hash conversation_id input))
            pure (accepted env.now message true))
        ])
          (others s)
      else (err e, others s)

  unfoldable pub send_text :
      Env
      → (Store → Store)
      → AuthContext
      → Uuid
      → SendMessageRequest
      → Trace
      → Action Store MessageAccepted
  unfolding send_body recover
  send_text env others auth conversation_id input trace s =
      recover env others auth conversation_id input
        (transaction (send_body env others auth conversation_id input trace) s)
