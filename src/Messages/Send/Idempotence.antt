-- ===== src/Messages/Send/Idempotence.antt =====
-- apps/im-server/src/modules/messages/services/message-command.service.ts: what a client id does, for a
-- request that is repeated and for two that race.
use slowchat.Base.{
  ℕ, ◌≡◌, sym, ap, ◌∙◌, true, false, ◌&&◌, none, some, List, [], ◌∷◌, ◌++◌, arith, any, ◌==◌,
  if◌then◌else◌,
}
use slowchat.Base.Rows.{
  any-Among, AtMostOne-append_new, first-append_new, find_one-first, upsert-new,
}
use slowchat.Base.Action.{ok, err, app_error, message_idempotency_conflict}
use slowchat.Base.Database.{Database}
use slowchat.Model.{Uuid, Digest, Store, AuthContext, Conversation, Message, Trace, same_message}
use slowchat.Sessions.{Env, session_is_good, validate_with_manager}
use slowchat.Messages.Guards.{SendMessageRequest, assert_may_send, assert_duplicate_matches}
use slowchat.Messages.Send.{
  send_text, send_body, recover, send_new, answer_duplicate, deliver, MessageAccepted, accepted,
}
use slowchat.Messages.Send.Parts.{find_sent, sent_as, safe_seq, allocate_seq, insert_message}
use slowchat.Messages.Send.Accepted.{
  Delivery, Outcome, sent, unchanged, delivered, deliver-Delivery, send_text-Outcome,
}

module _ (db : Database) (content_hash : Uuid → SendMessageRequest → Digest) (env : Env)
    (auth : AuthContext) (conversation_id : Uuid) (input : SendMessageRequest) (trace : Trace) where
  abbrev message : ℕ → Message
  message = sent db content_hash env auth conversation_id input trace

  -- A session is judged by the tables of users, devices and sessions alone.
  session_after :
      (now : ℕ) (other : AuthContext) (member_ids : List Uuid) (before after : Store) (seq : ℕ)
      → Delivery db content_hash env auth conversation_id input trace member_ids before after seq
      → session_is_good db now other after ≡ session_is_good db now other before
  unfolding session_is_good
  session_after now other member_ids before after seq d =
      rw (d.sessions_after, d.devices_after, d.users_after)

  -- After a delivery its message is found by its sender and client id.
  found_after :
      (member_ids : List Uuid) (before after : Store) (seq : ℕ)
      → Delivery db content_hash env auth conversation_id input trace member_ids before after seq
      → any (λ m. env.uuid 0 == m.id) before.messages ≡ false
      → find_sent db auth.user_id input.client_message_id after ≡ some (message seq)
  unfolding find_sent
  found_after member_ids before after seq d fresh =
      let mine = sent_as auth.user_id input.client_message_id in
      let absent = sym (db.exists_by_lem mine before.messages) ∙ d.was_new in
      rw
        (d.messages_after
          ∙ db.save_lem same_message (message seq) before.messages
          ∙ upsert-new same_message (message seq) before.messages fresh)
        (find_one-first db mine (before.messages ++ message seq ∷ [])
            (AtMostOne-append_new mine (message seq) before.messages absent)
          ∙ first-append_new mine (message seq) before.messages absent (ground arith))

  -- What a later `sendText` answers, in a store that has a message under its client id.
  answer_known :
      (env' : Env) (auth' : AuthContext) (conversation' : Uuid) (input' : SendMessageRequest)
      (trace' : Trace) (s : Store) (m : Message)
      → session_is_good db env'.now auth' s ≡ true
      → find_sent db auth'.user_id input'.client_message_id s ≡ some m
      → send_text db content_hash env' (λ t. t) auth' conversation' input' trace' s ≡ (
        (if m.conversation_id == conversation'
              && m.content_hash == content_hash conversation' input'
            then ok (accepted env'.now m true)
            else err (app_error message_idempotency_conflict 409)),
        s,
      )
  unfolding send_text send_body recover validate_with_manager answer_duplicate
      assert_duplicate_matches
  answer_known env' auth' conversation' input' trace' s m good known = ground (
    arith,
    db.transaction_lem (send_body db content_hash env' (λ t. t) auth' conversation' input' trace')
        s,
  )

  -- A client id is used once. After a message was accepted, a later request of the same user under
  -- the same client id changes nothing: it gets the first message's id, conversation and number,
  -- marked as a duplicate, if it is for the same conversation and its content has the same digest,
  -- and MESSAGE_IDEMPOTENCY_CONFLICT (409) otherwise. Conditions: the message's UUID was fresh, and
  -- the later request's session was good when the first message was accepted, judged at its time.
  pub send_text-again :
      (others : Store → Store) (s s' : Store) (r : MessageAccepted)
      → any (λ m. env.uuid 0 == m.id) (others s).messages ≡ false
      → send_text db content_hash env others auth conversation_id input trace s ≡ (ok r, s')
      → r.duplicate ≡ false
      → (env' : Env) (auth' : AuthContext) (conversation' : Uuid) (input' : SendMessageRequest)
        (trace' : Trace)
      → auth'.user_id ≡ auth.user_id
      → input'.client_message_id ≡ input.client_message_id
      → session_is_good db env'.now auth' (others s) ≡ true
      → send_text db content_hash env' (λ t. t) auth' conversation' input' trace' s' ≡ (
        (if conversation_id == conversation'
              && content_hash conversation_id input == content_hash conversation' input'
            then ok (record r { duplicate = true; server_timestamp = env'.now })
            else err (app_error message_idempotency_conflict 409)),
        s',
      )
  send_text-again others s s' r fresh sent_first new env' auth' conversation' input' trace'
        same_user same_id good =
      finish (send_text-Outcome db content_hash env auth conversation_id input trace others s)
    where
      finish :
          Outcome db content_hash env auth conversation_id input trace others s
            (send_text db content_hash env others auth conversation_id input trace s)
          → send_text db content_hash env' (λ t. t) auth' conversation' input' trace' s' ≡ (
            (if conversation_id == conversation'
                  && content_hash conversation_id input == content_hash conversation' input'
                then ok (record r { duplicate = true; server_timestamp = env'.now })
                else err (app_error message_idempotency_conflict 409)),
            s',
          )
      finish (unchanged e repeats) = ground (arith, sent_first, repeats, new)
      finish (delivered c ids m _ _ _ done answered) =
          let stored =
            deliver-Delivery db content_hash env auth conversation_id input trace ids (others s) s'
              m (done ∙ ap (λ t. (ok m, t)) (ap (λ p. p.1) sent_first)) in
          answer_known env' auth' conversation' input' trace' s' (message m.seq)
            (session_after env'.now auth' ids (others s) s' m.seq stored.0 ∙ good)
            (rw (same_user, same_id) (found_after ids (others s) s' m.seq stored.0 fresh))
          ∙ ground (arith, sent_first, answered, stored.1)

  -- A message that is found by its sender and client id takes them.
  taken :
      (others : Store → Store) (s : Store) (m : Message)
      → find_sent db auth.user_id input.client_message_id (others s) ≡ some m
      → db.exists_by (sent_as auth.user_id input.client_message_id) (others s).messages ≡ true
  unfolding find_sent
  taken others s m known =
      let mine = sent_as auth.user_id input.client_message_id in
      db.exists_by_lem mine (others s).messages
      ∙ any-Among mine m (others s).messages (db.find_one_among mine (others s).messages m known)
          (db.find_one_some mine (others s).messages m known)

  -- Two requests race under one client id: this one looked before the other committed, and the
  -- unique index refuses its row. It then answers as a duplicate of the other's message, or with
  -- MESSAGE_IDEMPOTENCY_CONFLICT where conversation or digest differ, and leaves the store as the
  -- other made it. Conditions: the session is good, no message was found at first, the request may
  -- be sent, and a sequence number is there to take.
  pub send_text-race :
      (others : Store → Store) (s : Store) (c : Conversation) (ids : List Uuid) (seq : ℕ)
      (m : Message)
      → session_is_good db env.now auth s ≡ true
      → find_sent db auth.user_id input.client_message_id s ≡ none
      → find_sent db auth.user_id input.client_message_id (others s) ≡ some m
      → assert_may_send db env.now auth.user_id conversation_id input (others s) ≡ ok (c, ids)
      → (allocate_seq db env.now conversation_id (others s)).0 ≡ ok (some seq)
      → safe_seq (some seq) ≡ some seq
      → send_text db content_hash env others auth conversation_id input trace s ≡ (
        (if m.conversation_id == conversation_id
              && m.content_hash == content_hash conversation_id input
            then ok (accepted env.now m true)
            else err (app_error message_idempotency_conflict 409)),
        others s,
      )
  unfolding send_text send_body recover validate_with_manager send_new deliver insert_message
      allocate_seq assert_duplicate_matches
  send_text-race others s c ids seq m good absent known may room safe = ground (
    arith,
    db.transaction_lem (send_body db content_hash env others auth conversation_id input trace) s,
    taken others s m known,
  )
