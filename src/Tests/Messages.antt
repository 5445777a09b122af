-- ===== src/Tests/Messages.antt =====
-- `sendText` at concrete inputs.
use slowchat.Base.{◌≡◌, refl, true, false, arith, none, some, [], ◌∷◌, ◌+◌}
use slowchat.Base.Action.{Result, ok, err, app_error, message_idempotency_conflict}
use slowchat.Model.{Store, Digest, Uuid, Content, Conversation, Message}
use slowchat.Sessions.{session_is_good}
use slowchat.Conversations.Receipts.Cursors.{HasCursors}
use slowchat.Messages.Guards.{SendMessageRequest, assert_may_send}
use slowchat.Messages.Numbering.{IsSequenced}
use slowchat.Messages.Send.{send_text, MessageAccepted, accepted}
use slowchat.Messages.Send.Parts.{new_message, find_sent, allocate_seq}
use slowchat.Messages.Send.Sequence.{send_text-IsSequenced, send_text-seq}
use slowchat.Messages.Send.Idempotence.{send_text-again, send_text-race}
use slowchat.Messages.Send.Permission.{Permission, send_text-Permission}
use slowchat.Messages.Send.Cursors.{send_text-HasCursors}
use slowchat.Tests.World.{list_database, world, auth_of, no_trace, env_at, direct_row}

abbrev digest : Uuid → SendMessageRequest → Digest
digest conversation_id input = conversation_id

abbrev hello : SendMessageRequest
hello = record {
  client_message_id = 77;
  content = Content.text (b'h' ∷ b'i' ∷ []) none none;
  reply_to_message_id = none;
  forward_from_message_id = none;
}

abbrev alone : Store → Store
alone s = s

-- User 1 says hello in the direct conversation 10.
abbrev pub said : Result MessageAccepted × Store
said = send_text list_database digest (env_at 5 1000) alone (auth_of 1) 10 hello no_trace world

abbrev first_answer : MessageAccepted
first_answer = record {
  message_id = 1000;
  conversation_id = 10;
  seq = 1;
  duplicate = false;
  server_timestamp = 5;
}

said_ok : said ≡ (ok first_answer, said.1)
unfolding send_text slowchat.Sessions.validate_with_manager session_is_good find_sent
    assert_may_send slowchat.Contacts.Policy.assert_direct_messaging_allowed
    slowchat.Messages.Guards.assert_message_references slowchat.Messages.Guards.media_attachment_id
    slowchat.Messages.Send.deliver allocate_seq slowchat.Messages.Send.Parts.insert_message
    slowchat.Outbox.Writer.append
said_ok = refl

world-IsSequenced : IsSequenced world
world-IsSequenced = record { keyed = λ id. ground arith; within = tt; distinct = λ id seq. tt }

world-HasCursors : HasCursors world
world-HasCursors = record { keyed = λ id. ground arith; ordered = ground arith }

send_text-IsSequenced_example : IsSequenced said.1
send_text-IsSequenced_example =
    send_text-IsSequenced list_database digest (env_at 5 1000) (auth_of 1) 10 hello no_trace alone
      world world-IsSequenced refl

send_text-seq_example : first_answer.seq ≡ direct_row.last_seq + 1
send_text-seq_example =
    send_text-seq list_database digest (env_at 5 1000) (auth_of 1) 10 hello no_trace alone world
      said.1 first_answer direct_row (world-IsSequenced.keyed 10) refl said_ok refl

send_text-HasCursors_example : HasCursors said.1
send_text-HasCursors_example =
    send_text-HasCursors list_database digest (env_at 5 1000) (auth_of 1) 10 hello no_trace alone
      world world-HasCursors

send_text-Permission_example :
    (session_is_good list_database 5 (auth_of 1) world ≡ true)
    × Permission list_database 5 1 10 hello world
send_text-Permission_example =
    send_text-Permission list_database digest (env_at 5 1000) (auth_of 1) 10 hello no_trace alone
      world said.1 first_answer said_ok refl

good_later : session_is_good list_database 9 (auth_of 1) world ≡ true
unfolding session_is_good
good_later = refl

-- The client id again, in another conversation.
send_text-again_example :
    send_text list_database digest (env_at 9 2000) (λ t. t) (auth_of 1) 20 hello no_trace said.1
    ≡ (err (app_error message_idempotency_conflict 409), said.1)
send_text-again_example =
    send_text-again list_database digest (env_at 5 1000) (auth_of 1) 10 hello no_trace alone world
      said.1 first_answer refl said_ok refl (env_at 9 2000) (auth_of 1) 20 hello no_trace refl refl
      good_later

-- The message that user 1 said.
abbrev pub said_message : Message
said_message = new_message (env_at 5 1000) (auth_of 1) 10 10 1 hello

abbrev meanwhile : Store → Store
meanwhile s = said.1

good_now : session_is_good list_database 6 (auth_of 1) world ≡ true
unfolding session_is_good
good_now = refl

not_found : find_sent list_database 1 77 world ≡ none
unfolding find_sent
not_found = refl

found_meanwhile : find_sent list_database 1 77 said.1 ≡ some said_message
unfolding find_sent send_text slowchat.Sessions.validate_with_manager session_is_good
    assert_may_send slowchat.Contacts.Policy.assert_direct_messaging_allowed
    slowchat.Messages.Guards.assert_message_references slowchat.Messages.Guards.media_attachment_id
    slowchat.Messages.Send.deliver allocate_seq slowchat.Messages.Send.Parts.insert_message
    slowchat.Outbox.Writer.append slowchat.Messages.Send.Parts.bump_states
    slowchat.Messages.Send.Parts.point_at_last
found_meanwhile = refl

abbrev pub row_meanwhile : Conversation
row_meanwhile = record direct_row {
  last_seq = 1;
  last_message_id = some 1000;
  last_message_at = some 5;
  version = 2;
  updated_at = 5;
}

may_meanwhile : assert_may_send list_database 6 1 10 hello said.1 ≡ ok (row_meanwhile, 1 ∷ 2 ∷ [])
unfolding assert_may_send send_text slowchat.Sessions.validate_with_manager session_is_good
    find_sent slowchat.Contacts.Policy.assert_direct_messaging_allowed
    slowchat.Messages.Guards.assert_message_references slowchat.Messages.Guards.media_attachment_id
    slowchat.Messages.Send.deliver allocate_seq slowchat.Messages.Send.Parts.insert_message
    slowchat.Outbox.Writer.append slowchat.Messages.Send.Parts.bump_states
    slowchat.Messages.Send.Parts.point_at_last
may_meanwhile = refl

room_meanwhile : (allocate_seq list_database 6 10 said.1).0 ≡ ok (some 2)
unfolding allocate_seq send_text slowchat.Sessions.validate_with_manager session_is_good find_sent
    assert_may_send slowchat.Contacts.Policy.assert_direct_messaging_allowed
    slowchat.Messages.Guards.assert_message_references slowchat.Messages.Guards.media_attachment_id
    slowchat.Messages.Send.deliver slowchat.Messages.Send.Parts.insert_message
    slowchat.Outbox.Writer.append slowchat.Messages.Send.Parts.bump_states
    slowchat.Messages.Send.Parts.point_at_last
room_meanwhile = refl

-- The same request twice at once, and the other one commits first.
send_text-race_example :
    send_text list_database digest (env_at 6 2000) meanwhile (auth_of 1) 10 hello no_trace world
    ≡ (ok (accepted 6 said_message true), said.1)
send_text-race_example =
    send_text-race list_database digest (env_at 6 2000) (auth_of 1) 10 hello no_trace meanwhile
      world row_meanwhile (1 ∷ 2 ∷ []) 2 said_message good_now not_found found_meanwhile
      may_meanwhile room_meanwhile refl
