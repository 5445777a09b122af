-- ===== src/Messages/Forward.antt =====
-- apps/im-server/src/modules/messages/services/advanced-message-command.service.ts: `forward`, which
-- sends the text of a message that the user can see.
pub mod Guard
use slowchat.Base.{ℕ, not, ◌==◌, Option, none, some, if◌then◌else◌}
use slowchat.Base.Action.{
  Action, Check, Result, ok, err, app_error, message_not_found, message_type_unsupported,
  message_payload_invalid, checked, ◌>>=◌, ◌>>◌,
}
use slowchat.Base.Database.{Database}
use slowchat.Model.{
  Uuid, Digest, Text, Store, AuthContext, Message, Payload, Content, Trace, active_member, is_text,
}
use slowchat.Sessions.{Env, validate_with_manager}
use slowchat.Messages.Guards.{SendMessageRequest}
use slowchat.Messages.Send.{MessageAccepted, send_text}
use slowchat.Messages.Forward.Guard.{forward_source}

-- input: clientMessageId and the conversation to send to
pub record ForwardMessageRequest : Type 0 where
  pub client_message_id : Uuid
  pub conversation_id : Uuid

abbrev pub forward_request : ForwardMessageRequest → Uuid → Text → SendMessageRequest
forward_request input message_id text = record {
  client_message_id = input.client_message_id;
  content = Content.text text none none;
  reply_to_message_id = none;
  forward_from_message_id = some message_id;
}

module _ (db : Database) (content_hash : Uuid → SendMessageRequest → Digest) where
  unfoldable pub forward :
      Env
      → (Store → Store)
      → AuthContext
      → Uuid
      → ForwardMessageRequest
      → Trace
      → Action Store MessageAccepted
  forward env others auth message_id input trace = do
    validate_with_manager db env.now auth
    text ← checked (forward_source db auth.user_id message_id)
    send_text db content_hash env others auth input.conversation_id
        (forward_request input message_id text) trace
