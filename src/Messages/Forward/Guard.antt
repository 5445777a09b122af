-- ===== src/Messages/Forward/Guard.antt =====
-- apps/im-server/src/modules/messages/services/advanced-message-command.service.ts: the text that
-- `forward` sends on.
use slowchat.Base.{not, ◌==◌, Option, none, some}
use slowchat.Base.Action.{
  Check, message_not_found, message_type_unsupported, message_payload_invalid,
}
use slowchat.Base.Check.{pure, asks, or_throw, throw_if, ◌>>=◌, ◌>>◌}
use slowchat.Base.Database.{Database}
use slowchat.Model.{Uuid, Text, Store, Payload, Content, active_member, is_text}

-- payload.text, if it is a string
abbrev text_of : Payload → Option Text
text_of (Payload.user_payload (Content.text text _ _)) = some text
text_of _ = none

module _ (db : Database) where
  unfoldable pub forward_source : Uuid → Uuid → Check Store Text
  forward_source user_id message_id = do
    found ← asks (λ s. db.find_one (λ m. m.id == message_id) s.messages)
    source ← or_throw found message_not_found 404
    can_view ← asks (λ s. db.exists_by (active_member source.conversation_id user_id) s.members)
    throw_if (not can_view) message_not_found 404
    throw_if (not (is_text source.type)) message_type_unsupported 400
    text ← or_throw (text_of source.payload) message_payload_invalid 400
    pure text
