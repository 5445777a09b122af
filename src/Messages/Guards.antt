-- ===== src/Messages/Guards.antt =====
-- apps/im-server/src/modules/messages/services/message-command.service.ts: what has to hold before a
-- message is accepted (`assertMaySend`, `assertMessageReferences`, `assertDuplicateMatches`), and
-- the parts of the request (packages/contracts/src/messages/index.ts).
use slowchat.Base.{
  ℕ, zero, suc, Bool, true, false, not, ◌&&◌, ◌||◌, Option, none, some, List, [], ◌∷◌, map, ltb,
  leb, ◌==◌, if◌then◌else◌, length, first, any, or_else,
}
use slowchat.Base.Action.{
  Check, failure, message_forbidden, conversation_not_found, message_type_unsupported,
  conversation_conflict, message_payload_invalid, message_not_found, attachment_forbidden,
  attachment_quarantined, attachment_not_ready, message_idempotency_conflict,
}
use slowchat.Base.Check.{pure, asks, or_throw, or_raise, throw_if, ◌>>=◌, ◌>>◌}
use slowchat.Base.Database.{Database}
use slowchat.Model.{
  Uuid, Time, Digest, Text, Store, Conversation, ConversationMember, Message, MessageType, Content,
  AttachmentKind, is_direct, is_group, is_member, is_ready, is_quarantined, active_in,
  active_member, active_conversation,
}
use slowchat.Contacts.Policy.{assert_direct_messaging_allowed}

pub record SendMessageRequest : Type 0 where
  pub client_message_id : Uuid
  pub content : Content
  pub reply_to_message_id : Option Uuid
  pub forward_from_message_id : Option Uuid

-- input.type
abbrev pub content_type : Content → MessageType
content_type (Content.text _ _ _) = MessageType.text
content_type (Content.image _ _) = MessageType.image
content_type (Content.file _ _ _ _) = MessageType.file

abbrev take : ℕ → Text → Text
take zero cs = []
take (suc n) [] = []
take (suc n) (c ∷ cs) = c ∷ take n cs

abbrev is_surrogate_pair : ℕ → ℕ → Bool
is_surrogate_pair c d = leb 55296 c && leb c 56319 && leb 56320 d && leb d 57343

-- Array.from(text).slice(0, n).join(""): n code points of the code units.
abbrev take_points : ℕ → Text → Text
take_points zero cs = []
take_points (suc n) [] = []
take_points (suc n) (c ∷ []) = c ∷ []
take_points (suc n) (c ∷ d ∷ cs) =
    let rest = take_points n (if is_surrogate_pair c d then cs else d ∷ cs) in
    c ∷ (if is_surrogate_pair c d then d ∷ rest else rest)

unfoldable pub preview : Content → Text
preview (Content.text text _ _) = take_points 280 text
preview (Content.file _ file_name _ _) = take 280 file_name
preview (Content.image _ _) = b'I' ∷ b'M' ∷ b'A' ∷ b'G' ∷ b'E' ∷ []

unfoldable pub media_attachment_id : Content → Option Uuid
media_attachment_id (Content.text _ _ _) = none
media_attachment_id (Content.image attachment_id _) = some attachment_id
media_attachment_id (Content.file attachment_id _ _ _) = some attachment_id

abbrev pub mentions : Content → List Uuid
mentions (Content.text _ mentioned _) = or_else mentioned []
mentions _ = []

abbrev pub mention_all : Content → Bool
mention_all (Content.text _ _ all) = or_else all false
mention_all _ = false

-- payload.mentions?.length || payload.mentionAll, for a text
abbrev has_mentions : Content → Bool
has_mentions content = ltb 0 (length (mentions content)) || mention_all content

abbrev pub is_muted : Time → ConversationMember → Bool
is_muted now m =
    (elim m.mute_until [ none ↦ false | some until ↦ ltb now until ]) && is_member m.role

-- The kind that an attachment of the message must have.
abbrev kind_matches : Content → AttachmentKind → Bool
kind_matches (Content.image _ _) AttachmentKind.image = true
kind_matches (Content.image _ _) AttachmentKind.file = false
kind_matches _ AttachmentKind.image = false
kind_matches _ AttachmentKind.file = true

abbrev has_expired : Time → Option Time → Bool
has_expired now none = false
has_expired now (some at) = leb at now

module _ (db : Database) where
  open db use {find_one, find_by, count_by, exists_by}

  direct_checks : Uuid → Content → List ConversationMember → Check Store Unit
  direct_checks sender_id content members = do
    throw_if (not (length members == 2)) conversation_conflict 409
    throw_if (has_mentions content) message_payload_invalid 400
    recipient ← or_raise (first (λ m. not (m.user_id == sender_id)) members) failure
    assert_direct_messaging_allowed db sender_id recipient.user_id

  group_checks : Uuid → ConversationMember → Content → List ConversationMember → Check Store Unit
  group_checks conversation_id sender content members = do
    found ← asks (λ s. find_one (λ p. p.conversation_id == conversation_id) s.profiles)
    profile ← or_throw found conversation_not_found 404
    throw_if (profile.all_members_muted && is_member sender.role) message_forbidden 403
    throw_if (any (λ id. not (any (λ m. m.user_id == id) members)) (mentions content))
        message_payload_invalid 400

  reply_check : Uuid → Option Uuid → Check Store Unit
  reply_check conversation_id none = pure tt
  reply_check conversation_id (some id) = do
    reply ←
        asks (λ s. find_one (λ m. m.id == id && m.conversation_id == conversation_id) s.messages)
    or_throw reply message_not_found 404
    pure tt

  forward_check : Uuid → Option Uuid → Check Store Unit
  forward_check sender_id none = pure tt
  forward_check sender_id (some id) = do
    found ← asks (λ s. find_one (λ m. m.id == id) s.messages)
    source ← or_throw found message_not_found 404
    can_view ← asks (λ s. exists_by (active_member source.conversation_id sender_id) s.members)
    throw_if (not can_view) message_forbidden 403

  unfoldable pub assert_message_references : Uuid → Uuid → SendMessageRequest → Check Store Unit
  unfolding reply_check forward_check
  assert_message_references sender_id conversation_id input = do
    reply_check conversation_id input.reply_to_message_id
    forward_check sender_id input.forward_from_message_id

  attachment_check : Time → Uuid → Content → Option Uuid → Check Store Unit
  attachment_check now sender_id content none = pure tt
  attachment_check now sender_id content (some id) = do
    found ← asks (λ s. find_one (λ a. a.id == id) s.attachments)
    attachment ← or_throw found attachment_forbidden 403
    throw_if (not (attachment.owner_id == sender_id)) attachment_forbidden 403
    throw_if (is_quarantined attachment.status) attachment_quarantined 403
    throw_if (not (is_ready attachment.status)) attachment_not_ready 409
    throw_if (has_expired now attachment.expires_at) attachment_not_ready 409
    throw_if (not (kind_matches content attachment.kind)) message_payload_invalid 400

  unfoldable pub assert_may_send :
      Time → Uuid → Uuid → SendMessageRequest → Check Store (Conversation × List Uuid)
  unfolding direct_checks group_checks attachment_check
  assert_may_send now sender_id conversation_id input = do
    found ← asks (λ s. find_one (active_conversation conversation_id) s.conversations)
    conversation ← or_throw found conversation_not_found 404
    members ← asks (λ s. find_by (active_in conversation_id) s.members)
    sender ← or_throw (first (λ m. m.user_id == sender_id) members) message_forbidden 403
    throw_if (is_muted now sender) message_forbidden 403
    throw_if (not (is_direct conversation.type) && not (is_group conversation.type))
        message_type_unsupported 400
    (if is_direct conversation.type
        then direct_checks sender_id input.content members
        else group_checks conversation_id sender input.content members)
    assert_message_references sender_id conversation_id input
    attachment_check now sender_id input.content (media_attachment_id input.content)
    state_count ← asks (λ s. count_by (λ st. st.conversation_id == conversation_id) s.states)
    throw_if (is_direct conversation.type && not (state_count == 2)) conversation_conflict 409
    pure (conversation, map (λ m. m.user_id) members)

-- A message that was stored under the same client id must be this one.
unfoldable pub assert_duplicate_matches : Message → Uuid → Digest → Check Store Message
assert_duplicate_matches message conversation_id content_hash = do
  throw_if
      (not (message.conversation_id == conversation_id)
        || not (message.content_hash == content_hash))
      message_idempotency_conflict 409
  pure message
