-- ===== src/Views.antt =====
-- The mappers from entities to the views that events and replies carry:
-- apps/im-server/src/modules/messages/message.mapper.ts and conversations/conversation.mapper.ts.
-- The schemas that `toMessage` parses stored payloads with are a library's.
use slowchat.Base.{is_some}
use slowchat.Model.{Conversation, ConversationUserState, Message, MessageView, ConversationView}

abbrev pub to_message : Message → MessageView
to_message m = record {
  id = m.id;
  conversation_id = m.conversation_id;
  seq = m.seq;
  sender_id = m.sender_id;
  sender_device_id = m.sender_device_id;
  client_message_id = m.client_message_id;
  type = m.type;
  content_version = 1;
  payload = m.payload;
  text_preview = m.text_preview;
  counts_unread = m.counts_unread;
  reply_to_message_id = m.reply_to_message_id;
  forward_from_message_id = m.forward_from_message_id;
  edited_at = m.edited_at;
  recalled_at = m.recalled_at;
  recalled_by = m.recalled_by;
  created_at = m.created_at;
}

abbrev pub to_conversation : Conversation → ConversationUserState → ConversationView
to_conversation c st = record {
  id = c.id;
  type = c.type;
  last_seq = c.last_seq;
  unread_count = st.unread_count;
  last_delivered_seq = st.last_delivered_seq;
  last_read_seq = st.last_read_seq;
  pinned = is_some st.pinned_rank;
  muted = st.muted;
  archived = is_some st.archived_at;
  hidden = is_some st.hidden_at;
  created_at = c.created_at;
  updated_at = c.updated_at;
}
