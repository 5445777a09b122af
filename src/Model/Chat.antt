-- ===== src/Model/Chat.antt =====
-- Conversations, members, user states, messages, reactions and hides:
-- apps/im-server/src/modules/{conversations,messages}/persistence/entities, with the payloads of
-- packages/contracts/src/messages/index.ts. The column `settings`, always {}, is left out.
use slowchat.Base.{ℕ, Bool, true, false, Option, List, ◌==◌, ◌&&◌}
use slowchat.Model.Identity.{Uuid, Time, Digest, Text}

pub data ConversationType : Type 0 where
  direct group system : ConversationType

pub data ConversationStatus : Type 0 where
  active archived deleted : ConversationStatus

pub data Role : Type 0 where
  owner admin member : Role

pub data MemberStatus : Type 0 where
  active left removed : MemberStatus

pub record Conversation : Type 0 where
  pub id : Uuid
  pub type : ConversationType
  pub direct_key : Option (Uuid × Uuid)
  pub creator_id : Uuid
  pub owner_id : Option Uuid
  pub title : Option Text
  pub avatar_attachment_id : Option Uuid
  pub last_seq : ℕ
  pub last_message_id : Option Uuid
  pub last_message_at : Option Time
  pub member_count : ℕ
  pub status : ConversationStatus
  pub version : ℕ
  pub deleted_at : Option Time
  pub created_at : Time
  pub updated_at : Time

pub record ConversationMember : Type 0 where
  pub conversation_id : Uuid
  pub user_id : Uuid
  pub role : Role
  pub status : MemberStatus
  pub nickname : Option Text
  pub joined_seq : ℕ
  pub joined_at : Time
  pub left_at : Option Time
  pub mute_until : Option Time

pub record ConversationUserState : Type 0 where
  pub conversation_id : Uuid
  pub user_id : Uuid
  pub last_delivered_seq : ℕ
  pub last_read_seq : ℕ
  pub clear_before_seq : ℕ
  pub unread_count : ℕ
  pub mention_count : ℕ
  pub pinned_rank : Option ℕ
  pub muted : Bool
  pub archived_at : Option Time
  pub hidden_at : Option Time
  pub updated_at : Time

pub data MessageType : Type 0 where
  text image file system : MessageType

pub data SystemKind : Type 0 where
  member_joined member_left member_removed group_updated owner_transferred : SystemKind
  admin_updated mute_updated group_disbanded : SystemKind

-- The content of a message that a user sends, by its type: the payload of the request.
pub data Content : Type 0 where
  -- text, mentions?, mentionAll?
  text : Text → Option (List Uuid) → Option Bool → Content
  -- attachmentId, caption?
  image : Uuid → Option Text → Content
  -- attachmentId, fileName, contentType, sizeBytes
  file : Uuid → Text → Text → ℕ → Content

-- kind, actorUserId, targetUserId?; the metadata of a system message are left out.
pub data Payload : Type 0 where
  user_payload : Content → Payload
  system_payload : SystemKind → Uuid → Option Uuid → Payload

pub record Message : Type 0 where
  pub id : Uuid
  pub conversation_id : Uuid
  pub seq : ℕ
  pub sender_id : Uuid
  pub sender_device_id : Uuid
  pub client_message_id : Uuid
  pub content_hash : Digest
  pub type : MessageType
  pub content_version : ℕ
  pub payload : Payload
  pub text_preview : Text
  pub reply_to_message_id : Option Uuid
  pub forward_from_message_id : Option Uuid
  pub counts_unread : Bool
  pub edited_at : Option Time
  pub recalled_at : Option Time
  pub recalled_by : Option Uuid
  pub created_at : Time

pub record MessageReaction : Type 0 where
  pub id : Uuid
  pub message_id : Uuid
  pub user_id : Uuid
  pub reaction : ℕ
  pub created_at : Time

pub record MessageUserHide : Type 0 where
  pub user_id : Uuid
  pub message_id : Uuid
  pub hidden_at : Time

abbrev pub conversation_is_active : ConversationStatus → Bool
conversation_is_active ConversationStatus.active = true
conversation_is_active _ = false

abbrev pub is_direct : ConversationType → Bool
is_direct ConversationType.direct = true
is_direct _ = false

abbrev pub is_group : ConversationType → Bool
is_group ConversationType.group = true
is_group _ = false

abbrev pub member_is_active : MemberStatus → Bool
member_is_active MemberStatus.active = true
member_is_active _ = false

abbrev pub is_owner : Role → Bool
is_owner Role.owner = true
is_owner _ = false

abbrev pub is_admin : Role → Bool
is_admin Role.admin = true
is_admin _ = false

abbrev pub is_member : Role → Bool
is_member Role.member = true
is_member _ = false

abbrev pub is_text : MessageType → Bool
is_text MessageType.text = true
is_text _ = false

-- Two rows have the same primary key.
abbrev pub same_conversation : Conversation → Conversation → Bool
same_conversation a b = a.id == b.id

abbrev pub same_member : ConversationMember → ConversationMember → Bool
same_member a b = a.conversation_id == b.conversation_id && a.user_id == b.user_id

abbrev pub same_state : ConversationUserState → ConversationUserState → Bool
same_state a b = a.conversation_id == b.conversation_id && a.user_id == b.user_id

abbrev pub same_message : Message → Message → Bool
same_message a b = a.id == b.id

-- { conversationId, userId, status: "ACTIVE" }
abbrev pub active_member : Uuid → Uuid → ConversationMember → Bool
active_member conversation_id user_id m =
    m.conversation_id == conversation_id && m.user_id == user_id && member_is_active m.status

-- { conversationId, status: "ACTIVE" }
abbrev pub active_in : Uuid → ConversationMember → Bool
active_in conversation_id m = m.conversation_id == conversation_id && member_is_active m.status

-- { id: conversationId, status: "ACTIVE" }
abbrev pub active_conversation : Uuid → Conversation → Bool
active_conversation conversation_id c = c.id == conversation_id && conversation_is_active c.status

-- { conversationId, userId }
abbrev pub state_of : Uuid → Uuid → ConversationUserState → Bool
state_of conversation_id user_id st = st.conversation_id == conversation_id && st.user_id == user_id
