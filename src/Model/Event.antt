-- ===== src/Model/Event.antt =====
-- Domain events (packages/contracts/src/events/index.ts), the views that they carry and the rows of
-- the outbox and of the consumers' inbox (apps/im-server/src/modules/outbox/persistence/entities).
use slowchat.Base.{ℕ, Bool, Option, List}
use Prim.Native.String.{String}
use slowchat.Model.Identity.{Uuid, Time, Text}
use slowchat.Model.Chat.{ConversationType, MessageType, Payload}

-- requestId and traceId of a command
pub record Trace : Type 0 where
  pub request_id : Option String
  pub trace_id : Option String

pub record MessageView : Type 0 where
  pub id : Uuid
  pub conversation_id : Uuid
  pub seq : ℕ
  pub sender_id : Uuid
  pub sender_device_id : Uuid
  pub client_message_id : Uuid
  pub type : MessageType
  pub content_version : ℕ
  pub payload : Payload
  pub text_preview : Text
  pub counts_unread : Bool
  pub reply_to_message_id : Option Uuid
  pub forward_from_message_id : Option Uuid
  pub edited_at : Option Time
  pub recalled_at : Option Time
  pub recalled_by : Option Uuid
  pub created_at : Time

-- `peer` and `lastMessage`, null in every event, are left out.
pub record ConversationView : Type 0 where
  pub id : Uuid
  pub type : ConversationType
  pub last_seq : ℕ
  pub unread_count : ℕ
  pub last_delivered_seq : ℕ
  pub last_read_seq : ℕ
  pub pinned : Bool
  pub muted : Bool
  pub archived : Bool
  pub hidden : Bool
  pub created_at : Time
  pub updated_at : Time

pub record Receipt : Type 0 where
  pub conversation_id : Uuid
  pub user_id : Uuid
  pub last_delivered_seq : ℕ
  pub last_read_seq : ℕ
  pub updated_at : Time

pub data ReactionAction : Type 0 where
  added removed : ReactionAction

pub data EventType : Type 0 where
  conversation_created conversation_updated message_created receipt_updated : EventType
  message_recalled message_reaction_updated message_hidden : EventType
  media_ready media_failed media_quarantined : EventType

pub data AggregateType : Type 0 where
  conversation message receipt attachment : AggregateType

pub data EventData : Type 0 where
  message_data : MessageView → EventData
  conversation_data : ConversationView → EventData
  receipt_data : Receipt → EventData
  reaction_data : Uuid → Uuid → Uuid → ℕ → ReactionAction → EventData
  hidden_data : Uuid → Uuid → Uuid → EventData

pub record DomainEvent : Type 0 where
  pub event_id : Uuid
  pub event_type : EventType
  pub event_version : ℕ
  pub occurred_at : Time
  pub aggregate_type : AggregateType
  pub aggregate_id : Uuid
  pub actor_user_id : Uuid
  pub audience_user_ids : List Uuid
  pub trace : Trace
  pub payload : EventData

pub data OutboxStatus : Type 0 where
  pending processing published failed : OutboxStatus

pub record OutboxEvent : Type 0 where
  pub event_id : Uuid
  pub event_type : EventType
  pub event_version : ℕ
  pub routing_key : EventType
  pub aggregate_type : AggregateType
  pub aggregate_id : Uuid
  pub payload : DomainEvent
  pub headers : Trace
  pub status : OutboxStatus
  pub attempts : ℕ
  pub available_at : Time
  pub locked_by : Option Uuid
  pub locked_until : Option Time
  pub published_at : Option Time
  pub last_error : Option String

pub data InboxStatus : Type 0 where
  processing processed : InboxStatus

-- The inbox of one consumer: `consumer_name` is the same in all its rows; `last_error` is left out.
pub record ConsumerInboxEvent : Type 0 where
  pub event_id : Uuid
  pub event_type : EventType
  pub status : InboxStatus
  pub attempts : ℕ
  pub locked_by : Option Uuid
  pub locked_until : Option Time
  pub processed_at : Option Time

-- apps/im-server/src/modules/sync/persistence/entities/user-sync-event.entity.ts
pub record UserSyncEvent : Type 0 where
  pub id : ℕ
  pub user_id : Uuid
  pub event_id : Uuid
  pub event_type : EventType
  pub event_version : ℕ
  pub entity_type : AggregateType
  pub entity_id : Uuid
  pub conversation_id : Option Uuid
  pub seq : Option ℕ
  pub payload : EventData
  pub expires_at : Time
