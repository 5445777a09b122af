-- ===== src/Messages/Access.antt =====
-- apps/im-server/src/modules/messages/services/advanced-message-command.service.ts: the reads that
-- the advanced commands share (`requireMemberMessage`, `activeMember`, `audience`).
use slowchat.Base.{Option, List, map, ◌==◌}
use slowchat.Base.Action.{Check, message_not_found, message_forbidden}
use slowchat.Base.Check.{pure, asks, or_throw, ◌>>=◌}
use slowchat.Base.Database.{Database}
use slowchat.Model.{
  Uuid, Store, Message, ConversationMember, DomainEvent, EventType, EventData, AggregateType, Trace,
  AuthContext, active_member, active_in,
}
use slowchat.Sessions.{Env}

-- An event about a message.
abbrev pub message_event :
    Uuid → Env → AuthContext → EventType → Uuid → List Uuid → Trace → EventData → DomainEvent
message_event event_id env auth event_type message_id audience trace payload = record {
  event_id = event_id;
  event_type = event_type;
  event_version = 1;
  occurred_at = env.now;
  aggregate_type = AggregateType.message;
  aggregate_id = message_id;
  actor_user_id = auth.user_id;
  audience_user_ids = audience;
  trace = trace;
  payload = payload;
}

module _ (db : Database) where
  open db use {find_one, find_by}

  abbrev pub member_in : Uuid → Uuid → Store → Option ConversationMember
  member_in user_id conversation_id s = find_one (active_member conversation_id user_id) s.members

  abbrev pub audience : Uuid → Store → List Uuid
  audience conversation_id s = map (λ m. m.user_id) (find_by (active_in conversation_id) s.members)

  unfoldable pub require_member_message : Uuid → Uuid → Check Store Message
  require_member_message user_id message_id = do
    found ← asks (λ s. find_one (λ m. m.id == message_id) s.messages)
    message ← or_throw found message_not_found 404
    joined ← asks (member_in user_id message.conversation_id)
    _ ← or_throw joined message_forbidden 403
    pure message
