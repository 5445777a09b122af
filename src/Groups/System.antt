-- ===== src/Groups/System.antt =====
-- apps/im-server/src/modules/groups/services/group-system-message.service.ts: a change of a group is a
-- message of its conversation, with a number of the same sequence. `payload_hash` is the digest of
-- a payload, which a library computes.
pub mod Sequence
use slowchat.Base.{ℕ, ◌+◌, false, ◌==◌, reject, Option, none, some, List, [], ◌∷◌}
use mathlib.Core.Option
use slowchat.Base.Action.{Action, ok, err, failure, modify, pure, ◌>>=◌, ◌>>◌}
use slowchat.Base.Database.{Database}
use Prim.Native.String.{String}
use Prim.Native.Char.{code}
use slowchat.Model.{
  Uuid, Time, Digest, Store, AuthContext, Conversation, Message, MessageType, SystemKind, Payload,
  DomainEvent, EventType, AggregateType, EventData, Trace, active_conversation,
}
use slowchat.Sessions.{Env}
use slowchat.Views.{to_message}
use slowchat.Outbox.Writer
use slowchat.Messages.Send.Parts.{safe_seq, insert_message, point_at_last}

-- [...new Set(ids)]: the first of each.
abbrev pub unique : List Uuid → List Uuid
unique [] = []
unique (id ∷ ids) = id ∷ reject (λ other. other == id) (unique ids)

-- SET last_seq = last_seq + 1, last_message_at = now(), updated_at = now(), version = version + 1
abbrev pub next_system_seq : Time → Conversation → Conversation
next_system_seq now c = record c {
  last_seq = c.last_seq + 1;
  last_message_at = some now;
  updated_at = now;
  version = c.version + 1;
}

abbrev codes : String → List ℕ
codes String.[] = []
codes (String.◌∷◌ c s) = code c ∷ codes s

-- The text of a kind, by its characters.
text_of_kind : SystemKind → List ℕ
text_of_kind SystemKind.member_joined = codes "MEMBER_JOINED"
text_of_kind SystemKind.member_left = codes "MEMBER_LEFT"
text_of_kind SystemKind.member_removed = codes "MEMBER_REMOVED"
text_of_kind SystemKind.group_updated = codes "GROUP_UPDATED"
text_of_kind SystemKind.owner_transferred = codes "OWNER_TRANSFERRED"
text_of_kind SystemKind.admin_updated = codes "ADMIN_UPDATED"
text_of_kind SystemKind.mute_updated = codes "MUTE_UPDATED"
text_of_kind SystemKind.group_disbanded = codes "GROUP_DISBANDED"

no_trace : Trace
no_trace = record { request_id = none; trace_id = none }

module _ (db : Database) (payload_hash : Payload → Digest) where
  open db use {find_one, update}

  unfoldable pub system_message :
      Env → AuthContext → Uuid → SystemKind → Option Uuid → ℕ → ℕ → Message
  unfolding text_of_kind
  system_message env auth conversation_id kind target_user_id base seq =
      let payload : Payload = Payload.system_payload kind auth.user_id target_user_id in
      record {
        id = env.uuid base;
        conversation_id = conversation_id;
        seq = seq;
        sender_id = auth.user_id;
        sender_device_id = auth.device_id;
        client_message_id = env.uuid (base + 1);
        content_hash = payload_hash payload;
        type = MessageType.system;
        content_version = 1;
        payload = payload;
        text_preview = text_of_kind kind;
        reply_to_message_id = none;
        forward_from_message_id = none;
        counts_unread = false;
        edited_at = none;
        recalled_at = none;
        recalled_by = none;
        created_at = env.now;
      }

  unfoldable pub system_event : Env → AuthContext → Message → List Uuid → ℕ → DomainEvent
  unfolding no_trace
  system_event env auth message audience base = record {
    event_id = env.uuid (base + 2);
    event_type = EventType.message_created;
    event_version = 1;
    occurred_at = message.created_at;
    aggregate_type = AggregateType.message;
    aggregate_id = message.id;
    actor_user_id = auth.user_id;
    audience_user_ids = unique audience;
    trace = no_trace;
    payload = EventData.message_data (to_message message);
  }

  unfoldable pub allocate_system_seq : Time → Uuid → Action Store (Option ℕ)
  allocate_system_seq now conversation_id s =
      let rows =
        update (active_conversation conversation_id) (next_system_seq now) s.conversations in
      (
        ok (Option.map (λ c. c.last_seq) (find_one (active_conversation conversation_id) rows)),
        record s { conversations = rows },
      )

  -- if (!Number.isSafeInteger(seq) || seq <= 0) throw new Error(…)
  abbrev or_fail : Option ℕ → Action Store ℕ
  or_fail none s = (err failure, s)
  or_fail (some seq) s = (ok seq, s)

  -- `base` is the number of UUIDs that the command has taken before.
  unfoldable pub append :
      Env → AuthContext → Uuid → SystemKind → Option Uuid → List Uuid → ℕ → Action Store Message
  append env auth conversation_id kind target_user_id audience base = do
    returned ← allocate_system_seq env.now conversation_id
    seq ← or_fail (safe_seq returned)
    let message : Message = system_message env auth conversation_id kind target_user_id base seq
    insert_message db message
    modify (point_at_last db conversation_id message)
    Writer.append db env.now (system_event env auth message audience base)
    pure message
