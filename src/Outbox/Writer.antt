-- ===== src/Outbox/Writer.antt =====
-- apps/im-server/src/modules/outbox/services/outbox-writer.service.ts: an event is a row of the
-- outbox, written in the transaction of its command.
use slowchat.Base.{none}
use slowchat.Base.Action.{Action, ok}
use slowchat.Base.Database.{Database}
use slowchat.Model.{Time, Store, DomainEvent, OutboxEvent, OutboxStatus}

abbrev pub outbox_row : Time → DomainEvent → OutboxEvent
outbox_row now event = record {
  event_id = event.event_id;
  event_type = event.event_type;
  event_version = event.event_version;
  routing_key = event.event_type;
  aggregate_type = event.aggregate_type;
  aggregate_id = event.aggregate_id;
  payload = event;
  headers = event.trace;
  status = OutboxStatus.pending;
  attempts = 0;
  available_at = now;
  locked_by = none;
  locked_until = none;
  published_at = none;
  last_error = none;
}

module _ (db : Database) where
  unfoldable pub append : Time → DomainEvent → Action Store Unit
  append now event store =
      (ok tt, record store { outbox = db.insert (outbox_row now event) store.outbox })
