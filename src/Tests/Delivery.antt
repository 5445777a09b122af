-- ===== src/Tests/Delivery.antt =====
-- The relay and the projection at concrete inputs.
use slowchat.Base.{
  ℕ, ◌≡◌, ◌≤◌, ◌*◌, min, true, false, ◌==◌, Option, none, some, List, [], ◌∷◌, arith, All, any,
  update_where, if◌then◌else◌, ◌⊎◌,
}
use Prim.Native.String.{String}
use slowchat.Base.Rows.{AtMostOne}
use slowchat.Base.Action.{Error, Result, ok, err, failure}
use slowchat.Model.{
  Uuid, OutboxEvent, OutboxStatus, EventType, AggregateType, EventData, DomainEvent,
}
use slowchat.Outbox.Relay.{
  RelayConfig, is_claimable, is_held_by, exponential, outbox_retry_delay, run_once,
}
use slowchat.Outbox.Relay.Delay.{outbox_retry_delay-bounds}
use slowchat.Outbox.Relay.Run.{outcome, run_once-Settles}
use slowchat.Sync.Projection.{SyncStore, Troubles, project}
use slowchat.Sync.Projection.Distinct.{IsDistinct}
use slowchat.Sync.Projection.Claiming.{IsProjected}
use slowchat.Sync.Projection.Once.{IsCovered, project-ExactlyOnce}
use slowchat.Tests.World.{list_database, no_trace}

outbox_retry_delay-bounds_example :
    (exponential 3 1000 60000 ≤ outbox_retry_delay 3 1000 60000 (1, 2))
    × (outbox_retry_delay 3 1000 60000 (1, 2) ≤ 60000)
    × (exponential 1 1000 60000 ≡ min 60000 1000)
    × (exponential 5 1000 60000 ≡ min 60000 (2 * exponential 4 1000 60000))
outbox_retry_delay-bounds_example = outbox_retry_delay-bounds 3 1000 60000 (1, 2)

abbrev event_of : Uuid → DomainEvent
event_of id = record {
  event_id = id;
  event_type = EventType.receipt_updated;
  event_version = 1;
  occurred_at = 0;
  aggregate_type = AggregateType.receipt;
  aggregate_id = 10;
  actor_user_id = 1;
  audience_user_ids = 1 ∷ 2 ∷ 1 ∷ [];
  trace = no_trace;
  payload = EventData.receipt_data (record {
    conversation_id = 10;
    user_id = 1;
    last_delivered_seq = 1;
    last_read_seq = 1;
    updated_at = 0;
  });
}

abbrev outbox_row : Uuid → OutboxStatus → ℕ → OutboxEvent
outbox_row id status attempts = record {
  event_id = id;
  event_type = EventType.receipt_updated;
  event_version = 1;
  routing_key = EventType.receipt_updated;
  aggregate_type = AggregateType.receipt;
  aggregate_id = 10;
  payload = event_of id;
  headers = no_trace;
  status = status;
  attempts = attempts;
  available_at = 0;
  locked_by = none;
  locked_until = none;
  published_at = none;
  last_error = none;
}

abbrev relay_settings : RelayConfig
relay_settings = record {
  outbox_lock_ms = 30000;
  outbox_batch_size = 10;
  outbox_max_attempts = 5;
  outbox_retry_base_ms = 1000;
  outbox_retry_max_ms = 60000;
}

abbrev outbox : List OutboxEvent
outbox =
    outbox_row 31 OutboxStatus.pending 0
    ∷ outbox_row 32 OutboxStatus.published 0
    ∷ outbox_row 33 OutboxStatus.pending 4
    ∷ []

distinct_events : (id : Uuid) → AtMostOne (λ (e : OutboxEvent). e.event_id == id) outbox
distinct_events = λ id. ground arith

no_lease : All (λ (e : OutboxEvent). is_held_by 8 e.locked_by ≡ false) outbox
no_lease = ground arith

-- A broker that refuses one event.
abbrev broker : OutboxEvent → Option String
broker e = if e.event_id == 33 then some "down" else none

run_once-Settles_example :
    (run_once relay_settings list_database 8 5 (λ id. (0, 1)) broker true outbox
      ≡ update_where
          (is_claimable 5)
          (outcome relay_settings list_database 8 5 (λ id. (0, 1)) broker)
          outbox)
    × (((e : OutboxEvent) → broker e ≡ none)
        → any
            (is_claimable 5)
            (run_once relay_settings list_database 8 5 (λ id. (0, 1)) broker true outbox)
          ≡ false)
    × All
        (λ (e : OutboxEvent). is_held_by 8 e.locked_by ≡ false)
        (run_once relay_settings list_database 8 5 (λ id. (0, 1)) broker true outbox)
run_once-Settles_example =
    run_once-Settles relay_settings list_database 8 5 (λ id. (0, 1)) broker outbox distinct_events
      no_lease (ground arith)

abbrev empty_sync : SyncStore
empty_sync = record { inbox = []; sync_events = []; next_id = 1 }

none_yet :
    IsProjected list_database 8 30000 (event_of 31) empty_sync
    → IsCovered (event_of 31) empty_sync.sync_events
none_yet (one, (r, there, done)) = absurd (ground arith)

-- The update to PROCESSED fails.
abbrev unmarked : Troubles
unmarked = record { claiming = none; inserting = none; marking = some failure; releasing = none }

abbrev projection : Result (Unit {0}) × SyncStore
projection = project list_database 8 30000 5 (event_of 31) unmarked empty_sync

project-ExactlyOnce_example :
    IsDistinct projection.1.sync_events
    × ((e : Error)
        → projection.0 ≡ err e
        → (projection.1.sync_events ≡ [])
          ⊎ (IsCovered (event_of 31) projection.1.sync_events
              × ((why : Error) × (unmarked.marking ≡ some why))))
    × (projection.0 ≡ ok tt
        → IsCovered (event_of 31) projection.1.sync_events
          × ((worker' lease' : ℕ) (now' : ℕ) (troubles' : Troubles)
              → troubles'.claiming ≡ none
              → project list_database worker' lease' now' (event_of 31) troubles' projection.1
                ≡ (ok tt, projection.1)))
project-ExactlyOnce_example =
    project-ExactlyOnce list_database 8 30000 (event_of 31) 5 unmarked empty_sync tt (λ u e. tt)
      none_yet
