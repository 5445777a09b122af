-- ===== src/Outbox/Relay.antt =====
-- apps/im-server/src/modules/outbox/services/outbox-relay.service.ts. The rows of the table stand in
-- the order of `created_at, id`; event_id stands for the id of a row, being as unique. The
-- broker is a parameter: none when it confirms the event, or the text of its error. One time is
-- read in a run, and Math.random() is a fraction of two numbers.
pub mod Delay
pub mod Claim
pub mod Run
use slowchat.Base.{
  ℕ, zero, suc, ◌+◌, ◌-◌, ◌*◌, ◌/◌, ◌^◌, Bool, true, false, ◌&&◌, ◌||◌, ◌==◌, leb, ltb, min, max,
  Option, none, some, List, [], ◌∷◌, if◌then◌else◌,
}
use Prim.Native.String.{String}
use slowchat.Base.Database.{Database}
use slowchat.Model.{Uuid, Time, OutboxEvent, OutboxStatus}

-- The part `messaging` of the configuration that the relay reads.
pub record RelayConfig : Type 0 where
  pub outbox_lock_ms : ℕ
  pub outbox_batch_size : ℕ
  pub outbox_max_attempts : ℕ
  pub outbox_retry_base_ms : ℕ
  pub outbox_retry_max_ms : ℕ

abbrev pub is_pending : OutboxStatus → Bool
is_pending OutboxStatus.pending = true
is_pending _ = false

abbrev pub is_processing : OutboxStatus → Bool
is_processing OutboxStatus.processing = true
is_processing _ = false

-- locked_until < now(), which is not true of NULL
abbrev pub lease_is_over : Time → Option Time → Bool
lease_is_over now none = false
lease_is_over now (some until) = ltb until now

abbrev pub is_claimable : Time → OutboxEvent → Bool
is_claimable now e =
    (is_pending e.status && leb e.available_at now)
    || (is_processing e.status && lease_is_over now e.locked_until)

abbrev pub locked_event : Uuid → Time → OutboxEvent → OutboxEvent
locked_event worker_id until e = record e {
  status = OutboxStatus.processing;
  locked_by = some worker_id;
  locked_until = some until;
}

-- The first rows that can be claimed, as many as the limit: the table, and the rows claimed.
unfoldable pub claim_rows :
    Uuid → Time → Time → ℕ → List OutboxEvent → List OutboxEvent × List OutboxEvent
claim_rows worker_id now until limit [] = ([], [])
claim_rows worker_id now until zero (e ∷ es) = (e ∷ es, [])
claim_rows worker_id now until (suc limit) (e ∷ es) =
    let (rows, claimed) = claim_rows worker_id now until limit es in
    let (rows', claimed') = claim_rows worker_id now until (suc limit) es in
    let locked = locked_event worker_id until e in
    if is_claimable now e then (locked ∷ rows, locked ∷ claimed) else (e ∷ rows', claimed')

-- lockedBy: this.workerId
abbrev pub is_held_by : Uuid → Option Uuid → Bool
is_held_by worker_id none = false
is_held_by worker_id (some holder) = holder == worker_id

-- { id: event.id, lockedBy: this.workerId }
abbrev pub held : Uuid → OutboxEvent → OutboxEvent → Bool
held worker_id event e = e.event_id == event.event_id && is_held_by worker_id e.locked_by

abbrev pub published_event : Time → OutboxEvent → OutboxEvent
published_event now e = record e {
  status = OutboxStatus.published;
  published_at = some now;
  locked_by = none;
  locked_until = none;
  last_error = none;
}

-- Math.min(maxMs, baseMs * 2 ** Math.max(0, attempt - 1))
abbrev pub exponential : ℕ → ℕ → ℕ → ℕ
exponential attempt base_ms max_ms = min max_ms (base_ms * 2 ^ (attempt - 1))

-- Math.floor(exponential * 0.2 * n / d)
abbrev pub jitter : ℕ → ℕ × ℕ → ℕ
jitter amount (n, d) = (amount * 2 * n) / (10 * d)

unfoldable pub outbox_retry_delay : ℕ → ℕ → ℕ → ℕ × ℕ → ℕ
outbox_retry_delay attempt base_ms max_ms random =
    let amount = exponential attempt base_ms max_ms in min max_ms (amount + jitter amount random)

module _ (config : RelayConfig) where
  unfoldable pub failed_event : Time → ℕ × ℕ → String → OutboxEvent → OutboxEvent → OutboxEvent
  failed_event now random reason event e =
      let attempts = event.attempts + 1 in
      let delay =
        outbox_retry_delay attempts config.outbox_retry_base_ms config.outbox_retry_max_ms random in
      record e {
        status =
            if leb config.outbox_max_attempts attempts
            then OutboxStatus.failed
            else OutboxStatus.pending;
        attempts = attempts;
        available_at = now + delay;
        locked_by = none;
        locked_until = none;
        last_error = some reason;
      }

  -- What becomes of a row, by the broker's answer for the event that was claimed.
  abbrev pub settled_event : Time → ℕ × ℕ → Option String → OutboxEvent → OutboxEvent → OutboxEvent
  settled_event now random none event e = published_event now e
  settled_event now random (some reason) event e = failed_event now random reason event e

  module _ (db : Database) (worker_id : Uuid) (now : Time) (random : Uuid → ℕ × ℕ)
      (broker : OutboxEvent → Option String) where
    abbrev pub publish : OutboxEvent → List OutboxEvent → List OutboxEvent
    publish event rows =
        db.update (held worker_id event)
          (settled_event now (random event.event_id) (broker event) event) rows

    -- for (const event of events) await this.publish(event)
    unfoldable pub publish_each : List OutboxEvent → List OutboxEvent → List OutboxEvent
    publish_each [] rows = rows
    publish_each (event ∷ events) rows = publish_each events (publish event rows)

    unfoldable pub run_once : Bool → List OutboxEvent → List OutboxEvent
    run_once false rows = rows
    run_once true rows =
        let (rows', events) =
          claim_rows worker_id now (now + config.outbox_lock_ms) config.outbox_batch_size rows in
        publish_each events rows'
