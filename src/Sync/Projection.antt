-- ===== src/Sync/Projection.antt =====
-- apps/im-server/src/modules/sync/services/sync-projection.service.ts, after the message was parsed. The
-- store has the consumers' inbox and the rows of user_sync_events with the sequence of their ids.
-- Every statement may fail: `Troubles` has the errors, if any, with which the database answers.
pub mod Distinct
pub mod Claiming
pub mod Once
use slowchat.Base.{
  ℕ, ◌+◌, ◌*◌, Bool, true, false, not, ◌&&◌, ◌||◌, ◌==◌, ltb, any, Option, none, some, List, [],
  ◌∷◌, ◌++◌, if◌then◌else◌,
}
use slowchat.Base.Action.{Action, Error, ok, err, failure, pure, raise, modify, ◌>>=◌, ◌>>◌}
use slowchat.Base.Database.{Database}
use slowchat.Model.{
  Uuid, Time, EventType, AggregateType, EventData, DomainEvent, ConsumerInboxEvent, InboxStatus,
  UserSyncEvent,
}
use slowchat.Groups.System.{unique}

pub record SyncStore : Type 0 where
  pub inbox : List ConsumerInboxEvent
  pub sync_events : List UserSyncEvent
  pub next_id : ℕ

-- The errors of the claim, the transaction, and the updates to PROCESSED and of lockedUntil. A
-- statement that fails has changed nothing.
pub record Troubles : Type 0 where
  pub claiming : Option Error
  pub inserting : Option Error
  pub marking : Option Error
  pub releasing : Option Error

pub data Claim : Type 0 where
  claimed processed busy : Claim

abbrev pub is_processed : InboxStatus → Bool
is_processed InboxStatus.processed = true
is_processed InboxStatus.processing = false

-- The inbox of CONSUMER_NAME: the row of an event.
abbrev pub inbox_of : Uuid → ConsumerInboxEvent → Bool
inbox_of event_id r = r.event_id == event_id

abbrev pub same_inbox : ConsumerInboxEvent → ConsumerInboxEvent → Bool
same_inbox a b = a.event_id == b.event_id

-- locked_until IS NULL OR locked_until < now()
abbrev pub lease_is_free : Time → Option Time → Bool
lease_is_free now none = true
lease_is_free now (some until) = ltb until now

-- seq of the data, if it has one
abbrev read_seq : EventData → Option ℕ
read_seq (EventData.message_data m) = some m.seq
read_seq _ = none

-- conversationId of the data, or its id
abbrev read_conversation_id : EventData → Option Uuid
read_conversation_id (EventData.message_data m) = some m.conversation_id
read_conversation_id (EventData.conversation_data c) = some c.id
read_conversation_id (EventData.receipt_data r) = some r.conversation_id
read_conversation_id (EventData.reaction_data message_id conversation_id user_id reaction action) =
    some conversation_id
read_conversation_id (EventData.hidden_data message_id conversation_id user_id) =
    some conversation_id

-- (user_id, event_id)
abbrev pub row_of : Uuid → Uuid → UserSyncEvent → Bool
row_of user_id event_id r = r.user_id == user_id && r.event_id == event_id

abbrev pub projected : Time → DomainEvent → Uuid → ℕ → UserSyncEvent
projected now event user_id id = record {
  id = id;
  user_id = user_id;
  event_id = event.event_id;
  event_type = event.event_type;
  event_version = event.event_version;
  entity_type = event.aggregate_type;
  entity_id = event.aggregate_id;
  conversation_id = read_conversation_id event.payload;
  seq = read_seq event.payload;
  payload = event.payload;
  expires_at = now + 7776000000;
}

-- INSERT … ON CONFLICT (user_id, event_id) DO NOTHING; the sequence moves on in both cases.
unfoldable pub insert_event : Time → DomainEvent → Uuid → SyncStore → SyncStore
insert_event now event user_id s = record s {
  sync_events =
      if any (row_of user_id event.event_id) s.sync_events
      then s.sync_events
      else s.sync_events ++ projected now event user_id s.next_id ∷ [];
  next_id = s.next_id + 1;
}

-- for (const userId of new Set(event.audienceUserIds))
unfoldable pub insert_all : Time → DomainEvent → List Uuid → SyncStore → SyncStore
insert_all now event [] s = s
insert_all now event (user_id ∷ ids) s = insert_all now event ids (insert_event now event user_id s)

module _ (db : Database) (worker_id : Uuid) (lease_ms : ℕ) where
  open db use {find_one, save, update, transaction}

  abbrev first_claim : Time → DomainEvent → ConsumerInboxEvent
  first_claim now event = record {
    event_id = event.event_id;
    event_type = event.event_type;
    status = InboxStatus.processing;
    attempts = 1;
    locked_by = some worker_id;
    locked_until = some (now + lease_ms);
    processed_at = none;
  }

  abbrev reclaimed : Time → ConsumerInboxEvent → ConsumerInboxEvent
  reclaimed now r = record r {
    status = InboxStatus.processing;
    attempts = r.attempts + 1;
    locked_by = some worker_id;
    locked_until = some (now + lease_ms);
  }

  abbrev pub save_inbox : ConsumerInboxEvent → SyncStore → SyncStore
  save_inbox r s = record s { inbox = save same_inbox r s.inbox }

  abbrev pub claim_found : Time → DomainEvent → Option ConsumerInboxEvent → Action SyncStore Claim
  claim_found now event none s = (ok Claim.claimed, save_inbox (first_claim now event) s)
  claim_found now event (some r) s =
      if is_processed r.status
      then (ok Claim.processed, s)
      else if lease_is_free now r.locked_until
      then (ok Claim.claimed, save_inbox (reclaimed now r) s)
      else (ok Claim.busy, s)

  -- INSERT … ON CONFLICT (consumer_name, event_id) DO UPDATE … WHERE …, and the row read again
  unfoldable pub claim_inbox : Time → DomainEvent → Option Error → Action SyncStore Claim
  claim_inbox now event none s =
      claim_found now event (find_one (inbox_of event.event_id) s.inbox) s
  claim_inbox now event (some e) s = (err e, s)

  -- { consumerName, eventId, lockedBy: this.workerId }
  abbrev pub mine : Uuid → ConsumerInboxEvent → Bool
  mine event_id r = elim r.locked_by [
    | none ↦ false
    | some holder ↦ inbox_of event_id r && holder == worker_id
  ]

  unfoldable pub mark_processed : Time → DomainEvent → SyncStore → SyncStore
  mark_processed now event s = record s {
    inbox =
        update (mine event.event_id)
          (λ r. record r {
            status = InboxStatus.processed;
            processed_at = some now;
            locked_by = none;
            locked_until = none;
          })
          s.inbox;
  }

  -- lockedUntil: new Date(0)
  unfoldable pub release : DomainEvent → SyncStore → SyncStore
  release event s = record s {
    inbox = update (mine event.event_id) (λ r. record r { locked_until = some 0 }) s.inbox;
  }

  unfoldable pub insert_body : Time → DomainEvent → Option Error → Action SyncStore Unit
  insert_body now event trouble s =
      let done = insert_all now event (unique event.audience_user_ids) s in
      elim trouble [ none ↦ (ok tt, done) | some e ↦ (err e, done) ]

  -- catch (error)
  abbrev pub fail : DomainEvent → Option Error → Error → Action SyncStore Unit
  fail event none e s = (err e, release event s)
  fail event (some e') e s = (err e', s)

  -- The update to PROCESSED, which is in the same try as the transaction.
  abbrev pub finish : Time → DomainEvent → Troubles → Option Error → Action SyncStore Unit
  finish now event troubles none s = (ok tt, mark_processed now event s)
  finish now event troubles (some e) s = fail event troubles.releasing e s

  unfoldable pub project_claimed : Time → DomainEvent → Troubles → Action SyncStore Unit
  unfolding insert_body mark_processed release
  project_claimed now event troubles s =
      let (answer, after) = transaction (insert_body now event troubles.inserting) s in
      elim answer [
        | ok _ ↦ finish now event troubles troubles.marking after
        | err e ↦ fail event troubles.releasing e after
      ]

  abbrev pub project_with : Time → DomainEvent → Troubles → Claim → Action SyncStore Unit
  project_with now event troubles Claim.claimed = project_claimed now event troubles
  project_with now event troubles Claim.processed = pure tt
  project_with now event troubles Claim.busy = raise failure

  unfoldable pub project : Time → DomainEvent → Troubles → Action SyncStore Unit
  unfolding claim_inbox project_claimed
  project now event troubles = do
    claim ← claim_inbox now event troubles.claiming
    project_with now event troubles claim
