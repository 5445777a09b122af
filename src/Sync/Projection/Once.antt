-- ===== src/Sync/Projection/Once.antt =====
-- apps/im-server/src/modules/sync/services/sync-projection.service.ts: an event is projected once, however
-- often it is delivered.
use slowchat.Base.{
  ℕ, ◌≡◌, refl, sym, ap, subst, ◌∙◌, true, none, some, List, arith, All, any, first, ◌⊎◌, inl, inr,
  Option-cases,
}
use slowchat.Base.Rows.{AtMostOne}
use slowchat.Base.Action.{Error, Result, ok, err, failure}
use slowchat.Base.Database.{Database}
use slowchat.Model.{Uuid, Time, DomainEvent, ConsumerInboxEvent, UserSyncEvent}
use slowchat.Groups.System.{unique}
use slowchat.Sync.Projection.{
  SyncStore, Troubles, inbox_of, row_of, mine, claim_inbox, mark_processed, project_claimed,
  project,
}
use slowchat.Sync.Projection.Distinct.{IsDistinct, IsDistinct-insert_all, insert_all-HasRow}
use slowchat.Sync.Projection.Claiming.{
  insert_all-inbox, IsProjected, IsClaimed, IsFailed, IsProjected-marked, replayed, claimed-run,
  claim-cases, filled,
}

-- Each user of the audience has the event.
abbrev pub IsCovered : DomainEvent → List UserSyncEvent → Type 0
IsCovered event rows =
    All (λ user_id. any (row_of user_id event.event_id) rows ≡ true) event.audience_user_ids

module _ (db : Database) (worker_id : Uuid) (lease_ms : ℕ) (event : DomainEvent) (now : Time)
    (troubles : Troubles) (s : SyncStore) where
  abbrev pub result : Result (Unit {0}) × SyncStore
  result = project db worker_id lease_ms now event troubles s

  abbrev added : SyncStore → SyncStore
  added = filled db worker_id lease_ms event now

  -- How a projection ends.
  data Ending : Type 0 where
    seen : result ≡ (ok tt, s) → IsProjected db worker_id lease_ms event s → Ending
    refused : IsFailed db worker_id lease_ms event result s → Ending
    unmarked :
        (t : SyncStore) (e : Error)
        → t.sync_events ≡ s.sync_events
        → troubles.marking ≡ some e
        → IsFailed db worker_id lease_ms event result (added t)
        → Ending
    done :
        (t : SyncStore)
        → t.sync_events ≡ s.sync_events
        → IsClaimed db worker_id lease_ms event t
        → result ≡ (ok tt, mark_processed db worker_id lease_ms now event (added t))
        → Ending

  ends : AtMostOne (inbox_of event.event_id) s.inbox → Ending
  unfolding project claim_inbox
  ends one = elim (Option-cases troubles.claiming) [
    | inr (e, why) ↦ refused (e, s, ground arith, refl)
    | inl calm ↦ elim (claim-cases db worker_id lease_ms event now s one) [
      | inl (answer, projected) ↦ seen (ground arith) projected
      | inr (inl busy) ↦ refused (failure, s, ground arith, refl)
      | inr (inr (t, claimed, same, own)) ↦
          let run : result ≡ project_claimed db worker_id lease_ms now event troubles t =
            ground arith in
          elim (claimed-run db worker_id lease_ms event now troubles t) [
            | inl ran ↦ done t same own (run ∙ ran)
            | inr (inl (e, why, failed)) ↦
                unmarked t e same why
                  (subst (λ r. IsFailed db worker_id lease_ms event r (added t)) (sym run) failed)
            | inr (inr (e, u, ran, rows)) ↦ refused (e, u, run ∙ ran, rows ∙ same)
          ]
    ]
  ]

  added-IsDistinct :
      (t : SyncStore)
      → IsDistinct s.sync_events
      → t.sync_events ≡ s.sync_events
      → IsDistinct (added t).sync_events
  added-IsDistinct t distinct rows =
      IsDistinct-insert_all now event (unique event.audience_user_ids) t
        (subst IsDistinct (sym rows) distinct)

  added-IsClaimed :
      (t : SyncStore)
      → IsClaimed db worker_id lease_ms event t
      → IsClaimed db worker_id lease_ms event (added t)
  added-IsClaimed t own =
      subst
        (λ rows.
          AtMostOne (inbox_of event.event_id) rows
          × ((r : ConsumerInboxEvent) × (first (inbox_of event.event_id) rows ≡ some r)
              × (mine db worker_id lease_ms event.event_id r ≡ true)))
        (sym (insert_all-inbox now event (unique event.audience_user_ids) t)) own

  -- Whatever statement of it fails, no user has an event twice after a projection. If it fails,
  -- either no user gets anything, or each user of the audience has the event and it is the update
  -- to PROCESSED that failed. If it succeeds, each user of the audience has the event, and any
  -- further projection of it whose claim does not fail, by whatever worker and at any time,
  -- succeeds and changes nothing. Conditions: no user had an event twice before, the inbox has an
  -- event once, and an event that the inbox says is processed has its rows.
  pub project-ExactlyOnce :
      AtMostOne (inbox_of event.event_id) s.inbox
      → IsDistinct s.sync_events
      → (IsProjected db worker_id lease_ms event s → IsCovered event s.sync_events)
      → IsDistinct result.1.sync_events
        × ((e : Error)
            → result.0 ≡ err e
            → (result.1.sync_events ≡ s.sync_events)
              ⊎ (IsCovered event result.1.sync_events
                  × ((why : Error) × (troubles.marking ≡ some why))))
        × (result.0 ≡ ok tt
            → IsCovered event result.1.sync_events
              × ((worker' lease' : ℕ) (now' : Time) (troubles' : Troubles)
                  → troubles'.claiming ≡ none
                  → project db worker' lease' now' event troubles' result.1 ≡ (ok tt, result.1)))
  unfolding mark_processed
  project-ExactlyOnce one distinct complete = elim (ends one) [
    | seen same projected ↦ (
      subst (λ r. IsDistinct r.1.sync_events) (sym same) distinct,
      (λ e failed. inl (ap (λ r. r.1.sync_events) same)),
      (λ _. (
        subst (λ r. IsCovered event r.1.sync_events) (sym same) (complete projected),
        (λ worker' lease' now' troubles' calm.
            subst (λ r. project db worker' lease' now' event troubles' r.1 ≡ (ok tt, r.1))
              (sym same) (replayed db worker' lease' event now' troubles' s calm projected)),
      )),
    )
    | refused (e, u, same, rows) ↦ (
      subst (λ r. IsDistinct r.1.sync_events) (sym same) (subst IsDistinct (sym rows) distinct),
      (λ e' failed. inl (ap (λ r. r.1.sync_events) same ∙ rows)),
      (λ fine. absurd (ground arith)),
    )
    | unmarked t why held marking (e, u, same, rows) ↦ (
      subst (λ r. IsDistinct r.1.sync_events) (sym same)
          (subst IsDistinct (sym rows) (added-IsDistinct t distinct held)),
      (λ e' failed. inr (
        subst (λ r. IsCovered event r.1.sync_events) (sym same)
            (subst (IsCovered event) (sym rows) (insert_all-HasRow now event t)),
        (why, marking),
      )),
      (λ fine. absurd (ground arith)),
    )
    | done t held own same ↦ (
      subst (λ r. IsDistinct r.1.sync_events) (sym same) (added-IsDistinct t distinct held),
      (λ e' failed. absurd (ground arith)),
      (λ _. (
        subst (λ r. IsCovered event r.1.sync_events) (sym same) (insert_all-HasRow now event t),
        (λ worker' lease' now' troubles' calm.
            subst (λ r. project db worker' lease' now' event troubles' r.1 ≡ (ok tt, r.1))
              (sym same)
              (replayed db worker' lease' event now' troubles'
                (mark_processed db worker_id lease_ms now event (added t)) calm
                (IsProjected-marked db worker_id lease_ms event now (added t)
                  (added-IsClaimed t own)))),
      )),
    )
  ]
