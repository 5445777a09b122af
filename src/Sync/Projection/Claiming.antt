-- ===== src/Sync/Projection/Claiming.antt =====
-- apps/im-server/src/modules/sync/services/sync-projection.service.ts: what claiming an event and marking
-- it make of the inbox.
use slowchat.Base.{
  ℕ, ◌≡◌, refl, sym, subst, ◌∙◌, Bool, true, Option, none, some, List, [], ◌∷◌, arith, first,
  upsert, Option-cases, Bool-cases, ◌⊎◌, inl, inr,
}
use slowchat.Base.Rows.{AtMostOne, find_one-first, first-update_where, AtMostOne-update_where}
use slowchat.Base.Saves.{first-upsert, AtMostOne-upsert}
use slowchat.Base.Action.{Error, Result, ok, err}
use slowchat.Base.Database.{Database}
use slowchat.Model.{Uuid, Time, DomainEvent, ConsumerInboxEvent, InboxStatus}
use slowchat.Groups.System.{unique}
use slowchat.Sync.Projection.{
  SyncStore, Claim, is_processed, inbox_of, same_inbox, lease_is_free, first_claim, reclaimed,
  claim_inbox, insert_all, insert_event, insert_body, mine, mark_processed, release,
  project_claimed, project, Troubles, fail, finish,
}

pub insert_all-inbox :
    (now : Time) (event : DomainEvent) (ids : List Uuid) (t : SyncStore)
    → (insert_all now event ids t).inbox ≡ t.inbox
unfolding insert_all insert_event
insert_all-inbox now event [] t = refl
insert_all-inbox now event (id ∷ ids) t =
    insert_all-inbox now event ids (insert_event now event id t)

module _ (db : Database) (worker_id : Uuid) (lease_ms : ℕ) (event : DomainEvent) where
  abbrev pub key : ConsumerInboxEvent → Bool
  key = inbox_of event.event_id

  -- The event was projected: its row of the inbox is processed.
  abbrev pub IsProjected : SyncStore → Type 0
  IsProjected s =
      AtMostOne key s.inbox
      × ((r : ConsumerInboxEvent) × (first key s.inbox ≡ some r) × (is_processed r.status ≡ true))

  -- The row was claimed: it is the worker's.
  abbrev pub IsClaimed : SyncStore → Type 0
  IsClaimed s =
      AtMostOne key s.inbox
      × ((r : ConsumerInboxEvent) × (first key s.inbox ≡ some r)
          × (mine db worker_id lease_ms event.event_id r ≡ true))

  abbrev stored : ConsumerInboxEvent → SyncStore → SyncStore
  stored r s = record s { inbox = upsert same_inbox r s.inbox }

  IsClaimed-stored :
      (r : ConsumerInboxEvent) (s : SyncStore)
      → AtMostOne key s.inbox
      → key r ≡ true
      → mine db worker_id lease_ms event.event_id r ≡ true
      → IsClaimed (stored r s)
  IsClaimed-stored r s one its own = (
    AtMostOne-upsert same_inbox key r s.inbox (λ x e. ground arith) (λ x e h. ground arith) one,
    (r, first-upsert same_inbox key r s.inbox (λ x. ground arith) its, own),
  )

  pub claim-cases :
      (now : Time) (s : SyncStore)
      → AtMostOne key s.inbox
      → (claim_inbox db worker_id lease_ms now event none s ≡ (ok Claim.processed, s))
          × IsProjected s
        ⊎ ((claim_inbox db worker_id lease_ms now event none s ≡ (ok Claim.busy, s))
            ⊎ ((t : SyncStore) × (claim_inbox db worker_id lease_ms now event none s
                  ≡ (ok Claim.claimed, t))
                × (t.sync_events ≡ s.sync_events)
                × IsClaimed t))
  unfolding claim_inbox
  claim-cases now s one = elim (Option-cases (db.find_one key s.inbox)) [
    | inl e ↦
        let row = first_claim db worker_id lease_ms now event in
        let saved = db.save_lem same_inbox row s.inbox in
        inr (
          inr (
            stored row s,
            ground (arith, saved),
            refl,
            IsClaimed-stored row s one (ground arith) (ground arith),
          ))
    | inr (r, e) ↦
        let its = db.find_one_some key s.inbox r e in
        let there = sym (find_one-first db key s.inbox one) ∙ e in
        elim (Bool-cases (is_processed r.status)) [
          | inl done ↦ inl (ground arith, (one, (r, there, done)))
          | inr waiting ↦ elim (Bool-cases (lease_is_free now r.locked_until)) [
            | inr busy ↦ inr (inl (ground arith))
            | inl free ↦
                let row = reclaimed db worker_id lease_ms now r in
                let saved = db.save_lem same_inbox row s.inbox in
                inr (
                  inr (
                    stored row s,
                    ground (arith, saved),
                    refl,
                    IsClaimed-stored row s one its (ground arith),
                  ))
          ]
        ]
  ]

  -- The row that was the worker's is marked.
  pub IsProjected-marked :
      (now : Time) (t : SyncStore)
      → IsClaimed t
      → IsProjected (mark_processed db worker_id lease_ms now event t)
  unfolding mark_processed
  IsProjected-marked now t (one, (r, there, own)) =
      let mark : ConsumerInboxEvent → ConsumerInboxEvent = λ r. record r {
        status = InboxStatus.processed;
        processed_at = some now;
        locked_by = none;
        locked_until = none;
      } in
      let hit = mine db worker_id lease_ms event.event_id in
      let law = db.update_lem hit mark t.inbox in
      let found = first-update_where key hit mark t.inbox (λ x. refl) in
      (
        rw law (AtMostOne-update_where key hit mark t.inbox (λ x. refl) one),
        (mark r, rw law (ground (arith, found)), refl),
      )

  -- An event that was projected is not projected again.
  pub replayed :
      (now : Time) (troubles : Troubles) (s : SyncStore)
      → troubles.claiming ≡ none
      → IsProjected s
      → project db worker_id lease_ms now event troubles s ≡ (ok tt, s)
  unfolding project claim_inbox
  replayed now troubles s calm (one, (r, there, done)) =
      let found = find_one-first db key s.inbox one ∙ there in ground (arith, calm, found)

  -- The rows of the audience are inserted.
  abbrev pub filled : Time → SyncStore → SyncStore
  filled now t = insert_all now event (unique event.audience_user_ids) t

  -- A run that failed and left the rows of the users as they were.
  abbrev pub IsFailed : Result (Unit {0}) × SyncStore → SyncStore → Type 0
  IsFailed run t =
      (e : Error) × (u : SyncStore) × (run ≡ (err e, u)) × (u.sync_events ≡ t.sync_events)

  fail-IsFailed :
      (trouble : Option Error) (e : Error) (t : SyncStore)
      → IsFailed (fail db worker_id lease_ms event trouble e t) t
  unfolding release
  fail-IsFailed none e t = (e, release db worker_id lease_ms event t, refl, refl)
  fail-IsFailed (some e') e t = (e', t, refl, refl)

  finish-cases :
      (now : Time) (troubles : Troubles) (trouble : Option Error) (t : SyncStore)
      → (finish db worker_id lease_ms now event troubles trouble t
          ≡ (ok tt, mark_processed db worker_id lease_ms now event t))
        ⊎ ((e : Error) × (trouble ≡ some e)
            × IsFailed (finish db worker_id lease_ms now event troubles trouble t) t)
  finish-cases now troubles none t = inl refl
  finish-cases now troubles (some e) t = inr (e, refl, fail-IsFailed troubles.releasing e t)

  -- A claimed event is projected and marked; or its rows are there and the update to PROCESSED
  -- failed; or the transaction failed.
  pub claimed-run :
      (now : Time) (troubles : Troubles) (t : SyncStore)
      → (project_claimed db worker_id lease_ms now event troubles t
          ≡ (ok tt, mark_processed db worker_id lease_ms now event (filled now t)))
        ⊎ (((e : Error) × (troubles.marking ≡ some e)
              × IsFailed
                  (project_claimed db worker_id lease_ms now event troubles t)
                  (filled now t))
            ⊎ IsFailed (project_claimed db worker_id lease_ms now event troubles t) t)
  unfolding project_claimed insert_body
  claimed-run now troubles t =
      let law =
        db.transaction_lem (insert_body db worker_id lease_ms now event troubles.inserting) t in
      elim (Option-cases troubles.inserting) [
        | inl calm ↦
            let run : project_claimed db worker_id lease_ms now event troubles t
                ≡ finish db worker_id lease_ms now event troubles troubles.marking (filled now t) =
              ground (arith, law, calm) in
            elim (finish-cases now troubles troubles.marking (filled now t)) [
              | inl done ↦ inl (run ∙ done)
              | inr (e, why, failed) ↦
                  inr (inl (e, why, subst (λ r. IsFailed r (filled now t)) (sym run) failed))
            ]
        | inr (e, why) ↦
            let run : project_claimed db worker_id lease_ms now event troubles t
                ≡ fail db worker_id lease_ms event troubles.releasing e t =
              ground (arith, law, why) in
            inr (inr (subst (λ r. IsFailed r t) (sym run) (fail-IsFailed troubles.releasing e t)))
      ]
