-- ===== src/Outbox/Relay/Run.antt =====
-- apps/im-server/src/modules/outbox/services/outbox-relay.service.ts: what a run of the relay makes of
-- the outbox.
use slowchat.Base.{
  ℕ, ◌≡◌, ◌≤◌, ◌+◌, refl, sym, ap, subst, ◌∙◌, Bool, true, false, ◌==◌, Option, none, some, List,
  [], ◌∷◌, arith, All, Among, any, map, select, count_where, update_where, if◌then◌else◌,
  Bool-cases, inl, inr,
}
use Prim.Native.String.{String}
use slowchat.Base.Rows.{AtMostOne, All-only, All-Among, All-update_where}
use slowchat.Base.Search.{Among-select}
use slowchat.Base.Database.{Database}
use slowchat.Model.{Uuid, Time, OutboxEvent}
use slowchat.Outbox.Relay.{
  RelayConfig, is_claimable, locked_event, is_held_by, held, settled_event, failed_event,
  publish_each, run_once,
}
use slowchat.Outbox.Relay.Claim.{update-map, All-select_map, Among-map, All-of, claim_rows-all}

module _ (config : RelayConfig) (db : Database) (worker_id : Uuid) (now : Time)
    (random : Uuid → ℕ × ℕ) (broker : OutboxEvent → Option String) where
  abbrev settled : OutboxEvent → OutboxEvent → OutboxEvent
  settled event e = settled_event config now (random event.event_id) (broker event) event e

  abbrev settle_one : OutboxEvent → OutboxEvent → OutboxEvent
  settle_one event e = if held worker_id event e then settled event e else e

  unfoldable settle_each : List OutboxEvent → OutboxEvent → OutboxEvent
  settle_each [] e = e
  settle_each (event ∷ events) e = settle_each events (settle_one event e)

  map-map :
      (p : OutboxEvent → Bool) (f g : OutboxEvent → OutboxEvent) (rows : List OutboxEvent)
      → map g (update_where p f rows) ≡ map (λ e. g (if p e then f e else e)) rows
  map-map p f g [] = refl
  map-map p f g (e ∷ es) = ground (arith, map-map p f g es)

  publish_each-rows :
      (events rows : List OutboxEvent)
      → publish_each config db worker_id now random broker events rows
        ≡ map (settle_each events) rows
  unfolding publish_each settle_each
  publish_each-rows [] rows = sym (all_same rows)
    where
      all_same : (es : List OutboxEvent) → map (settle_each []) es ≡ es
      all_same [] = refl
      all_same (e ∷ es) = ap (λ rest. e ∷ rest) (all_same es)
  publish_each-rows (event ∷ events) rows =
      ap (publish_each config db worker_id now random broker events)
        (db.update_lem (held worker_id event) (settled event) rows)
      ∙ publish_each-rows events (update_where (held worker_id event) (settled event) rows)
      ∙ map-map (held worker_id event) (settled event) (settle_each events) rows

  -- A row that the worker does not hold stays.
  settle_each-free :
      (events : List OutboxEvent) (e : OutboxEvent)
      → is_held_by worker_id e.locked_by ≡ false
      → settle_each events e ≡ e
  unfolding settle_each
  settle_each-free [] e free = refl
  settle_each-free (event ∷ events) e free = ground (arith, settle_each-free events e free)

  settled-free : (event e : OutboxEvent) → (settled event e).locked_by ≡ none
  unfolding failed_event
  settled-free event e = finish (broker event)
    where
      finish :
          (answer : Option String)
          → (settled_event config now (random event.event_id) answer event e).locked_by ≡ none
      finish none = refl
      finish (some reason) = refl

  -- A row that was claimed is settled once, by its own event.
  settle_each-own :
      (events : List OutboxEvent) (y : OutboxEvent)
      → is_held_by worker_id y.locked_by ≡ true
      → All (λ event. y.event_id == event.event_id ≡ true → event ≡ y) events
      → Among y events
      → settle_each events y ≡ settled y y
  unfolding settle_each
  settle_each-own [] y mine only among = absurd among
  settle_each-own (event ∷ events) y mine (here, rest) among =
      elim (Bool-cases (y.event_id == event.event_id)) [
        | inl e ↦
            let same : event ≡ y = here e in
            let free = settle_each-free events (settled y y) in
            let gone = settled-free y y in
            subst (λ v. settle_each events (settle_one v y) ≡ settled y y) (sym same)
              (ground (arith, free (ground (arith, gone))))
        | inr e ↦
            let skipped : settle_one event y ≡ y = ground arith in
            subst (λ v. settle_each events v ≡ settled y y) (sym skipped)
              (settle_each-own events y mine rest (later among e))
      ]
    where
      later : Among y (event ∷ events) → (y.event_id == event.event_id) ≡ false → Among y events
      later (inl same) e = absurd (ground (arith, same))
      later (inr there) e = there

  abbrev locked : OutboxEvent → OutboxEvent
  locked e = locked_event worker_id (now + config.outbox_lock_ms) e

  -- What a run makes of a row that can be claimed.
  abbrev pub outcome : OutboxEvent → OutboxEvent
  outcome e = settled (locked e) (locked e)

  module _ (rows : List OutboxEvent)
      (unique : (id : Uuid) → AtMostOne (λ (e : OutboxEvent). e.event_id == id) rows)
      (free : All (λ (e : OutboxEvent). is_held_by worker_id e.locked_by ≡ false) rows)
      (enough : count_where (is_claimable now) rows ≤ config.outbox_batch_size) where
    abbrev events : List OutboxEvent
    events = map locked (select (is_claimable now) rows)

    each :
        (e : OutboxEvent)
        → Among e rows
        → (is_claimable now e ≡ true → settle_each events (locked e) ≡ outcome e)
          × (is_claimable now e ≡ false → settle_each events e ≡ e)
    each e among =
        let only =
          All-only (λ (x : OutboxEvent). x.event_id == e.event_id) e rows (unique e.event_id) among
            (ground arith) in
        (
          (λ c.
              settle_each-own events (locked e) (ground arith)
                (All-select_map (λ x. x.event_id == e.event_id ≡ true → x ≡ e)
                  (λ x. e.event_id == x.event_id ≡ true → x ≡ locked e) (is_claimable now) locked
                  rows (λ x h same. ap locked (h (ground arith))) only)
                (Among-map locked e (select (is_claimable now) rows)
                  (Among-select (is_claimable now) e rows among c))),
          (λ c. settle_each-free events e (
              All-Among (λ (x : OutboxEvent). is_held_by worker_id x.locked_by ≡ false) e rows free
                among)),
        )

    run :
        run_once config db worker_id now random broker true rows
        ≡ update_where (is_claimable now) outcome rows
    unfolding run_once
    run =
        let claimed =
          claim_rows-all worker_id now (now + config.outbox_lock_ms) config.outbox_batch_size rows
            enough in
        ap (λ c. publish_each config db worker_id now random broker c.1 c.0) claimed
        ∙ publish_each-rows events (update_where (is_claimable now) locked rows)
        ∙ update-map (is_claimable now) locked (settle_each events) outcome rows (
            All-of
              (λ e.
                (is_claimable now e ≡ true → settle_each events (locked e) ≡ outcome e)
                × (is_claimable now e ≡ false → settle_each events e ≡ e))
              rows each)

    -- In a run of the relay with a broker that is ready, each row that could be claimed, and no other,
    -- is settled once by the broker's answer for it: published if the broker confirmed it, or
    -- else tried again later or failed, with one more attempt counted. If the broker confirms all,
    -- nothing is left to claim; and the worker holds no lease afterwards. Conditions: events are told
    -- apart by their ids, the worker holds no lease before, and the batch is large enough.
    pub run_once-Settles :
        (run_once config db worker_id now random broker true rows
          ≡ update_where (is_claimable now) outcome rows)
        × (((e : OutboxEvent) → broker e ≡ none)
            → any (is_claimable now) (run_once config db worker_id now random broker true rows)
              ≡ false)
        × All
            (λ (e : OutboxEvent). is_held_by worker_id e.locked_by ≡ false)
            (run_once config db worker_id now random broker true rows)
    run_once-Settles = (
      run,
      (λ confirms. rw run (nothing confirms rows)),
      rw run (
          All-update_where (λ (e : OutboxEvent). is_held_by worker_id e.locked_by ≡ false)
            (λ e. is_held_by worker_id e.locked_by ≡ false) (is_claimable now) outcome rows
            (λ e h c. ground (arith, settled-free (locked e) (locked e))) (λ e h c. h) free),
    )
      where
        nothing :
            ((e : OutboxEvent) → broker e ≡ none)
            → (es : List OutboxEvent)
            → any (is_claimable now) (update_where (is_claimable now) outcome es) ≡ false
        nothing confirms [] = refl
        nothing confirms (e ∷ es) = ground (arith, confirms (locked e), nothing confirms es)
