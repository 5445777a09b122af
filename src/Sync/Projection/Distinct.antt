-- ===== src/Sync/Projection/Distinct.antt =====
-- apps/im-server/src/modules/sync/services/sync-projection.service.ts: what the inserts of a projection
-- make of user_sync_events.
use slowchat.Base.{
  ◌≡◌, sym, subst, Bool, true, ◌==◌, List, [], ◌∷◌, ◌++◌, arith, All, any, reject, if◌then◌else◌,
  Bool-cases, inl, inr, eq_of_==,
}
use slowchat.Base.Rows.{AtMostOne, AtMostOne-append}
use slowchat.Model.{Uuid, Time, DomainEvent, UserSyncEvent}
use slowchat.Groups.System.{unique}
use slowchat.Sync.Projection.{SyncStore, row_of, projected, insert_event, insert_all}

-- No user has an event twice.
abbrev pub IsDistinct : List UserSyncEvent → Type 0
IsDistinct rows = (user_id event_id : Uuid) → AtMostOne (row_of user_id event_id) rows

any-append_some :
    {A : Type 0} (p : A → Bool) (xs ys : List A) → any p xs ≡ true → any p (xs ++ ys) ≡ true
any-append_some p [] ys h = absurd (ground arith)
any-append_some p (x ∷ xs) ys h = ground (arith, any-append_some p xs ys)

any-append_last :
    {A : Type 0} (p : A → Bool) (r : A) (xs : List A) → p r ≡ true → any p (xs ++ r ∷ []) ≡ true
any-append_last p r [] h = ground arith
any-append_last p r (x ∷ xs) h = ground (arith, any-append_last p r xs h)

module _ (now : Time) (event : DomainEvent) where
  IsDistinct-insert_event :
      (user_id : Uuid) (s : SyncStore)
      → IsDistinct s.sync_events
      → IsDistinct (insert_event now event user_id s).sync_events
  unfolding insert_event
  IsDistinct-insert_event user_id s distinct u e =
      elim (Bool-cases (any (row_of user_id event.event_id) s.sync_events)) [
        | inl there ↦ rw there (distinct u e)
        | inr new ↦
            let row = projected now event user_id s.next_id in
            rw new (
              AtMostOne-append (row_of u e) row s.sync_events (λ same. ground arith) (distinct u e))
      ]

  pub IsDistinct-insert_all :
      (ids : List Uuid) (s : SyncStore)
      → IsDistinct s.sync_events
      → IsDistinct (insert_all now event ids s).sync_events
  unfolding insert_all
  IsDistinct-insert_all [] s distinct = distinct
  IsDistinct-insert_all (id ∷ ids) s distinct =
      IsDistinct-insert_all ids (insert_event now event id s)
        (IsDistinct-insert_event id s distinct)

  abbrev pub HasRow : SyncStore → Uuid → Type 0
  HasRow s user_id = any (row_of user_id event.event_id) s.sync_events ≡ true

  insert_event-keeps :
      (user_id other : Uuid) (s : SyncStore)
      → HasRow s other
      → HasRow (insert_event now event user_id s) other
  unfolding insert_event
  insert_event-keeps user_id other s h =
      elim (Bool-cases (any (row_of user_id event.event_id) s.sync_events)) [
        | inl there ↦ rw there h
        | inr new ↦ rw new (
            any-append_some (row_of other event.event_id) s.sync_events
              (projected now event user_id s.next_id ∷ []) h)
      ]

  insert_event-inserts :
      (user_id : Uuid) (s : SyncStore) → HasRow (insert_event now event user_id s) user_id
  unfolding insert_event
  insert_event-inserts user_id s =
      elim (Bool-cases (any (row_of user_id event.event_id) s.sync_events)) [
        | inl there ↦ rw there there
        | inr new ↦ rw new (
            any-append_last (row_of user_id event.event_id) (projected now event user_id s.next_id)
              s.sync_events (ground arith))
      ]

  insert_all-keeps :
      (ids : List Uuid) (other : Uuid) (s : SyncStore)
      → HasRow s other
      → HasRow (insert_all now event ids s) other
  unfolding insert_all
  insert_all-keeps [] other s h = h
  insert_all-keeps (id ∷ ids) other s h =
      insert_all-keeps ids other (insert_event now event id s) (insert_event-keeps id other s h)

  insert_all-covers :
      (ids : List Uuid) (s : SyncStore) → All (HasRow (insert_all now event ids s)) ids
  unfolding insert_all
  insert_all-covers [] s = tt
  insert_all-covers (id ∷ ids) s = (
    insert_all-keeps ids id (insert_event now event id s) (insert_event-inserts id s),
    insert_all-covers ids (insert_event now event id s),
  )

All-unreject :
    (P : Uuid → Type 0) (id : Uuid) (ids : List Uuid)
    → P id
    → All P (reject (λ other. other == id) ids)
    → All P ids
All-unreject P id [] h all = tt
All-unreject P id (x ∷ xs) h all =
    let rest = reject (λ other. other == id) xs in
    let Kept : Bool → Type 0 = λ b. All P (if b then rest else x ∷ rest) in
    elim (Bool-cases (x == id)) [
      | inl e ↦ (subst P (sym (eq_of_== x id e)) h, All-unreject P id xs h (subst Kept e all))
      | inr e ↦ let kept = subst Kept e all in (kept.0, All-unreject P id xs h kept.1)
    ]

-- What holds of the distinct ids holds of all.
All-unique : (P : Uuid → Type 0) (ids : List Uuid) → All P (unique ids) → All P ids
All-unique P [] all = tt
All-unique P (id ∷ ids) (here, rest) =
    (here, All-unique P ids (All-unreject P id (unique ids) here rest))

pub insert_all-HasRow :
    (now : Time) (event : DomainEvent) (s : SyncStore)
    → All
        (HasRow now event (insert_all now event (unique event.audience_user_ids) s))
        event.audience_user_ids
insert_all-HasRow now event s =
    All-unique (HasRow now event (insert_all now event (unique event.audience_user_ids) s))
      event.audience_user_ids (insert_all-covers now event (unique event.audience_user_ids) s)
