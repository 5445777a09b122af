-- ===== src/Messages/Reactions/Toggling.antt =====
-- apps/im-server/src/modules/messages/services/advanced-message-command.service.ts: a reaction is there
-- once or not at all, over `addReaction` and `removeReaction`.
use slowchat.Base.{
  ℕ, ◌≡◌, ◌==◌, ◌+◌, not, length, refl, Bool, true, false, List, [], ◌∷◌, ◌++◌, arith, any, Among,
  if◌then◌else◌, Bool-cases, inl, inr,
}
use slowchat.Base.Rows.{AtMostOne, AtMostOne-append_new, any-Among}
use slowchat.Base.Action.{Result-cases, ok}
use slowchat.Base.Database.{Database}
use slowchat.Model.{Uuid, Store, AuthContext, Message, MessageReaction, Trace, OutboxEvent}
use slowchat.Sessions.{Env, validate_with_manager}
use slowchat.Outbox.Writer
use slowchat.Outbox.Writer.{outbox_row}
use slowchat.Messages.Access.{require_member_message, audience}
use slowchat.Messages.Reactions.{reaction_of, added_event, add_reaction, add_body, insert_reaction}

module _ {A : Type 0} where
  Among-last : (r : A) (xs : List A) → Among r (xs ++ r ∷ [])
  Among-last r [] = inl refl
  Among-last r (x ∷ xs) = inr (Among-last r xs)

  length-last : (r : A) (xs : List A) → length (xs ++ r ∷ []) ≡ length xs + 1
  length-last r [] = refl
  length-last r (x ∷ xs) = ground (arith, length-last r xs)

module _ (db : Database) (env : Env) (auth : AuthContext) (message_id : Uuid) (reaction : ℕ)
    (trace : Trace) (s : Store) where
  abbrev mine : MessageReaction → Bool
  mine = reaction_of message_id auth.user_id reaction

  abbrev row : MessageReaction
  row = record {
    id = env.uuid 0;
    message_id = message_id;
    user_id = auth.user_id;
    reaction = reaction;
    created_at = env.now;
  }

  -- The store after the insert.
  abbrev inserted : Store
  inserted =
      if db.exists_by mine s.reactions
      then s
      else record s { reactions = db.insert row s.reactions }

  abbrev reported : ℕ
  reported = db.identifiers (not (db.exists_by mine s.reactions))

  abbrev event : Message → MessageReaction → OutboxEvent
  event m r =
      outbox_row env.now
        (added_event env auth m reaction r (audience db m.conversation_id inserted) trace)

  -- A reaction was added, and an event is written if an identifier is reported.
  data Added (r : MessageReaction) (s' : Store) : Type 0 where
    added :
        (m : Message)
        → s'.reactions ≡ inserted.reactions
        → s'.outbox ≡ (if reported == 0 then s.outbox else db.insert (event m r) s.outbox)
        → (reported ≡ 0 → s' ≡ inserted)
        → Added r s'

  add_reaction-Added :
      (r : MessageReaction) (s' : Store)
      → add_reaction db env auth message_id reaction trace s ≡ (ok r, s')
      → Added r s'
  unfolding add_reaction add_body insert_reaction validate_with_manager Writer.append
  add_reaction-Added r s' done =
      let law = db.transaction_lem (add_body db env auth message_id reaction trace) s in
      elim (Result-cases (require_member_message db auth.user_id message_id s)) [
        | inr (e, why) ↦ absurd (ground (arith, done, law))
        | inl (m, e) ↦ elim (Bool-cases (db.exists_by mine s.reactions)) [
          | inl before ↦
              added m (ground (arith, done, law)) (ground (arith, done, law))
                (λ silent. ground (arith, done, law))
          | inr new ↦
              added m (ground (arith, done, law)) (ground (arith, done, law))
                (λ silent. ground (arith, done, law))
        ]
      ]

  -- Whoever succeeds with `addReaction` has the reaction afterwards, in one row; if it was there
  -- before, no row of the reactions changes. One event is written where the result of the insert
  -- reports an identifier, and otherwise none: for a reaction that was there before nothing
  -- changes at all only if no identifier is reported for a row that the conflict kept out.
  -- Condition: the reaction was there at most once.
  pub add_reaction-AtMostOne :
      (r : MessageReaction) (s' : Store)
      → AtMostOne mine s.reactions
      → add_reaction db env auth message_id reaction trace s ≡ (ok r, s')
      → (any mine s'.reactions ≡ true)
        × AtMostOne mine s'.reactions
        × (any mine s.reactions ≡ true → s'.reactions ≡ s.reactions)
        × (any mine s.reactions ≡ true → db.identifiers false ≡ 0 → s' ≡ s)
        × (length s'.outbox
            ≡ length s.outbox + (if db.identifiers (not (any mine s.reactions)) == 0 then 0 else 1))
  add_reaction-AtMostOne r s' one done = finish (add_reaction-Added r s' done)
    where
      there : db.exists_by mine s.reactions ≡ any mine s.reactions
      there = db.exists_by_lem mine s.reactions

      finish :
          Added r s'
          → (any mine s'.reactions ≡ true)
            × AtMostOne mine s'.reactions
            × (any mine s.reactions ≡ true → s'.reactions ≡ s.reactions)
            × (any mine s.reactions ≡ true → db.identifiers false ≡ 0 → s' ≡ s)
            × (length s'.outbox
                ≡ length s.outbox
                  + (if db.identifiers (not (any mine s.reactions)) == 0 then 0 else 1))
      finish (added m rows outbox silent) =
          let counted : length s'.outbox
              ≡ length s.outbox
                + (if db.identifiers (not (any mine s.reactions)) == 0 then 0 else 1) =
            ground (
              arith,
              outbox,
              there,
              db.insert_lem (event m r) s.outbox,
              length-last (event m r) s.outbox,
            ) in
          elim (Bool-cases (any mine s.reactions)) [
            | inl before ↦
                let same : s'.reactions ≡ s.reactions = ground (arith, rows, there) in
                (
                  rw same before,
                  rw same one,
                  (λ _. same),
                  (λ _ none_told. ground (arith, silent, there)),
                  counted,
                )
            | inr new ↦
                let grown : s'.reactions ≡ s.reactions ++ row ∷ [] =
                  ground (arith, rows, there, db.insert_lem row s.reactions) in
                (
                  rw grown (any-Among mine row _ (Among-last row s.reactions) (ground arith)),
                  rw grown (AtMostOne-append_new mine row s.reactions new),
                  (λ before. absurd (ground (arith, before, new))),
                  (λ before none_told. absurd (ground (arith, before, new))),
                  counted,
                )
          ]
