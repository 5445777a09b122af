-- ===== src/Messages/Reactions.antt =====
-- apps/im-server/src/modules/messages/services/advanced-message-command.service.ts: `addReaction` and
-- `removeReaction`. Reactions are compared only, so a number stands for each.
pub mod Toggling
use slowchat.Base.{ℕ, Bool, true, false, not, ◌&&◌, ◌==◌, if◌then◌else◌, Option, none, some, List}
use slowchat.Base.Action.{
  Action, ok, err, failure, reaction_not_found, pure, modify, gets, throw_if, checked, ◌>>=◌, ◌>>◌,
}
use slowchat.Base.Database.{Database}
use slowchat.Model.{
  Uuid, Store, AuthContext, Message, MessageReaction, Trace, DomainEvent, EventType, EventData,
  ReactionAction,
}
use slowchat.Sessions.{Env, validate_with_manager}
use slowchat.Outbox.Writer
use slowchat.Messages.Access.{require_member_message, audience, message_event}

-- { messageId, userId, reaction }, which the table keeps unique
abbrev pub reaction_of : Uuid → Uuid → ℕ → MessageReaction → Bool
reaction_of message_id user_id reaction r =
    r.message_id == message_id && r.user_id == user_id && r.reaction == reaction

abbrev pub added_event :
    Env → AuthContext → Message → ℕ → MessageReaction → List Uuid → Trace → DomainEvent
added_event env auth message reaction row listeners trace =
    let event =
      message_event (env.uuid 1) env auth EventType.message_reaction_updated message.id listeners
        trace
        (EventData.reaction_data message.id message.conversation_id auth.user_id reaction
          ReactionAction.added) in
    record event { occurred_at = row.created_at }

module _ (db : Database) where
  open db use {find_one, exists_by, insert, identifiers, delete, transaction}

  -- INSERT … ON CONFLICT DO NOTHING, and identifiers.length
  unfoldable pub insert_reaction : Env → Uuid → Uuid → ℕ → Action Store ℕ
  insert_reaction env message_id user_id reaction s =
      if exists_by (reaction_of message_id user_id reaction) s.reactions
      then (ok (identifiers false), s)
      else (
        ok (identifiers true),
        record s {
          reactions =
              insert
                (record {
                  id = env.uuid 0;
                  message_id = message_id;
                  user_id = user_id;
                  reaction = reaction;
                  created_at = env.now;
                })
                s.reactions;
        },
      )

  -- findOneByOrFail
  abbrev or_fail : Option MessageReaction → Action Store MessageReaction
  or_fail none s = (err failure, s)
  or_fail (some r) s = (ok r, s)

  unfoldable pub add_body : Env → AuthContext → Uuid → ℕ → Trace → Action Store MessageReaction
  add_body env auth message_id reaction trace = do
    validate_with_manager db env.now auth
    message ← checked (require_member_message db auth.user_id message_id)
    inserted ← insert_reaction env message_id auth.user_id reaction
    found ← gets (λ s. find_one (reaction_of message_id auth.user_id reaction) s.reactions)
    row ← or_fail found
    listeners ← gets (audience db message.conversation_id)
    (if inserted == 0
        then pure tt
        else Writer.append db env.now (added_event env auth message reaction row listeners trace))
    pure row

  unfoldable pub add_reaction : Env → AuthContext → Uuid → ℕ → Trace → Action Store MessageReaction
  unfolding add_body
  add_reaction env auth message_id reaction trace =
      transaction (add_body env auth message_id reaction trace)

  unfoldable pub remove_body : Env → AuthContext → Uuid → ℕ → Trace → Action Store Unit
  remove_body env auth message_id reaction trace = do
    validate_with_manager db env.now auth
    message ← checked (require_member_message db auth.user_id message_id)
    affected ← gets (λ s. exists_by (reaction_of message_id auth.user_id reaction) s.reactions)
    modify (λ s. record s {
      reactions = delete (reaction_of message_id auth.user_id reaction) s.reactions;
    })
    throw_if (not affected) reaction_not_found 404
    listeners ← gets (audience db message.conversation_id)
    Writer.append db env.now (
        message_event (env.uuid 0) env auth EventType.message_reaction_updated message.id listeners
          trace
          (EventData.reaction_data message.id message.conversation_id auth.user_id reaction
            ReactionAction.removed))

  unfoldable pub remove_reaction : Env → AuthContext → Uuid → ℕ → Trace → Action Store Unit
  unfolding remove_body
  remove_reaction env auth message_id reaction trace =
      transaction (remove_body env auth message_id reaction trace)
