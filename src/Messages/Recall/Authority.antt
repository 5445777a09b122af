-- ===== src/Messages/Recall/Authority.antt =====
-- apps/im-server/src/modules/messages/services/advanced-message-command.service.ts: who succeeds with
-- `recall`, and how often.
use slowchat.Base.{
  ℕ, ◌-◌, ◌*◌, ◌≡◌, Bool, true, none, some, arith, inl, inr, ◌==◌, leb, Option-cases, if◌then◌else◌,
  ◌∙◌,
}
use slowchat.Base.Rows.{AtMostOne, find_one-first}
use slowchat.Base.Saves.{AtMostOne-upsert, first-upsert}
use slowchat.Base.Action.{ok}
use slowchat.Base.Database.{Database}
use slowchat.Model.{
  Uuid, Time, Store, AuthContext, Message, MessageView, ConversationMember, Trace, same_message,
}
use slowchat.Sessions.{Env, validate_with_manager}
use slowchat.Views.{to_message}
use slowchat.Outbox.Writer
use slowchat.Messages.Access.{member_in}
use slowchat.Messages.Recall.{recalled, recall, recall_body}
use slowchat.Messages.Recall.Guard.{recall_check, is_moderator}

-- A member may recall a message: the own one while it is young, another's as owner or admin.
abbrev pub may_recall : ℕ → Time → Uuid → ConversationMember → Message → Bool
may_recall window now user_id member m =
    if m.sender_id == user_id then leb (now - m.created_at) (window * 1000) else is_moderator member

module _ (db : Database) (window : ℕ) (env : Env) (auth : AuthContext) (message_id : Uuid)
    (trace : Trace) where
  -- What a successful recall read and wrote.
  pub record Recalled (s s' : Store) (view : MessageView) : Type 0 where
    pub message : Message
    pub member : ConversationMember
    pub message_found : db.find_one (λ m. m.id == message_id) s.messages ≡ some message
    pub member_found : member_in db auth.user_id message.conversation_id s ≡ some member
    pub was_there : message.recalled_at ≡ none
    pub permitted : may_recall window env.now auth.user_id member message ≡ true
    pub messages_after :
        s'.messages ≡ db.save same_message (recalled db window env auth message) s.messages
    pub answered : view ≡ to_message (recalled db window env auth message)

  -- A recall succeeds only for an active member of the message's conversation, on a message that
  -- is not recalled yet: its sender while the window lasts, or, for a message of another, an owner
  -- or admin. The message is then marked with the caller and the time, and answered so.
  pub recall-Recalled :
      (s s' : Store) (view : MessageView)
      → recall db window env auth message_id trace s ≡ (ok view, s')
      → Recalled s s' view
  unfolding recall recall_body recall_check validate_with_manager Writer.append
  recall-Recalled s s' view h =
      let law = db.transaction_lem (recall_body db window env auth message_id trace) s in
      elim (Option-cases (db.find_one (λ m. m.id == message_id) s.messages)) [
        | inl e ↦ absurd (ground (arith, law))
        | inr (m, e) ↦ elim (Option-cases (member_in db auth.user_id m.conversation_id s)) [
          | inl e' ↦ absurd (ground (arith, law))
          | inr (member, e') ↦ record {
            message = m;
            member = member;
            message_found = e;
            member_found = e';
            was_there = ground (arith, law);
            permitted = ground (arith, law);
            messages_after = ground (arith, law);
            answered = ground (arith, law);
          }
        ]
      ]

  -- After a recall, with message ids unique, the message that is found is the recalled one.
  found_again :
      (s s' : Store) (view : MessageView) (r : Recalled s s' view)
      → AtMostOne (λ m. m.id == message_id) s.messages
      → db.find_one (λ m. m.id == message_id) s'.messages
        ≡ some (recalled db window env auth r.message)
  found_again s s' view r one =
      let key = db.find_one_some (λ m. m.id == message_id) s.messages r.message r.message_found in
      let saved =
        r.messages_after
        ∙ db.save_lem same_message (recalled db window env auth r.message) s.messages in
      rw saved (
        find_one-first db (λ m. m.id == message_id) _
          (AtMostOne-upsert same_message (λ m. m.id == message_id)
            (recalled db window env auth r.message) s.messages (λ x e. ground (arith, key))
            (λ x e k. ground (arith, key)) one)
        ∙ first-upsert same_message (λ m. m.id == message_id)
            (recalled db window env auth r.message) s.messages (λ x. ground (arith, key)) key)

module _ (db : Database) (window : ℕ) (message_id : Uuid) where
  -- A message is recalled once: after a successful recall, with message ids unique, no recall of
  -- the same message succeeds, whoever asks and whenever.
  pub recall-once :
      (env env' : Env) (auth auth' : AuthContext) (trace trace' : Trace) (s s' s'' : Store)
      (view view' : MessageView)
      → AtMostOne (λ m. m.id == message_id) s.messages
      → recall db window env auth message_id trace s ≡ (ok view, s')
      → ¬ (recall db window env' auth' message_id trace' s' ≡ (ok view', s''))
  recall-once env env' auth auth' trace trace' s s' s'' view view' one done again =
      let r = recall-Recalled db window env auth message_id trace s s' view done in
      let r' = recall-Recalled db window env' auth' message_id trace' s' s'' view' again in
      ground (
        arith,
        r'.was_there,
        r'.message_found,
        found_again db window env auth message_id trace s s' view r one,
      )
