-- ===== src/Groups/System/Sequence.antt =====
-- apps/im-server/src/modules/groups/services/group-system-message.service.ts: the sequence numbers of
-- a conversation, over `append`.
use slowchat.Base.{
  ℕ, ◌≡◌, refl, ap, ◌∙◌, false, Option, some, List, arith, any, ◌==◌, update_where, inl, inr,
  Option-cases, All,
}
use slowchat.Base.Rows.{upsert-new, AtMostOne-update_where, All-update_where, All-map}
use slowchat.Base.Action.{Result, Result-cases, Error, ok, err}
use slowchat.Base.Database.{Database}
use slowchat.Model.{
  Uuid, Digest, Store, AuthContext, Conversation, Message, SystemKind, Payload, active_conversation,
  same_message,
}
use slowchat.Sessions.{Env}
use slowchat.Outbox.Writer
use slowchat.Messages.Numbering.{IsSequenced, IsWithin, CountsUp, numbered-IsSequenced}
use slowchat.Messages.Send.Parts.{insert_message, point_at_last}
use slowchat.Groups.System.{append, allocate_system_seq, next_system_seq, system_message}

module _ (db : Database) (payload_hash : Payload → Digest) (env : Env) (auth : AuthContext)
    (conversation_id : Uuid) (kind : SystemKind) (target : Option Uuid) (audience : List Uuid)
    (base : ℕ) (s : Store) where
  abbrev appended : Result Message × Store
  appended = append db payload_hash env auth conversation_id kind target audience base s

  abbrev pointed : Message → Conversation → Conversation
  pointed m c = record c { last_message_id = some m.id; last_message_at = some m.created_at }

  abbrev numbered : List Conversation
  numbered =
      db.update (active_conversation conversation_id) (next_system_seq env.now) s.conversations

  -- `append` counts the conversation up and fails, or it inserts a message with the new number.
  pub data Outcome : Type 0 where
    failed :
        (e : Error)
        → appended.0 ≡ err e
        → appended.1.conversations ≡ numbered
        → appended.1.messages ≡ s.messages
        → Outcome
    inserted :
        (row : Conversation) (m : Message)
        → appended.0 ≡ ok m
        → db.find_one (active_conversation conversation_id) numbered ≡ some row
        → m.id ≡ env.uuid base
        → m.seq ≡ row.last_seq
        → m.conversation_id ≡ conversation_id
        → appended.1.conversations ≡ db.update (λ c. c.id == conversation_id) (pointed m) numbered
        → appended.1.messages ≡ db.save same_message m s.messages
        → Outcome

  pub append-Outcome : Outcome
  unfolding append system_message allocate_system_seq insert_message point_at_last Writer.append
  append-Outcome = elim (Result-cases appended.0) [
    | inr (e, why) ↦ failed e why (ground arith) (ground arith)
    | inl (m, done) ↦
        elim (Option-cases (db.find_one (active_conversation conversation_id) numbered)) [
          | inl e ↦ absurd (ground arith)
          | inr (row, e) ↦
              inserted row m done e (ground arith) (ground arith) (ground arith) (ground arith)
                (ground arith)
        ]
  ]

  counted_up : CountsUp (next_system_seq env.now)
  counted_up c = (refl, refl, refl)

  -- A number that no message takes leaves the conversation sequenced.
  uninserted-IsSequenced :
      IsSequenced s
      → appended.1.conversations ≡ numbered
      → appended.1.messages ≡ s.messages
      → IsSequenced appended.1
  uninserted-IsSequenced h conversations messages =
      let rows =
        conversations
        ∙ db.update_lem (active_conversation conversation_id) (next_system_seq env.now)
            s.conversations in
      record {
        keyed = λ id. rw rows (
            AtMostOne-update_where (λ c. c.id == id) _ (next_system_seq env.now) _ (λ c. refl)
              (h.keyed id));
        within =
            rw (messages, rows)
              (All-map (λ x. All (IsWithin x) s.conversations) (λ x. All (IsWithin x) _) s.messages
                (λ x w.
                  All-update_where (IsWithin x) (IsWithin x) _ (next_system_seq env.now)
                    s.conversations (λ c v _ e. omega (arith, v e)) (λ c v _. v) w)
                h.within);
        distinct = rw messages h.distinct;
      }

  -- A change of a group that sends a system message keeps conversations sequenced, whether it
  -- inserts the message or fails after it took a number. Condition: the message's UUID is fresh.
  pub append-IsSequenced :
      IsSequenced s → any (λ m. env.uuid base == m.id) s.messages ≡ false → IsSequenced appended.1
  append-IsSequenced h fresh = finish append-Outcome
    where
      finish : Outcome → IsSequenced appended.1
      finish (failed _ _ conversations messages) = uninserted-IsSequenced h conversations messages
      finish (inserted row m _ found same_id seq here conversations messages) =
          numbered-IsSequenced db conversation_id (next_system_seq env.now) (pointed m) counted_up
            (λ c. (refl, refl)) s appended.1 m row found seq here
            (conversations
              ∙ db.update_lem (λ c. c.id == conversation_id) (pointed m) _
              ∙ ap (update_where (λ c. c.id == conversation_id) (pointed m)) (
                  db.update_lem (active_conversation conversation_id) (next_system_seq env.now)
                    s.conversations))
            (messages
              ∙ db.save_lem same_message m s.messages
              ∙ upsert-new same_message m s.messages (rw same_id fresh))
            h
