-- ===== src/Messages/Numbering.antt =====
-- The sequence numbers of a conversation, as `sendText` of
-- apps/im-server/src/modules/messages/services/message-command.service.ts and `append` of
-- apps/im-server/src/modules/groups/services/group-system-message.service.ts both give them:
-- UPDATE … RETURNING last_seq, a message with that number, and a pointer to it.
use slowchat.Base.{
  ℕ, ◌+◌, ◌≤◌, ◌≡◌, refl, sym, ◌∙◌, Bool, true, false, ◌&&◌, some, List, [], ◌∷◌, ◌++◌, arith,
  Option-cases, any, All, ◌==◌, inl, inr, update_where,
}
use slowchat.Base.Rows.{
  AtMostOne, AtMostOne-narrower, AtMostOne-append, AtMostOne-update_where, first-update_where,
  find_one-first, All-append, All-map, All-update_where, any_of_All, All-Among, All-only,
}
use slowchat.Base.Database.{Database}
use slowchat.Model.{Uuid, Store, Conversation, Message, active_conversation}

-- { conversation_id, seq }, which the table keeps unique
abbrev pub at_seq : Uuid → ℕ → Message → Bool
at_seq conversation_id seq m = m.conversation_id == conversation_id && m.seq == seq

-- The sequence number of a message is within its conversation's.
abbrev pub IsWithin : Message → Conversation → Type 0
IsWithin m c = c.id ≡ m.conversation_id → m.seq ≤ c.last_seq

-- Conversations are told apart by their ids, messages of one conversation by their sequence
-- numbers, and no message is past the last number of its conversation.
pub record IsSequenced (s : Store) : Type 0 where
  pub keyed : (id : Uuid) → AtMostOne (λ (c : Conversation). c.id == id) s.conversations
  pub within : All (λ m. All (IsWithin m) s.conversations) s.messages
  pub distinct : (id : Uuid) (seq : ℕ) → AtMostOne (at_seq id seq) s.messages

-- The SET columns of a statement that counts up.
abbrev pub CountsUp : (Conversation → Conversation) → Type 0
CountsUp next =
    (c : Conversation)
    → ((next c).id ≡ c.id) × ((next c).status ≡ c.status) × ((next c).last_seq ≡ c.last_seq + 1)

-- The SET columns of a statement that leaves the number.
abbrev pub KeepsSeq : (Conversation → Conversation) → Type 0
KeepsSeq point = (c : Conversation) → ((point c).id ≡ c.id) × ((point c).last_seq ≡ c.last_seq)

module _ (db : Database) (id : Uuid) (next : Conversation → Conversation) (up : CountsUp next)
    (rows : List Conversation) (row : Conversation)
    (one : AtMostOne (λ (c : Conversation). c.id == id) rows)
    (found : db.find_one (active_conversation id) (db.update (active_conversation id) next rows)
      ≡ some row) where
  still_active : (c : Conversation) → active_conversation id (next c) ≡ active_conversation id c
  still_active c = rw ((up c).0, (up c).1) refl

  -- With one row for each id, the statement's RETURNING row is the row that was there, counted up.
  pub returned_row :
      (c : Conversation) × (db.find_one (active_conversation id) rows ≡ some c) × (row ≡ next c)
  returned_row =
      let active =
        AtMostOne-narrower (λ (c : Conversation). c.id == id) (active_conversation id) rows
          (λ c e. ground arith) one in
      let law = db.update_lem (active_conversation id) next rows in
      let moved =
        first-update_where (active_conversation id) (active_conversation id) next rows
          still_active in
      let before = find_one-first db (active_conversation id) rows active in
      let after =
        find_one-first db (active_conversation id) (update_where (active_conversation id) next rows)
          (AtMostOne-update_where (active_conversation id) (active_conversation id) next rows
            still_active active) in
      elim (Option-cases (db.find_one (active_conversation id) rows)) [
        | inl e ↦ ground (arith, law, after, moved, before)
        | inr (c, e) ↦ (
          c,
          e,
          ground (
            arith,
            db.find_one_some (active_conversation id) rows c e,
            law,
            after,
            moved,
            before,
          ),
        )
      ]

-- A message is numbered, added and pointed at.
module _ (db : Database) (id : Uuid) (next point : Conversation → Conversation) (up : CountsUp next)
    (keep : KeepsSeq point) (before after : Store) (m : Message) (row : Conversation)
    (found : db.find_one
        (active_conversation id)
        (db.update (active_conversation id) next before.conversations)
      ≡ some row)
    (seq_of_row : m.seq ≡ row.last_seq) (of_conversation : m.conversation_id ≡ id)
    (rows_after : after.conversations
      ≡ update_where
          (λ c. c.id == id)
          point
          (update_where (active_conversation id) next before.conversations))
    (messages_after : after.messages ≡ before.messages ++ m ∷ [])
    (ordered : IsSequenced before) where
  numbered_row :
      (c : Conversation) × (db.find_one (active_conversation id) before.conversations ≡ some c)
      × (row ≡ next c)
  numbered_row = returned_row db id next up before.conversations row (ordered.keyed id) found

  keyed_after : (k : Uuid) → AtMostOne (λ (c : Conversation). c.id == k) after.conversations
  keyed_after k = rw rows_after (
      AtMostOne-update_where (λ c. c.id == k) _ point _ (λ c. rw ((keep c).0) refl)
        (AtMostOne-update_where (λ c. c.id == k) _ next _ (λ c. rw ((up c).0) refl)
          (ordered.keyed k)))

  -- A message stays within: the numbers of conversations only grow.
  pointed-IsWithin : (x : Message) (c : Conversation) → IsWithin x c → IsWithin x (point c)
  pointed-IsWithin x c w = rw ((keep c).0, (keep c).1) w

  IsWithin-old :
      (x : Message) → All (IsWithin x) before.conversations → All (IsWithin x) after.conversations
  IsWithin-old x h = rw rows_after (
      All-update_where (IsWithin x) (IsWithin x) _ point _ (λ c w _. pointed-IsWithin x c w)
        (λ c w _. w)
        (All-update_where (IsWithin x) (IsWithin x) (active_conversation id) next
          before.conversations (λ c w _ e. omega (arith, w (sym ((up c).0) ∙ e), (up c).2))
          (λ c w _. w) h))

  IsWithin-new : All (IsWithin m) after.conversations
  IsWithin-new =
      let (c, there, counted) = numbered_row in
      let passes = db.find_one_some (active_conversation id) before.conversations c there in
      let only =
        All-only (λ (x : Conversation). x.id == id) c before.conversations (ordered.keyed id)
          (db.find_one_among _ _ _ there) (ground (arith, passes)) in
      rw rows_after (
        All-update_where (IsWithin m) (IsWithin m) _ point _ (λ c w _. pointed-IsWithin m c w)
          (λ c w _. w)
          (All-update_where (λ x. (x.id == id) ≡ true → x ≡ c) (IsWithin m) (active_conversation id)
            next before.conversations (λ x w hit e. ground (arith, w, seq_of_row, counted, up x))
            (λ x w miss e. ground (arith, w, passes, of_conversation)) only))

  no_message_at_seq : any (at_seq id m.seq) before.messages ≡ false
  no_message_at_seq =
      let (c, there, counted) = numbered_row in
      let passes = db.find_one_some (active_conversation id) before.conversations c there in
      let among = db.find_one_among (active_conversation id) before.conversations c there in
      any_of_All (λ x. All (IsWithin x) before.conversations) (at_seq id m.seq) before.messages
        (λ x w.
          ground (
            arith,
            All-Among (IsWithin x) c before.conversations w among,
            seq_of_row,
            passes,
            up c,
          ))
        ordered.within

  pub numbered-IsSequenced : IsSequenced after
  numbered-IsSequenced = record {
    keyed = keyed_after;
    within = rw messages_after (
        All-append (λ x. All (IsWithin x) after.conversations) before.messages (m ∷ [])
          (All-map (λ x. All (IsWithin x) before.conversations)
            (λ x. All (IsWithin x) after.conversations) before.messages IsWithin-old ordered.within)
          (IsWithin-new, tt));
    distinct = λ k n. rw messages_after (
        AtMostOne-append (at_seq k n) m before.messages
          (λ hit. ground (arith, no_message_at_seq, of_conversation)) (ordered.distinct k n));
  }
