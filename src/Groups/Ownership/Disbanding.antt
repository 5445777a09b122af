-- ===== src/Groups/Ownership/Disbanding.antt =====
-- apps/im-server/src/modules/groups/services/group-command.service.ts: what `disband` leaves.
use slowchat.Base.{
  ◌+◌, ◌≡◌, refl, true, none, some, List, arith, ◌==◌, inl, inr, Among, first, count_where,
}
use slowchat.Base.Rows.{first-Among}
use slowchat.Base.Saves.{first-upsert}
use slowchat.Base.Counts.{Among-upsert, count_where-update_where}
use slowchat.Base.Action.{Result, Result-cases, ok}
use slowchat.Base.Database.{Database}
use slowchat.Model.{
  Uuid, Digest, Store, AuthContext, Conversation, ConversationMember, Message, MemberStatus,
  GroupProfile, SystemKind, Payload, active_conversation, active_in, active_member, Role, is_owner,
  same_message, same_conversation,
}
use slowchat.Sessions.{Env, validate_with_manager}
use slowchat.Messages.Numbering.{IsSequenced, returned_row}
use slowchat.Groups.System
use slowchat.Groups.System.{next_system_seq}
use slowchat.Groups.System.Sequence.{Outcome, append-Outcome, failed, inserted}
use slowchat.Groups.Locking.{lock_group, lock_as_member, active_group, active_member_ids}
use slowchat.Groups.Leaving.{gone}
use slowchat.Groups.Ownership.{disband, disband_body, close_group, deleted, save_conversation}

module _ (db : Database) (payload_hash : Payload → Digest) (env : Env) (auth : AuthContext)
    (conversation_id : Uuid) (s : Store) where
  abbrev after : Store
  after = (disband db payload_hash env auth conversation_id s).1

  -- What a disbanded group leaves.
  pub record Disbanded : Type 0 where
    pub conversation : Conversation
    pub owner : ConversationMember
    pub message : Message
    pub was_active : db.find_one (active_group conversation_id) s.conversations ≡ some conversation
    pub owner_found :
        db.find_one (active_member conversation_id auth.user_id) s.members ≡ some owner
    pub is_owned : owner.role ≡ Role.owner
    pub nobody_left : count_where (active_in conversation_id) after.members ≡ 0
    pub row_after :
        first (λ c. c.id == conversation_id) after.conversations
        ≡ some (deleted env.now conversation)
    pub message_among : Among message after.messages
    pub message_of : message.conversation_id ≡ conversation_id
    pub message_seq : message.seq ≡ conversation.last_seq + 1

  members_found :
      (found : Conversation × GroupProfile × ConversationMember)
      → lock_as_member db auth.user_id conversation_id s ≡ ok found
      → (db.find_one (active_group conversation_id) s.conversations ≡ some found.0)
        × (db.find_one (active_member conversation_id auth.user_id) s.members ≡ some found.2)
  unfolding lock_as_member lock_group
  members_found found h = (ground arith, ground arith)

  abbrev ids : List Uuid
  ids = active_member_ids db conversation_id s

  abbrev told : Result Message × Store
  told =
      System.append db payload_hash env auth conversation_id SystemKind.group_disbanded none ids 0 s

  -- The owner is told of, the system message is there, and the group is closed.
  steps :
      (disband db payload_hash env auth conversation_id s).0 ≡ ok tt
      → (found : Conversation × GroupProfile × ConversationMember) × (m : Message) × (lock_as_member
            db auth.user_id conversation_id s
          ≡ ok found)
        × (is_owner found.2.role ≡ true)
        × (told.0 ≡ ok m)
        × (after ≡ close_group db payload_hash env.now conversation_id found.0 told.1)
  unfolding disband disband_body validate_with_manager
  steps done =
      let law = db.transaction_lem (disband_body db payload_hash env auth conversation_id) s in
      elim (Result-cases (lock_as_member db auth.user_id conversation_id s)) [
        | inr (why, h) ↦ absurd (ground (arith, law))
        | inl (found, h) ↦ elim (Result-cases told.0) [
          | inr (why, k) ↦ absurd (ground (arith, law))
          | inl (m, k) ↦ (found, m, h, ground (arith, law), k, ground (arith, law))
        ]
      ]

  -- The row of an id is the same by any test that asks for the id.
  same_row :
      (c d : Conversation)
      → IsSequenced s
      → db.find_one (active_conversation conversation_id) s.conversations ≡ some c
      → db.find_one (active_group conversation_id) s.conversations ≡ some d
      → c ≡ d
  same_row c d h found_c found_d =
      let key = λ (x : Conversation). x.id == conversation_id in
      let of_c =
        first-Among key c s.conversations (h.keyed conversation_id)
          (db.find_one_among (active_conversation conversation_id) s.conversations c found_c)
          (ground (
            arith,
            db.find_one_some (active_conversation conversation_id) s.conversations c found_c,
          )) in
      let of_d =
        first-Among key d s.conversations (h.keyed conversation_id)
          (db.find_one_among (active_group conversation_id) s.conversations d found_d)
          (ground
            (arith, db.find_one_some (active_group conversation_id) s.conversations d found_d)) in
      ground (arith, of_c, of_d)

  closed_row :
      (c : Conversation) (t : Store)
      → c.id ≡ conversation_id
      → first
          (λ x. x.id == conversation_id)
          (close_group db payload_hash env.now conversation_id c t).conversations
        ≡ some (deleted env.now c)
  unfolding close_group save_conversation
  closed_row c t key = rw db.save_lem (
      first-upsert same_conversation (λ x. x.id == conversation_id) (deleted env.now c)
        t.conversations (λ x. ground (arith, key)) (ground (arith, key)))

  nobody :
      (c : Conversation) (t : Store)
      → count_where
          (active_in conversation_id)
          (close_group db payload_hash env.now conversation_id c t).members
        ≡ 0
  unfolding close_group save_conversation
  nobody c t = rw db.update_lem (
      count_where-update_where (active_in conversation_id) (gone env.now MemberStatus.removed)
        t.members (λ m. ground arith))

  kept_messages :
      (c : Conversation) (t : Store)
      → (close_group db payload_hash env.now conversation_id c t).messages ≡ t.messages
  unfolding close_group save_conversation
  kept_messages c t = refl

  -- A group is disbanded by its owner only. Then it has no active member, its row is closed, and a
  -- system message is there. The row is the one that was read before the message took its number:
  -- it has the old last_seq, and the message is past it. Condition: conversations were sequenced.
  pub disband-Disbanded :
      IsSequenced s → (disband db payload_hash env auth conversation_id s).0 ≡ ok tt → Disbanded
  disband-Disbanded h done = finish (
      append-Outcome db payload_hash env auth conversation_id SystemKind.group_disbanded none ids 0
        s)
    where
      finish :
          Outcome db payload_hash env auth conversation_id SystemKind.group_disbanded none ids 0 s
          → Disbanded
      finish (failed e why _ _) =
          let (_, m, _, _, k, _) = steps done in absurd (ground (arith, why, k))
      finish (inserted row m k row_found _ seq here _ messages) =
          let (found, _, locked, own, _, closed) = steps done in
          let (c, was, counted) =
            returned_row db conversation_id (next_system_seq env.now) (λ c. (refl, refl, refl))
              s.conversations row (h.keyed conversation_id) row_found in
          let both = members_found found locked in
          let same = same_row c found.0 h was both.0 in
          record {
            conversation = found.0;
            owner = found.2;
            message = m;
            was_active = both.0;
            owner_found = both.1;
            is_owned = ground (arith, own);
            nobody_left = rw closed (nobody found.0 told.1);
            row_after = rw closed (
                closed_row found.0 told.1 (
                  ground (
                    arith,
                    db.find_one_some (active_group conversation_id) s.conversations found.0 both.0,
                  )));
            message_among =
                rw (closed, kept_messages found.0 told.1, messages, db.save_lem)
                  (Among-upsert same_message m s.messages);
            message_of = here;
            message_seq = ground (arith, seq, counted, same);
          }
