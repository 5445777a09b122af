-- ===== src/Groups/Counting/Joining.antt =====
-- apps/im-server/src/modules/groups/services/group-command.service.ts: the count of members, over
-- `addMember` and `decideJoinRequest`.
use slowchat.Base.{◌+◌, ◌≡◌, ap, ◌∙◌, none, some, arith, ◌==◌, first, upsert, count_where}
use slowchat.Base.Rows.{AtMostOne-narrower, All-Among, first-Among}
use slowchat.Base.Saves.{AtMostOne-upsert}
use slowchat.Base.Counts.{
  passing, count_where-upsert, All-upsert_others, Among-upsert, passing_of_first,
}
use slowchat.Base.Database.{Database}
use slowchat.Model.{
  Uuid, Time, Store, Conversation, ConversationMember, Role, active_in, active_member, same_member,
  same_conversation,
}
use slowchat.Groups.Joining.{add_member, joined_member, counted_up}
use slowchat.Groups.Locking.{active_group}
use slowchat.Groups.Counting.{CountIsRight, IsCounted, Overcounted}

module _ (db : Database) (now : Time) (c : Conversation) (user_id : Uuid) (role : Role) (s : Store)
    (h : IsCounted s) (found : db.find_one (active_group c.id) s.conversations ≡ some c) where
  abbrev after : Store
  after = add_member db now c user_id role s

  abbrev row : ConversationMember
  row = joined_member now c user_id role

  members_after : after.members ≡ upsert same_member row s.members
  unfolding add_member
  members_after = db.save_lem same_member row s.members

  conversations_after :
      after.conversations ≡ upsert same_conversation (counted_up now c) s.conversations
  unfolding add_member
  conversations_after = db.save_lem same_conversation (counted_up now c) s.conversations

  counts :
      (id : Uuid)
      → count_where (active_in id) after.members
          + passing (active_in id) (first (same_member row) s.members)
        ≡ count_where (active_in id) s.members + passing (active_in id) (some row)
  counts id =
      ap
        (λ rows.
          count_where (active_in id) rows
          + passing (active_in id) (first (same_member row) s.members))
        members_after
      ∙ count_where-upsert (active_in id) same_member row s.members

  count_before : c.member_count ≡ count_where (active_in c.id) s.members
  count_before = ground (
    arith,
    All-Among (CountIsRight s.members) c s.conversations h.counted
        (db.find_one_among (active_group c.id) s.conversations c found),
    db.find_one_some (active_group c.id) s.conversations c found,
  )

  -- A user who was no active member is counted up.
  pub add_member-IsCounted :
      db.find_one (active_member c.id user_id) s.members ≡ none → IsCounted after
  add_member-IsCounted absent =
      let none_active = db.find_one_none (active_member c.id user_id) s.members absent in
      let nobody = λ (id : Uuid).
        passing_of_first (active_in id) (same_member row) (active_member c.id user_id) s.members
          (λ x e f. ground arith) none_active in
      record {
        keyed = λ id. rw conversations_after (
            AtMostOne-upsert same_conversation (λ c. c.id == id) (counted_up now c) s.conversations
              (λ y e. ground arith) (λ y e f. ground arith) (h.keyed id));
        members_keyed = λ x. rw members_after (
            AtMostOne-upsert same_member (same_member x) row s.members (λ y e. ground arith)
              (λ y e f. ground arith) (h.members_keyed x));
        counted = rw conversations_after (
            All-upsert_others (CountIsRight s.members) (CountIsRight after.members)
              same_conversation (counted_up now c) s.conversations
              (λ active. ground (arith, counts c.id, nobody c.id, count_before))
              (λ x other right active. ground (arith, right active, counts x.id, nobody x.id))
              (AtMostOne-narrower (λ (x : Conversation). x.id == c.id)
                (same_conversation (counted_up now c)) s.conversations (λ x e. ground arith)
                (h.keyed c.id))
              h.counted);
      }

  -- An active member who is added again is counted again.
  pub again-Overcounted :
      (m : ConversationMember)
      → db.find_one (active_member c.id user_id) s.members ≡ some m
      → Overcounted after
  again-Overcounted m there = (
    counted_up now c,
    rw conversations_after (Among-upsert same_conversation (counted_up now c) s.conversations),
    ground (arith, db.find_one_some (active_group c.id) s.conversations c found),
    ground (
      arith,
      counts c.id,
      count_before,
      db.find_one_some (active_member c.id user_id) s.members m there,
      first-Among (same_member row) m s.members (h.members_keyed row)
          (db.find_one_among (active_member c.id user_id) s.members m there)
          (ground (arith, db.find_one_some (active_member c.id user_id) s.members m there)),
    ),
  )
