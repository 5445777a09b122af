-- ===== src/Groups/Counting/Leaving.antt =====
-- apps/im-server/src/modules/groups/services/group-command.service.ts: the count of members, over
-- `leave` and `remove`.
use slowchat.Base.{
  ◌+◌, ◌-◌, ◌≡◌, refl, sym, ap, ◌∙◌, false, some, arith, ◌==◌, first, upsert, update_where,
  count_where,
}
use slowchat.Base.Rows.{AtMostOne-update_where, All-update_where, first-Among}
use slowchat.Base.Saves.{AtMostOne-upsert}
use slowchat.Base.Counts.{passing, count_where-upsert}
use slowchat.Base.Action.{Result, ok}
use slowchat.Base.Database.{Database}
use slowchat.Model.{
  Uuid, Time, Digest, Store, AuthContext, Conversation, ConversationMember, MemberStatus, Payload,
  active_in, active_member, same_member, member_is_active,
}
use slowchat.Sessions.{Env}
use slowchat.Groups.Joining.{save_member, decrement_member_count}
use slowchat.Groups.Leaving.{gone, drop_member, leave, remove}
use slowchat.Groups.Leaving.Outcomes.{Outcome, unchanged, went, leave-Outcome, remove-Outcome}
use slowchat.Groups.Counting.{CountIsRight, IsCounted, IsCounted-update, append-keeps}

module _ (db : Database) (now : Time) (conversation_id : Uuid) (status : MemberStatus)
    (m : ConversationMember) (s s' : Store) (h : IsCounted s) (user_id : Uuid)
    (found : db.find_one (active_member conversation_id user_id) s.members ≡ some m)
    (inactive : member_is_active status ≡ false)
    (done : drop_member db now conversation_id status m s ≡ (ok tt, s')) where
  members_after : s'.members ≡ upsert same_member (gone now status m) s.members
  unfolding drop_member save_member decrement_member_count
  members_after = ground (arith, done, db.save_lem same_member (gone now status m) s.members)

  conversations_after :
      s'.conversations
      ≡ update_where
          (λ c. c.id == conversation_id)
          (λ c. record c { member_count = c.member_count - 1 })
          s.conversations
  unfolding drop_member save_member decrement_member_count
  conversations_after = ground (
    arith,
    done,
    db.update_lem (λ c. c.id == conversation_id)
        (λ (c : Conversation). record c { member_count = c.member_count - 1 }) s.conversations,
  )

  row_before : first (same_member (gone now status m)) s.members ≡ some m
  row_before =
      first-Among (same_member (gone now status m)) m s.members
        (h.members_keyed (gone now status m))
        (db.find_one_among (active_member conversation_id user_id) s.members m found) (ground arith)

  counts :
      (id : Uuid)
      → count_where (active_in id) s'.members + passing (active_in id) (some m)
        ≡ count_where (active_in id) s.members + passing (active_in id) (some (gone now status m))
  counts id =
      ap (λ rows. count_where (active_in id) rows + passing (active_in id) (some m)) members_after
      ∙ ap
          (λ row.
            count_where (active_in id) (upsert same_member (gone now status m) s.members)
            + passing (active_in id) row)
          (sym row_before)
      ∙ count_where-upsert (active_in id) same_member (gone now status m) s.members

  -- A member who goes is counted down.
  pub drop_member-IsCounted : IsCounted s'
  drop_member-IsCounted =
      let key = db.find_one_some (active_member conversation_id user_id) s.members m found in
      record {
        keyed = λ id.
            rw conversations_after (
              AtMostOne-update_where (λ c. c.id == id) _ _ s.conversations (λ c. refl)
                (h.keyed id));
        members_keyed = λ x. rw members_after (
            AtMostOne-upsert same_member (same_member x) (gone now status m) s.members
              (λ y e. ground arith) (λ y e f. ground arith) (h.members_keyed x));
        counted = rw conversations_after (
            All-update_where (CountIsRight s.members) (CountIsRight s'.members)
              (λ c. c.id == conversation_id) (λ c. record c { member_count = c.member_count - 1 })
              s.conversations (λ c right hit active. ground (arith, right active, counts c.id, key))
              (λ c right miss active. ground (arith, right active, counts c.id, key)) h.counted);
      }

module _ (db : Database) (payload_hash : Payload → Digest) (env : Env) (auth : AuthContext)
    (conversation_id : Uuid) where
  IsCounted-of_Outcome :
      {A : Type 0} (s : Store) (answer : Result A × Store)
      → Outcome db payload_hash env auth conversation_id s answer
      → IsCounted s
      → IsCounted answer.1
  IsCounted-of_Outcome s answer (unchanged e) h = rw e h
  IsCounted-of_Outcome s answer
        (went user_id status m s' kind target ids found no_owner inactive done e) h =
      rw e (
        append-keeps db payload_hash env auth conversation_id kind target ids 0 IsCounted
          IsCounted-update s'
          (drop_member-IsCounted db env.now conversation_id status m s s' h user_id found inactive
            done))

  -- `leave` keeps every active conversation's count at the number of its active members.
  pub leave-IsCounted :
      (s : Store) → IsCounted s → IsCounted (leave db payload_hash env auth conversation_id s).1
  leave-IsCounted s =
      IsCounted-of_Outcome s _ (leave-Outcome db payload_hash env auth conversation_id s)

  -- `remove` keeps every active conversation's count at the number of its active members.
  pub remove-IsCounted :
      (target_user_id : Uuid) (s : Store)
      → IsCounted s
      → IsCounted (remove db payload_hash env auth conversation_id target_user_id s).1
  remove-IsCounted target_user_id s =
      IsCounted-of_Outcome s _
        (remove-Outcome db payload_hash env auth conversation_id target_user_id s)
