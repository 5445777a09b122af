-- ===== src/Groups/Ownership/OneOwner.antt =====
-- apps/im-server/src/modules/groups/services/group-command.service.ts: a group has one owner, over
-- `transferOwner`, `leave` and `remove`.
use slowchat.Base.{
  ◌+◌, ◌≡◌, sym, ap, ◌∙◌, Bool, true, false, ◌&&◌, Option, some, List, arith, inl, inr,
  Option-cases, first, upsert, count_where,
}
use slowchat.Base.Rows.{AtMostOne, first-Among}
use slowchat.Base.Saves.{AtMostOne-upsert}
use slowchat.Base.Counts.{passing, count_where-upsert, count_where-first}
use slowchat.Base.Action.{Result, Result-cases, ok}
use slowchat.Base.Database.{Database}
use slowchat.Model.{
  Uuid, Time, Digest, Store, AuthContext, Conversation, ConversationMember, MemberStatus, Payload,
  Role, SystemKind, active_in, active_member, same_member, GroupProfile, is_owner,
}
use slowchat.Sessions.{Env, validate_with_manager}
use slowchat.Groups.System
use slowchat.Groups.Joining.{save_member, decrement_member_count}
use slowchat.Groups.Locking.{lock_group, lock_as_member, target_member, active_member_ids}
use slowchat.Groups.Leaving.{gone, drop_member, leave, remove}
use slowchat.Groups.Leaving.Outcomes.{Outcome, unchanged, went, leave-Outcome, remove-Outcome}
use slowchat.Groups.Counting.{append-keeps}
use slowchat.Groups.Ownership.{
  with_role, save_conversation, hand_over, transfer_owner, transfer_body,
}

-- The active owner of a conversation
abbrev pub owner_in : Uuid → ConversationMember → Bool
owner_in conversation_id m = active_in conversation_id m && is_owner m.role

-- Members are told apart by their keys, and the conversation has one active owner.
pub record HasOneOwner (conversation_id : Uuid) (s : Store) : Type 0 where
  pub members_keyed : (m : ConversationMember) → AtMostOne (same_member m) s.members
  pub one : count_where (owner_in conversation_id) s.members ≡ 1

module _ (db : Database) (conversation_id : Uuid) where
  -- What a save does to the number of owners.
  saved_owners :
      (m old : ConversationMember) (rows : List ConversationMember)
      → first (same_member m) rows ≡ some old
      → count_where (owner_in conversation_id) (upsert same_member m rows)
          + passing (owner_in conversation_id) (some old)
        ≡ count_where (owner_in conversation_id) rows + passing (owner_in conversation_id) (some m)
  saved_owners m old rows e =
      ap
        (λ row.
          count_where (owner_in conversation_id) (upsert same_member m rows)
          + passing (owner_in conversation_id) row)
        (sym e)
      ∙ count_where-upsert (owner_in conversation_id) same_member m rows

  saved-keyed :
      (m x : ConversationMember) (rows : List ConversationMember)
      → AtMostOne (same_member x) rows
      → AtMostOne (same_member x) (upsert same_member m rows)
  saved-keyed m x rows =
      AtMostOne-upsert same_member (same_member x) m rows (λ y e. ground arith)
        (λ y e f. ground arith)

  -- A member who is no owner goes.
  drop_member-HasOneOwner :
      (now : Time) (status : MemberStatus) (m : ConversationMember) (s s' : Store) (user_id : Uuid)
      → db.find_one (active_member conversation_id user_id) s.members ≡ some m
      → is_owner m.role ≡ false
      → drop_member db now conversation_id status m s ≡ (ok tt, s')
      → HasOneOwner conversation_id s
      → HasOneOwner conversation_id s'
  unfolding drop_member save_member decrement_member_count
  drop_member-HasOneOwner now status m s s' user_id found no_owner done h =
      let row = gone now status m in
      let members : s'.members ≡ upsert same_member row s.members =
        ground (arith, done, db.save_lem same_member row s.members) in
      let old =
        first-Among (same_member row) m s.members (h.members_keyed row)
          (db.find_one_among (active_member conversation_id user_id) s.members m found)
          (ground arith) in
      record {
        members_keyed = λ x. rw members (saved-keyed row x s.members (h.members_keyed x));
        one = rw members (ground (arith, saved_owners row m s.members old, h.one, no_owner));
      }

  -- The old owner is demoted, then the new one is promoted.
  hand_over-HasOneOwner :
      (payload_hash : Payload → Digest) (now : Time) (c : Conversation)
      (m target : ConversationMember) (s : Store) (user_id target_user_id : Uuid)
      → db.find_one (active_member conversation_id user_id) s.members ≡ some m
      → db.find_one (active_member conversation_id target_user_id) s.members ≡ some target
      → is_owner m.role ≡ true
      → HasOneOwner conversation_id s
      → HasOneOwner conversation_id (hand_over db payload_hash now c m target target_user_id s)
  unfolding hand_over save_member save_conversation
  hand_over-HasOneOwner payload_hash now c m target s user_id target_user_id found found_target own
        h =
      let demoted = with_role Role.admin m in
      let promoted = with_role Role.owner target in
      let rows = upsert same_member demoted s.members in
      let old =
        first-Among (same_member demoted) m s.members (h.members_keyed demoted)
          (db.find_one_among (active_member conversation_id user_id) s.members m found)
          (ground arith) in
      let nobody : count_where (owner_in conversation_id) rows ≡ 0 = ground (
        arith,
        saved_owners demoted m s.members old,
        h.one,
        own,
        db.find_one_some (active_member conversation_id user_id) s.members m found,
      ) in
      let after : (hand_over db payload_hash now c m target target_user_id s).members
          ≡ upsert same_member promoted rows =
        db.save_lem same_member promoted _
        ∙ ap (upsert same_member promoted) (db.save_lem same_member demoted s.members) in
      record {
        members_keyed = λ x.
            rw after
              (saved-keyed promoted x rows (saved-keyed demoted x s.members (h.members_keyed x)));
        one = rw after (
            ground (
              arith,
              count_where-upsert (owner_in conversation_id) same_member promoted rows,
              count_where-first (owner_in conversation_id) (same_member promoted) rows nobody,
              nobody,
              db.find_one_some (active_member conversation_id target_user_id) s.members target
                  found_target,
            ));
      }

module _ (db : Database) (payload_hash : Payload → Digest) (env : Env) (auth : AuthContext)
    (conversation_id : Uuid) where
  -- A system message leaves the members alone.
  told-HasOneOwner :
      (kind : SystemKind) (target : Option Uuid) (ids : List Uuid) (s : Store)
      → HasOneOwner conversation_id s
      → HasOneOwner conversation_id
          (System.append db payload_hash env auth conversation_id kind target ids 0 s).1
  told-HasOneOwner kind target ids =
      append-keeps db payload_hash env auth conversation_id kind target ids 0
        (HasOneOwner conversation_id)
        (λ p f s s' _ _ members h. record {
          members_keyed = rw members h.members_keyed;
          one = rw members h.one;
        })

  HasOneOwner-of_Outcome :
      {A : Type 0} (s : Store) (answer : Result A × Store)
      → Outcome db payload_hash env auth conversation_id s answer
      → HasOneOwner conversation_id s
      → HasOneOwner conversation_id answer.1
  HasOneOwner-of_Outcome s answer (unchanged e) h = rw e h
  HasOneOwner-of_Outcome s answer (went user_id status m s' kind target ids found no_owner _ done e)
        h =
      rw e (
        told-HasOneOwner kind target ids s' (
          drop_member-HasOneOwner db conversation_id env.now status m s s' user_id found no_owner
            done h))

  facts :
      (s : Store) (found : Conversation × GroupProfile × ConversationMember)
      → lock_as_member db auth.user_id conversation_id s ≡ ok found
      → db.find_one (active_member conversation_id auth.user_id) s.members ≡ some found.2
  unfolding lock_as_member lock_group
  facts s found h = ground arith

  transfer_owner-HasOneOwner :
      (target_user_id : Uuid) (s : Store)
      → HasOneOwner conversation_id s
      → HasOneOwner conversation_id
          (transfer_owner db payload_hash env auth conversation_id target_user_id s).1
  unfolding transfer_owner transfer_body validate_with_manager
  transfer_owner-HasOneOwner target_user_id s h =
      let law =
        db.transaction_lem (transfer_body db payload_hash env auth conversation_id target_user_id)
          s in
      elim (Result-cases
        (transfer_body db payload_hash env auth conversation_id target_user_id s).0) [
          | inr (why, failed) ↦
              let same : (transfer_owner db payload_hash env auth conversation_id target_user_id
                    s).1
                  ≡ s =
                ground (arith, law) in
              rw same h
          | inl (done, succeeded) ↦
              elim (Result-cases (lock_as_member db auth.user_id conversation_id s)) [
                | inr (why, k) ↦ absurd (ground arith)
                | inl (found, k) ↦
                    elim (Option-cases (target_member db conversation_id target_user_id s)) [
                      | inl e ↦ absurd (ground arith)
                      | inr (target, e) ↦
                          let handed : Store =
                            hand_over db payload_hash env.now found.0 found.2 target target_user_id
                              s in
                          let after : (transfer_owner db payload_hash env auth conversation_id
                                target_user_id s).1
                              ≡ (System.append db payload_hash env auth conversation_id
                                  SystemKind.owner_transferred (some target_user_id)
                                  (active_member_ids db conversation_id handed) 0 handed).1 =
                            ground (arith, law) in
                          rw after (
                            told-HasOneOwner SystemKind.owner_transferred (some target_user_id)
                              (active_member_ids db conversation_id handed) handed
                              (hand_over-HasOneOwner db conversation_id payload_hash env.now found.0
                                found.2 target s auth.user_id target_user_id (facts s found k) e
                                (ground arith) h))
                    ]
              ]
        ]

  -- `transferOwner`, `leave` and `remove` keep a group's one active owner. Condition: members are
  -- told apart by their keys.
  pub commands-HasOneOwner :
      (target_user_id : Uuid) (s : Store)
      → HasOneOwner conversation_id s
      → HasOneOwner conversation_id
          (transfer_owner db payload_hash env auth conversation_id target_user_id s).1
        × HasOneOwner conversation_id (leave db payload_hash env auth conversation_id s).1
        × HasOneOwner conversation_id
            (remove db payload_hash env auth conversation_id target_user_id s).1
  commands-HasOneOwner target_user_id s h = (
    transfer_owner-HasOneOwner target_user_id s h,
    HasOneOwner-of_Outcome s _ (leave-Outcome db payload_hash env auth conversation_id s) h,
    HasOneOwner-of_Outcome s _
        (remove-Outcome db payload_hash env auth conversation_id target_user_id s) h,
  )
