-- ===== src/Groups/Leaving/Outcomes.antt =====
-- apps/im-server/src/modules/groups/services/group-command.service.ts: the ways in which `leave` and
-- `remove` end.
use slowchat.Base.{
  ◌≡◌, refl, false, Option, some, List, ◌∷◌, arith, inl, inr, Bool-cases, Option-cases,
}
use slowchat.Base.Action.{Result, Result-cases, ok}
use slowchat.Base.Database.{Database}
use slowchat.Model.{
  Uuid, Digest, Store, AuthContext, Conversation, ConversationMember, MemberStatus, Payload,
  SystemKind, active_member, member_is_active, GroupProfile, is_owner,
}
use slowchat.Sessions.{Env, session_is_good, validate_with_manager}
use slowchat.Groups.System
use slowchat.Groups.Locking.{
  lock_group, lock_as_member, target_member, assert_admin, active_member_ids,
}
use slowchat.Groups.Leaving.{may_not_remove, drop_member, leave, leave_body, remove, remove_body}

module _ (db : Database) (payload_hash : Payload → Digest) (env : Env) (auth : AuthContext)
    (conversation_id : Uuid) where
  -- `leave` or `remove` changes nothing, or a member who is no owner goes and a system message follows.
  pub data Outcome {A : Type 0} (s : Store) (answer : Result A × Store) : Type 0 where
    unchanged : answer.1 ≡ s → Outcome s answer
    went :
        (user_id : Uuid) (status : MemberStatus) (m : ConversationMember) (s' : Store)
        (kind : SystemKind) (target : Option Uuid) (ids : List Uuid)
        → db.find_one (active_member conversation_id user_id) s.members ≡ some m
        → is_owner m.role ≡ false
        → member_is_active status ≡ false
        → drop_member db env.now conversation_id status m s ≡ (ok tt, s')
        → answer.1 ≡ (System.append db payload_hash env auth conversation_id kind target ids 0 s').1
        → Outcome s answer

  member_found :
      (user_id : Uuid) (s : Store) (found : Conversation × GroupProfile × ConversationMember)
      → lock_as_member db user_id conversation_id s ≡ ok found
      → db.find_one (active_member conversation_id user_id) s.members ≡ some found.2
  unfolding lock_as_member lock_group
  member_found user_id s found h = ground arith

  pub leave-Outcome : (s : Store) → Outcome s (leave db payload_hash env auth conversation_id s)
  unfolding leave leave_body validate_with_manager
  leave-Outcome s =
      let law = db.transaction_lem (leave_body db payload_hash env auth conversation_id) s in
      elim (Bool-cases (session_is_good db env.now auth s)) [
        | inr bad ↦ unchanged (ground (arith, law))
        | inl good ↦ elim (Result-cases (lock_as_member db auth.user_id conversation_id s)) [
          | inr (e, h) ↦ unchanged (ground (arith, law))
          | inl (found, h) ↦ elim (Bool-cases (is_owner found.2.role)) [
            | inl own ↦ unchanged (ground (arith, law))
            | inr other ↦
                elim (Result-cases
                  (drop_member db env.now conversation_id MemberStatus.left found.2 s).0) [
                    | inr (why, g) ↦ unchanged (ground (arith, law))
                    | inl (u, g) ↦
                        let s' : Store =
                          (drop_member db env.now conversation_id MemberStatus.left found.2 s).1 in
                        elim (Result-cases
                          (System.append db payload_hash env auth conversation_id
                            SystemKind.member_left (some auth.user_id)
                            (active_member_ids db conversation_id s') 0 s').0) [
                              | inr (why, k) ↦ unchanged (ground (arith, law))
                              | inl (told, k) ↦
                                  went auth.user_id MemberStatus.left found.2 s'
                                    SystemKind.member_left (some auth.user_id)
                                    (active_member_ids db conversation_id s')
                                    (member_found auth.user_id s found h) other refl
                                    (ground (arith, g)) (ground (arith, law))
                            ]
                  ]
          ]
        ]
      ]

  pub remove-Outcome :
      (target_user_id : Uuid) (s : Store)
      → Outcome s (remove db payload_hash env auth conversation_id target_user_id s)
  unfolding remove remove_body validate_with_manager assert_admin
  remove-Outcome target_user_id s =
      let law =
        db.transaction_lem (remove_body db payload_hash env auth conversation_id target_user_id)
          s in
      elim (Bool-cases (session_is_good db env.now auth s)) [
        | inr bad ↦ unchanged (ground (arith, law))
        | inl good ↦ elim (Result-cases (lock_as_member db auth.user_id conversation_id s)) [
          | inr (e, h) ↦ unchanged (ground (arith, law))
          | inl (found, h) ↦ elim (Result-cases (assert_admin {S = Store} found.2.role s)) [
            | inr (e, refused) ↦ unchanged (ground (arith, law))
            | inl (_, admin) ↦
                elim (Option-cases (target_member db conversation_id target_user_id s)) [
                  | inl e ↦ unchanged (ground (arith, law))
                  | inr (m, e) ↦ elim (Bool-cases (may_not_remove found.2.role m.role)) [
                    | inl refused ↦ unchanged (ground (arith, law))
                    | inr allowed ↦
                        elim (Result-cases
                          (drop_member db env.now conversation_id MemberStatus.removed m s).0) [
                            | inr (why, g) ↦ unchanged (ground (arith, law))
                            | inl (u, g) ↦
                                let s' : Store =
                                  (drop_member db env.now conversation_id MemberStatus.removed m
                                    s).1 in
                                elim (Result-cases
                                  (System.append db payload_hash env auth conversation_id
                                    SystemKind.member_removed (some target_user_id)
                                    (target_user_id ∷ active_member_ids db conversation_id s') 0
                                    s').0) [
                                      | inr (why, k) ↦ unchanged (ground (arith, law))
                                      | inl (told, k) ↦
                                          went target_user_id MemberStatus.removed m s'
                                            SystemKind.member_removed (some target_user_id)
                                            (target_user_id
                                              ∷ active_member_ids db conversation_id s')
                                            e (ground arith) refl (ground (arith, g))
                                            (ground (arith, law))
                                    ]
                          ]
                  ]
                ]
          ]
        ]
      ]
