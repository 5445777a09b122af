-- ===== src/Groups/Counting/Decisions.antt =====
-- apps/im-server/src/modules/groups/services/group-command.service.ts: the count of members, over
-- `decideJoinRequest`.
use slowchat.Base.{
  ◌≡◌, true, none, some, List, ◌∷◌, arith, inl, inr, ◌==◌, Bool-cases, Option-cases,
}
use slowchat.Base.Action.{Result, Result-cases, ok}
use slowchat.Base.Database.{Database}
use slowchat.Model.{
  Uuid, Digest, Store, AuthContext, Conversation, ConversationMember, Role, Payload, SystemKind,
  active_member, GroupProfile, GroupJoinRequest, request_is_pending,
}
use slowchat.Sessions.{Env, validate_with_manager}
use slowchat.Groups.System
use slowchat.Groups.Joining.{add_member}
use slowchat.Groups.Locking.{lock_group, lock_as_member, active_group, active_member_ids}
use slowchat.Groups.Requests.{
  JoinDecision, approve, reject_request, decide_join_request, decide_body, apply_decision, join,
  save_request,
}
use slowchat.Groups.Counting.{IsCounted, IsCounted-update, append-keeps}
use slowchat.Groups.Counting.Joining.{add_member-IsCounted}

IsCounted-of_same :
    (s t : Store)
    → t.conversations ≡ s.conversations
    → t.members ≡ s.members
    → IsCounted s
    → IsCounted t
IsCounted-of_same s t conversations members h = record {
  keyed = rw conversations h.keyed;
  members_keyed = rw members h.members_keyed;
  counted = rw (conversations, members) h.counted;
}

module _ (db : Database) (payload_hash : Payload → Digest) (env : Env) (auth : AuthContext)
    (request_id : Uuid) (s : Store) where
  abbrev Requested : GroupJoinRequest → Type 0
  Requested r = db.find_one (λ r. r.id == request_id) s.join_requests ≡ some r

  abbrev told : GroupJoinRequest → Conversation → List Uuid → Store
  told r c ids =
      (System.append db payload_hash env auth c.id SystemKind.member_joined (some r.user_id) ids 0
        (add_member db env.now c r.user_id Role.member s)).1

  -- A decision leaves the tables of conversations and members alone, or a user is added. An
  -- approval of a pending request that succeeds adds.
  data Outcome (decision : JoinDecision) (answer : Result GroupJoinRequest × Store) : Type 0 where
    same_members :
        answer.1.conversations ≡ s.conversations
        → answer.1.members ≡ s.members
        → (decision ≡ approve
            → (r r' : GroupJoinRequest) → Requested r
            → request_is_pending r.status ≡ true
            → ¬ (answer.0 ≡ ok r'))
        → Outcome decision answer
    added :
        (r : GroupJoinRequest) (c : Conversation) (ids : List Uuid)
        → Requested r
        → db.find_one (active_group c.id) s.conversations ≡ some c
        → c.id ≡ r.conversation_id
        → answer.1.conversations ≡ (told r c ids).conversations
        → answer.1.members ≡ (told r c ids).members
        → Outcome decision answer

  group_found :
      (user_id conversation_id : Uuid) (found : Conversation × GroupProfile × ConversationMember)
      → lock_as_member db user_id conversation_id s ≡ ok found
      → (db.find_one (active_group found.0.id) s.conversations ≡ some found.0)
        × (found.0.id ≡ conversation_id)
  unfolding lock_as_member lock_group
  group_found user_id conversation_id found h =
      let key : found.0.id ≡ conversation_id =
        ground (arith, db.find_one_some (active_group conversation_id) s.conversations found.0) in
      (rw key (ground arith), key)

  rejected :
      Outcome reject_request
        (decide_join_request db payload_hash env auth request_id reject_request s)
  unfolding decide_join_request decide_body apply_decision save_request validate_with_manager
  rejected =
      let law =
        db.transaction_lem (decide_body db payload_hash env auth request_id reject_request) s in
      same_members (ground (arith, law)) (ground (arith, law)) (λ e. ground arith)

  approved : Outcome approve (decide_join_request db payload_hash env auth request_id approve s)
  unfolding decide_join_request decide_body apply_decision join save_request validate_with_manager
  approved =
      let law = db.transaction_lem (decide_body db payload_hash env auth request_id approve) s in
      elim (Result-cases (decide_body db payload_hash env auth request_id approve s).0) [
        | inr (e, failed) ↦
            same_members (ground (arith, law)) (ground (arith, law))
              (λ how x y asked open_still. ground (arith, law))
        | inl (r', done) ↦
            elim (Option-cases (db.find_one (λ r. r.id == request_id) s.join_requests)) [
              | inl e ↦
                  same_members (ground (arith, law)) (ground (arith, law))
                    (λ how x y asked open_still. ground (arith, law))
              | inr (r, e) ↦
                  elim (Result-cases (lock_as_member db auth.user_id r.conversation_id s)) [
                    | inr (why, h) ↦
                        same_members (ground (arith, law)) (ground (arith, law))
                          (λ how x y asked open_still. ground (arith, law))
                    | inl (found, h) ↦ elim (Bool-cases (request_is_pending r.status)) [
                      | inr decided ↦
                          same_members (ground (arith, law)) (ground (arith, law))
                            (λ how x y asked open_still. ground (arith, law))
                      | inl pending ↦
                          added r found.0
                            (r.user_id
                              ∷ active_member_ids db found.0.id
                                  (add_member db env.now found.0 r.user_id Role.member s))
                            e (group_found auth.user_id r.conversation_id found h).0
                            (group_found auth.user_id r.conversation_id found h).1
                            (ground (arith, law)) (ground (arith, law))
                    ]
                  ]
            ]
      ]

  decide-Outcome :
      (decision : JoinDecision)
      → Outcome decision (decide_join_request db payload_hash env auth request_id decision s)
  decide-Outcome reject_request = rejected
  decide-Outcome approve = approved

  module _ (decision : JoinDecision) (h : IsCounted s) where
    abbrev after : Store
    after = (decide_join_request db payload_hash env auth request_id decision s).1

    -- A decision keeps every active conversation's count at the number of its active members, if
    -- the user who asked is no active member when the decision is made.
    pub decide_join_request-IsCounted :
        ((r : GroupJoinRequest)
          → Requested r
          → db.find_one (active_member r.conversation_id r.user_id) s.members ≡ none)
        → IsCounted after
    decide_join_request-IsCounted absent = finish (decide-Outcome decision)
      where
        finish :
            Outcome decision (decide_join_request db payload_hash env auth request_id decision s)
            → IsCounted after
        finish (same_members conversations members _) =
            IsCounted-of_same s after conversations members h
        finish (added r c ids asked found same conversations members) =
            IsCounted-of_same (told r c ids) after conversations members (
              append-keeps db payload_hash env auth c.id SystemKind.member_joined (some r.user_id)
                ids 0 IsCounted IsCounted-update (add_member db env.now c r.user_id Role.member s)
                (add_member-IsCounted db env.now c r.user_id Role.member s h found
                  (rw same (absent r asked))))
