-- ===== src/Groups/Requests.antt =====
-- apps/im-server/src/modules/groups/services/group-command.service.ts: `requestJoin` and
-- `decideJoinRequest`.
use slowchat.Base.{
  Bool, true, false, not, ◌&&◌, ◌==◌, is_some, Option, none, some, ◌∷◌, if◌then◌else◌,
}
use slowchat.Base.Action.{
  Action, ok, err, failure, conversation_forbidden, conversation_conflict, not_found,
  unique_violation, group_join_requests_pending_uq, pure, gets, modify, throw_if, or_throw, checked,
  ◌>>=◌, ◌>>◌,
}
use slowchat.Base.Database.{Database}
use slowchat.Model.{
  Uuid, Digest, Text, Store, AuthContext, ConversationMember, GroupJoinRequest, JoinRequestStatus,
  JoinMode, Role, Payload, SystemKind, request_is_pending,
}
use slowchat.Sessions.{Env, validate_with_manager}
use slowchat.Groups.Locking.{
  LockedGroup, lock_group, lock_as_member, assert_admin, assert_room, require_active_user,
  active_member_ids, target_member,
}
use slowchat.Groups.Joining.{add_member}
use slowchat.Groups.System

pub data JoinAnswer : Type 0 where
  joined : ConversationMember → JoinAnswer
  requested : GroupJoinRequest → JoinAnswer

pub data JoinDecision : Type 0 where
  approve reject_request : JoinDecision

abbrev pub status_of : JoinDecision → JoinRequestStatus
status_of approve = JoinRequestStatus.approved
status_of reject_request = JoinRequestStatus.rejected

abbrev pub same_request : GroupJoinRequest → GroupJoinRequest → Bool
same_request a b = a.id == b.id

-- (conversation_id, user_id) WHERE status = 'PENDING', which is unique
abbrev pub pending_request : Uuid → Uuid → GroupJoinRequest → Bool
pending_request conversation_id user_id r =
    r.conversation_id == conversation_id && r.user_id == user_id && request_is_pending r.status

abbrev is_invite_only : JoinMode → Bool
is_invite_only JoinMode.invite_only = true
is_invite_only _ = false

abbrev is_open : JoinMode → Bool
is_open JoinMode.open_join = true
is_open _ = false

module _ (db : Database) (payload_hash : Payload → Digest) where
  open db use {find_one, save, exists_by, transaction}

  unfoldable pub save_request : GroupJoinRequest → Store → Store
  save_request r s = record s { join_requests = save same_request r s.join_requests }

  insert_request : GroupJoinRequest → Action Store Unit
  insert_request r s =
      if exists_by (pending_request r.conversation_id r.user_id) s.join_requests
      then (err (unique_violation group_join_requests_pending_uq), s)
      else (ok tt, save_request r s)

  -- A user becomes a member, and the group is told.
  unfoldable pub join : Env → AuthContext → LockedGroup → Uuid → Action Store Unit
  join env auth locked user_id = do
    modify (add_member db env.now locked.conversation user_id Role.member)
    ids ← gets (active_member_ids db locked.conversation.id)
    System.append db payload_hash env auth locked.conversation.id SystemKind.member_joined
        (some user_id) (user_id ∷ ids) 0
    pure tt

  -- findOneByOrFail
  abbrev or_fail : Option ConversationMember → Action Store ConversationMember
  or_fail none s = (err failure, s)
  or_fail (some m) s = (ok m, s)

  join_open : Env → AuthContext → LockedGroup → Uuid → Action Store JoinAnswer
  join_open env auth locked conversation_id = do
    join env auth locked auth.user_id
    found ← gets (λ s.
        find_one (λ m. m.conversation_id == conversation_id && m.user_id == auth.user_id) s.members)
    member ← or_fail found
    checked (require_active_user db auth.user_id)
    pure (joined member)

  ask_to_join : Env → AuthContext → Uuid → Option Text → Action Store JoinAnswer
  unfolding insert_request save_request
  ask_to_join env auth conversation_id message = do
    let row : GroupJoinRequest = record {
      id = env.uuid 0;
      conversation_id = conversation_id;
      user_id = auth.user_id;
      status = JoinRequestStatus.pending;
      message = message;
      reviewer_id = none;
    }
    insert_request row
    checked (require_active_user db auth.user_id)
    pure (requested row)

  unfoldable pub request_join : Env → AuthContext → Uuid → Option Text → Action Store JoinAnswer
  unfolding join_open ask_to_join
  request_join env auth conversation_id message = transaction (do
    validate_with_manager db env.now auth
    locked ← checked (lock_group db auth.user_id conversation_id false)
    throw_if (is_invite_only locked.profile.join_mode) conversation_forbidden 403
    existing ← gets (target_member db conversation_id auth.user_id)
    throw_if (is_some existing) conversation_conflict 409
    (if is_open locked.profile.join_mode
        then join_open env auth locked conversation_id
        else ask_to_join env auth conversation_id message))

  -- The part of `decideJoinRequest` that stands under `decision === "APPROVED"`.
  unfoldable pub apply_decision :
      Env → AuthContext → LockedGroup → GroupJoinRequest → JoinDecision → Action Store Unit
  apply_decision env auth locked r reject_request = pure tt
  apply_decision env auth locked r approve = do
    checked (assert_room db r.conversation_id locked.profile)
    join env auth locked r.user_id

  decide_pending :
      Env
      → AuthContext
      → LockedGroup
      → GroupJoinRequest
      → JoinDecision
      → Action Store GroupJoinRequest
  unfolding apply_decision save_request
  decide_pending env auth locked r decision = do
    let decided : GroupJoinRequest = record r {
      status = status_of decision;
      reviewer_id = some auth.user_id;
    }
    apply_decision env auth locked r decision
    modify (save_request decided)
    checked (require_active_user db r.user_id)
    pure decided

  unfoldable pub decide_body :
      Env → AuthContext → Uuid → JoinDecision → Action Store GroupJoinRequest
  unfolding decide_pending
  decide_body env auth request_id decision = do
    validate_with_manager db env.now auth
    found ← gets (λ s. find_one (λ r. r.id == request_id) s.join_requests)
    r ← or_throw found not_found 404
    (conversation, profile, member) ← checked (lock_as_member db auth.user_id r.conversation_id)
    checked (assert_admin member.role)
    let locked : LockedGroup = record {
      conversation = conversation;
      profile = profile;
      member = some member;
    }
    (if not (request_is_pending r.status)
        then (do checked (require_active_user db r.user_id); pure r)
        else decide_pending env auth locked r decision)

  unfoldable pub decide_join_request :
      Env → AuthContext → Uuid → JoinDecision → Action Store GroupJoinRequest
  unfolding decide_body
  decide_join_request env auth request_id decision =
      transaction (decide_body env auth request_id decision)
