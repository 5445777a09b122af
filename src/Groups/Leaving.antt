-- ===== src/Groups/Leaving.antt =====
-- apps/im-server/src/modules/groups/services/group-command.service.ts: `remove` and `leave`.
pub mod Outcomes
use slowchat.Base.{Bool, ◌&&◌, ◌||◌, some, ◌∷◌}
use slowchat.Base.Action.{
  Action, conversation_forbidden, pure, gets, modify, throw_if, or_throw, checked, ◌>>=◌, ◌>>◌,
}
use slowchat.Base.Database.{Database}
use slowchat.Model.{
  Uuid, Time, Digest, Store, AuthContext, ConversationMember, MemberStatus, Role, Payload,
  SystemKind, is_owner, is_admin,
}
use slowchat.Sessions.{Env, validate_with_manager}
use slowchat.Groups.Locking.{lock_as_member, assert_admin, active_member_ids, target_member}
use slowchat.Groups.Joining.{save_member, decrement_member_count}
use slowchat.Groups.System

abbrev pub gone : Time → MemberStatus → ConversationMember → ConversationMember
gone now status m = record m { status = status; left_at = some now }

-- The roles whose removal by an `actor` is refused.
abbrev pub may_not_remove : Role → Role → Bool
may_not_remove actor target = is_owner target || (is_admin actor && is_admin target)

module _ (db : Database) where
  -- A member's row and the count of members, when one goes.
  unfoldable pub drop_member : Time → Uuid → MemberStatus → ConversationMember → Action Store Unit
  drop_member now conversation_id status m = do
    modify (save_member db (gone now status m))
    decrement_member_count db conversation_id

module _ (db : Database) (payload_hash : Payload → Digest) where
  open db use {transaction}

  unfoldable pub remove_body : Env → AuthContext → Uuid → Uuid → Action Store Unit
  unfolding drop_member
  remove_body env auth conversation_id target_user_id = do
    validate_with_manager db env.now auth
    (_, _, member) ← checked (lock_as_member db auth.user_id conversation_id)
    checked (assert_admin member.role)
    found ← gets (target_member db conversation_id target_user_id)
    target ← or_throw found conversation_forbidden 403
    throw_if (may_not_remove member.role target.role) conversation_forbidden 403
    drop_member db env.now conversation_id MemberStatus.removed target
    ids ← gets (active_member_ids db conversation_id)
    System.append db payload_hash env auth conversation_id SystemKind.member_removed
        (some target_user_id) (target_user_id ∷ ids) 0
    pure tt

  unfoldable pub remove : Env → AuthContext → Uuid → Uuid → Action Store Unit
  unfolding remove_body
  remove env auth conversation_id target_user_id =
      transaction (remove_body env auth conversation_id target_user_id)

  unfoldable pub leave_body : Env → AuthContext → Uuid → Action Store Unit
  unfolding drop_member
  leave_body env auth conversation_id = do
    validate_with_manager db env.now auth
    (_, _, member) ← checked (lock_as_member db auth.user_id conversation_id)
    throw_if (is_owner member.role) conversation_forbidden 403
    drop_member db env.now conversation_id MemberStatus.left member
    ids ← gets (active_member_ids db conversation_id)
    System.append db payload_hash env auth conversation_id SystemKind.member_left
        (some auth.user_id) ids 0
    pure tt

  unfoldable pub leave : Env → AuthContext → Uuid → Action Store Unit
  unfolding leave_body
  leave env auth conversation_id = transaction (leave_body env auth conversation_id)
