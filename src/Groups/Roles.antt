-- ===== src/Groups/Roles.antt =====
-- apps/im-server/src/modules/groups/services/group-command.service.ts: `updateMember`.
use slowchat.Base.{not, ◌&&◌, ◌||◌, is_some, or_else, Option, some, if◌then◌else◌}
use slowchat.Base.Action.{
  Action, not_found, conversation_forbidden, pure, gets, modify, throw_if, or_throw, checked, ◌>>=◌,
  ◌>>◌,
}
use slowchat.Base.Database.{Database}
use slowchat.Model.{
  Uuid, Time, Digest, Store, AuthContext, ConversationMember, Role, Payload, SystemKind, is_owner,
  is_member,
}
use slowchat.Sessions.{Env, validate_with_manager}
use slowchat.Groups.Locking.{lock_as_member, active_member_ids, target_member, require_active_user}
use slowchat.Groups.Joining.{save_member}
use slowchat.Groups.System

-- `role` and `muteUntil` are set where they are given.
abbrev pub changed_member :
    Option Role → Option (Option Time) → ConversationMember → ConversationMember
changed_member role mute_until m = record m {
  role = or_else role m.role;
  mute_until = or_else mute_until m.mute_until;
}

module _ (db : Database) (payload_hash : Payload → Digest) where
  open db use {transaction}

  -- The second test reads the target's role as the first assignment left it.
  unfoldable pub update_member :
      Env
      → AuthContext
      → Uuid
      → Uuid
      → Option Role
      → Option (Option Time)
      → Action Store ConversationMember
  update_member env auth conversation_id target_user_id role mute_until = transaction (do
    validate_with_manager db env.now auth
    (_, _, member) ← checked (lock_as_member db auth.user_id conversation_id)
    found ← gets (target_member db conversation_id target_user_id)
    target ← or_throw found not_found 404
    throw_if (is_some role && (not (is_owner member.role) || is_owner target.role))
        conversation_forbidden 403
    throw_if (is_some mute_until && (is_member member.role || is_owner (or_else role target.role)))
        conversation_forbidden 403
    let changed : ConversationMember = changed_member role mute_until target
    modify (save_member db changed)
    ids ← gets (active_member_ids db conversation_id)
    System.append db payload_hash env auth conversation_id
        (if is_some role then SystemKind.admin_updated else SystemKind.mute_updated)
        (some target_user_id) ids 0
    checked (require_active_user db changed.user_id)
    pure changed)
