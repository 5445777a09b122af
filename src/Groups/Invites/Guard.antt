-- ===== src/Groups/Invites/Guard.antt =====
-- apps/im-server/src/modules/groups/services/group-command.service.ts: the checks of `invite`, and the
-- invite that `decideInvite` finds.
use slowchat.Base.{not, ◌&&◌, ◌||◌, ◌==◌, is_some, leb}
use slowchat.Base.Action.{Check, conversation_forbidden, conversation_conflict, not_found}
use slowchat.Base.Check.{pure, asks, or_throw, throw_if, ◌>>=◌, ◌>>◌}
use slowchat.Base.Database.{Database}
use slowchat.Model.{Uuid, Store, GroupInvite, active_in, is_member, is_user}
use slowchat.Groups.Locking.{lock_as_member, require_active_user, target_member}

module _ (db : Database) where
  unfoldable pub invite_check : Uuid → Uuid → Uuid → Check Store Uuid
  invite_check user_id conversation_id invitee_id = do
    (_, profile, member) ← lock_as_member db user_id conversation_id
    throw_if (is_member member.role && not profile.allow_member_invites) conversation_forbidden 403
    target ← require_active_user db invitee_id
    throw_if (not (is_user target.user_type) || target.id == user_id) conversation_forbidden 403
    existing ← asks (target_member db conversation_id invitee_id)
    throw_if (is_some existing) conversation_conflict 409
    count ← asks (λ s. db.count_by (active_in conversation_id) s.members)
    throw_if (leb profile.max_members count) conversation_conflict 409
    pure target.id

  unfoldable pub find_invite : Uuid → Uuid → Check Store GroupInvite
  find_invite user_id invite_id = do
    found ← asks (λ s. db.find_one (λ i. i.id == invite_id) s.invites)
    i ← or_throw found not_found 404
    throw_if (not (i.invitee_id == user_id)) not_found 404
    pure i
