-- ===== src/Groups/Invites.antt =====
-- apps/im-server/src/modules/groups/services/group-command.service.ts: `invite` and `decideInvite`.
pub mod Guard
use slowchat.Base.{
  ℕ, Bool, true, false, not, ◌&&◌, ◌||◌, ◌==◌, is_some, Option, none, some, List, [], ◌∷◌,
  if◌then◌else◌,
}
use slowchat.Base.Action.{
  Action, Check, ok, err, conversation_forbidden, conversation_conflict, not_found,
  unique_violation, group_invites_pending_uq, pure, gets, modify, checked, ◌>>=◌, ◌>>◌,
}
use slowchat.Base.Database.{Database}
use slowchat.Model.{
  Uuid, Time, Digest, Store, AuthContext, Conversation, GroupProfile, GroupInvite, InviteStatus,
  Role, Payload, SystemKind, invite_is_pending,
}
use slowchat.Sessions.{Env, validate_with_manager}
use slowchat.Groups.Locking.{lock_group, assert_room, active_member_ids}
use slowchat.Groups.Joining.{add_member}
use slowchat.Groups.System
use slowchat.Groups.Invites.Guard.{invite_check, find_invite}

pub data InviteDecision : Type 0 where
  accept reject_invite : InviteDecision

abbrev pub same_invite : GroupInvite → GroupInvite → Bool
same_invite a b = a.id == b.id

-- (conversation_id, invitee_id) WHERE status = 'PENDING', which is unique
abbrev pub pending_invite : Uuid → Uuid → GroupInvite → Bool
pending_invite conversation_id invitee_id i =
    i.conversation_id == conversation_id && i.invitee_id == invitee_id && invite_is_pending i.status

module _ (db : Database) (payload_hash : Payload → Digest) where
  open db use {save, exists_by, transaction}

  insert_invite : GroupInvite → Action Store Unit
  insert_invite i s =
      if exists_by (pending_invite i.conversation_id i.invitee_id) s.invites
      then (err (unique_violation group_invites_pending_uq), s)
      else (ok tt, record s { invites = save same_invite i s.invites })

  unfoldable pub save_invite : GroupInvite → Store → Store
  save_invite i s = record s { invites = save same_invite i s.invites }

  unfoldable pub invite : Env → AuthContext → Uuid → Uuid → Action Store GroupInvite
  unfolding insert_invite
  invite env auth conversation_id user_id = transaction (do
    validate_with_manager db env.now auth
    target_id ← checked (invite_check db auth.user_id conversation_id user_id)
    let row : GroupInvite = record {
      id = env.uuid 0;
      conversation_id = conversation_id;
      inviter_id = auth.user_id;
      invitee_id = target_id;
      status = InviteStatus.pending;
    }
    insert_invite row
    pure row)

  -- The invitee joins: the last part of `decideInvite`.
  unfoldable pub accept_invite : Env → AuthContext → GroupInvite → Action Store GroupInvite
  unfolding save_invite
  accept_invite env auth i = do
    locked ← checked (lock_group db auth.user_id i.conversation_id false)
    checked (assert_room db i.conversation_id locked.profile)
    modify (add_member db env.now locked.conversation auth.user_id Role.member)
    let decided : GroupInvite = record i { status = InviteStatus.accepted }
    modify (save_invite decided)
    ids ← gets (active_member_ids db locked.conversation.id)
    System.append db payload_hash env auth locked.conversation.id SystemKind.member_joined
        (some auth.user_id) (auth.user_id ∷ ids) 0
    pure decided

  unfoldable pub decide_body :
      Env → AuthContext → GroupInvite → InviteDecision → Action Store GroupInvite
  unfolding save_invite
  decide_body env auth i decision =
      if not (invite_is_pending i.status) then pure i else elim decision [
        | reject_invite ↦ (do
          let decided : GroupInvite = record i { status = InviteStatus.rejected }
          modify (save_invite decided)
          pure decided)
        | accept ↦ accept_invite env auth i
      ]

  unfoldable pub decide_invite :
      Env → AuthContext → Uuid → InviteDecision → Action Store GroupInvite
  unfolding decide_body
  decide_invite env auth invite_id decision = transaction (do
    validate_with_manager db env.now auth
    i ← checked (find_invite db auth.user_id invite_id)
    decide_body env auth i decision)
