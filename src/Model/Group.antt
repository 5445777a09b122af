-- ===== src/Model/Group.antt =====
-- Group profiles, join requests and invites: apps/im-server/src/modules/groups/persistence/entities.
use slowchat.Base.{ℕ, Bool, true, false, Option}
use slowchat.Model.Identity.{Uuid, Text}

pub data JoinMode : Type 0 where
  invite_only request open_join : JoinMode

pub record GroupProfile : Type 0 where
  pub conversation_id : Uuid
  pub title : Text
  pub announcement : Option Text
  pub max_members : ℕ
  pub join_mode : JoinMode
  pub allow_member_invites : Bool
  pub all_members_muted : Bool
  pub version : ℕ

pub data JoinRequestStatus : Type 0 where
  pending approved rejected cancelled : JoinRequestStatus

pub record GroupJoinRequest : Type 0 where
  pub id : Uuid
  pub conversation_id : Uuid
  pub user_id : Uuid
  pub status : JoinRequestStatus
  pub message : Option Text
  pub reviewer_id : Option Uuid

pub data InviteStatus : Type 0 where
  pending accepted rejected cancelled : InviteStatus

pub record GroupInvite : Type 0 where
  pub id : Uuid
  pub conversation_id : Uuid
  pub inviter_id : Uuid
  pub invitee_id : Uuid
  pub status : InviteStatus

abbrev pub request_is_pending : JoinRequestStatus → Bool
request_is_pending JoinRequestStatus.pending = true
request_is_pending _ = false

abbrev pub invite_is_pending : InviteStatus → Bool
invite_is_pending InviteStatus.pending = true
invite_is_pending _ = false
