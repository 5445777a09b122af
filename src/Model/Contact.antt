-- ===== src/Model/Contact.antt =====
-- Friend requests, friendships, blocks and privacy settings:
-- apps/im-server/src/modules/contacts/persistence/entities and user-privacy-settings.entity.ts.
use slowchat.Base.{Bool, Option}
use slowchat.Model.Identity.{Uuid, Text}

pub data Audience : Type 0 where
  everyone contacts nobody : Audience

pub record UserPrivacySettings : Type 0 where
  pub user_id : Uuid
  pub search_audience : Audience
  pub friend_request_audience : Audience
  pub group_invite_audience : Audience
  pub online_status_audience : Audience
  pub last_seen_audience : Audience
  pub allow_stranger_messages : Bool
  pub allow_bot_direct_messages : Bool

pub data FriendRequestStatus : Type 0 where
  pending accepted rejected cancelled : FriendRequestStatus

pub record FriendRequest : Type 0 where
  pub id : Uuid
  pub requester_id : Uuid
  pub recipient_id : Uuid
  pub pair_low : Uuid
  pub pair_high : Uuid
  pub status : FriendRequestStatus
  pub message : Option Text

pub record Friendship : Type 0 where
  pub user_id : Uuid
  pub contact_user_id : Uuid
  pub remark : Option Text

pub record Block : Type 0 where
  pub user_id : Uuid
  pub blocked_user_id : Uuid

pub data ReportCategory : Type 0 where
  spam harassment impersonation other : ReportCategory

-- `status` is always OPEN.
pub record Report : Type 0 where
  pub id : Uuid
  pub reporter_id : Uuid
  pub target_user_id : Uuid
  pub category : ReportCategory
  pub description : Text
