-- ===== src/Model/Tables.antt =====
-- The tables that the services share.
use slowchat.Base.{List}
use slowchat.Model.Identity.{
  User, Device, AuthSession, RefreshToken, UserCredential, AuthChallenge, AuthLoginAttempt,
}
use slowchat.Model.Chat.{
  Conversation, ConversationMember, ConversationUserState, Message, MessageReaction,
  MessageUserHide,
}
use slowchat.Model.Group.{GroupProfile, GroupJoinRequest, GroupInvite}
use slowchat.Model.Contact.{UserPrivacySettings, FriendRequest, Friendship, Block, Report}
use slowchat.Model.Media.{Attachment}
use slowchat.Model.Event.{OutboxEvent}

pub record Store : Type 0 where
  pub users : List User
  pub devices : List Device
  pub sessions : List AuthSession
  pub refresh_tokens : List RefreshToken
  pub credentials : List UserCredential
  pub challenges : List AuthChallenge
  pub login_attempts : List AuthLoginAttempt
  pub privacy_settings : List UserPrivacySettings
  pub friend_requests : List FriendRequest
  pub friendships : List Friendship
  pub blocks : List Block
  pub reports : List Report
  pub conversations : List Conversation
  pub members : List ConversationMember
  pub states : List ConversationUserState
  pub messages : List Message
  pub reactions : List MessageReaction
  pub hides : List MessageUserHide
  pub profiles : List GroupProfile
  pub join_requests : List GroupJoinRequest
  pub invites : List GroupInvite
  pub attachments : List Attachment
  pub outbox : List OutboxEvent
