-- ===== src/Conversations/Membership/Found.antt =====
-- apps/im-server/src/modules/conversations/services/conversation-command.service.ts: what
-- `lockMembership` has found.
use slowchat.Base.{◌≡◌, some, arith}
use slowchat.Base.Action.{ok}
use slowchat.Base.Database.{Database}
use slowchat.Model.{Uuid, Store, ConversationMember, active_conversation, active_member, state_of}
use slowchat.Conversations.Membership.{Membership, lock_membership}

module _ (db : Database) (user_id conversation_id : Uuid) (s : Store) (found : Membership) where
  pub lock_membership-conversation :
      lock_membership db user_id conversation_id s ≡ ok found
      → db.find_one (active_conversation conversation_id) s.conversations ≡ some found.conversation
  unfolding lock_membership
  lock_membership-conversation h = ground arith

  pub lock_membership-state :
      lock_membership db user_id conversation_id s ≡ ok found
      → db.find_one (state_of conversation_id user_id) s.states ≡ some found.state
  unfolding lock_membership
  lock_membership-state h = ground arith

  pub lock_membership-member :
      lock_membership db user_id conversation_id s ≡ ok found
      → (m : ConversationMember) × (db.find_one (active_member conversation_id user_id) s.members
          ≡ some m)
  unfolding lock_membership
  lock_membership-member h = ground arith
