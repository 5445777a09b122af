-- ===== src/Contacts/Policy.antt =====
-- apps/im-server/src/modules/contacts/services/contact-interaction-policy.service.ts: who may open a
-- direct conversation with whom, and write in it.
use slowchat.Base.{Bool, false, not, ◌&&◌, ◌||◌, Option, none, some, ◌==◌}
use slowchat.Base.Action.{Check, ErrorCode, conversation_forbidden, message_forbidden}
use slowchat.Base.Check.{throw_if, asks, ◌>>=◌, ◌>>◌}
use slowchat.Base.Database.{Database}
use slowchat.Model.{Uuid, Store, Block, Friendship, UserPrivacySettings}

-- { userId: left, blockedUserId: right } or { userId: right, blockedUserId: left }
abbrev pub blocks_between : Uuid → Uuid → Block → Bool
blocks_between left right b =
    (b.user_id == left && b.blocked_user_id == right)
    || (b.user_id == right && b.blocked_user_id == left)

-- { userId, contactUserId }
abbrev pub friendship_of : Uuid → Uuid → Friendship → Bool
friendship_of user_id contact_user_id f =
    f.user_id == user_id && f.contact_user_id == contact_user_id

-- privacy?.allowStrangerMessages
abbrev allows_strangers : Option UserPrivacySettings → Bool
allows_strangers none = false
allows_strangers (some p) = p.allow_stranger_messages

module _ (db : Database) where
  open db use {exists_by, find_one}

  unfoldable pub assert_not_blocked : Uuid → Uuid → ErrorCode → Check Store Unit
  assert_not_blocked left right code store =
      throw_if (exists_by (blocks_between left right) store.blocks) code 403 store

  unfoldable pub assert_direct_messaging_allowed : Uuid → Uuid → Check Store Unit
  unfolding assert_not_blocked
  assert_direct_messaging_allowed sender_id recipient_id =
      assert_not_blocked sender_id recipient_id message_forbidden

  unfoldable pub assert_direct_creation_allowed : Uuid → Uuid → Check Store Unit
  unfolding assert_not_blocked
  assert_direct_creation_allowed requester_id recipient_id = do
    assert_not_blocked requester_id recipient_id conversation_forbidden
    contact ← asks (λ s. exists_by (friendship_of requester_id recipient_id) s.friendships)
    privacy ← asks (λ s. find_one (λ p. p.user_id == recipient_id) s.privacy_settings)
    throw_if (not contact && not (allows_strangers privacy)) conversation_forbidden 403
