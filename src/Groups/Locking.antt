-- ===== src/Groups/Locking.antt =====
-- apps/im-server/src/modules/groups/services/group-command.service.ts: the reads and checks that the
-- commands share (`lockGroup`, `requireActiveUser`, `assertAdmin`, `activeMemberIds`).
use slowchat.Base.{Bool, true, not, ◌&&◌, ◌==◌, leb, is_some, Option, List, map}
use slowchat.Base.Action.{
  Check, failure, conversation_not_found, conversation_forbidden, conversation_conflict, not_found,
}
use slowchat.Base.Check.{pure, asks, or_throw, or_raise, throw_if, ◌>>=◌, ◌>>◌}
use slowchat.Base.Database.{Database}
use slowchat.Model.{
  Uuid, Store, User, Conversation, ConversationMember, GroupProfile, Role, is_group, is_owner,
  is_admin, conversation_is_active, user_is_active, active_member, active_in,
}

pub record LockedGroup : Type 0 where
  pub conversation : Conversation
  pub profile : GroupProfile
  pub member : Option ConversationMember

-- { id, type: "GROUP", status: "ACTIVE" }
abbrev pub active_group : Uuid → Conversation → Bool
active_group id c = c.id == id && is_group c.type && conversation_is_active c.status

module _ (db : Database) where
  open db use {find_one, find_by, count_by}

  unfoldable pub lock_group : Uuid → Uuid → Bool → Check Store LockedGroup
  lock_group user_id conversation_id require_member = do
    found ← asks (λ s. find_one (active_group conversation_id) s.conversations)
    described ← asks (λ s. find_one (λ p. p.conversation_id == conversation_id) s.profiles)
    member ← asks (λ s. find_one (active_member conversation_id user_id) s.members)
    conversation ← or_throw found conversation_not_found 404
    profile ← or_throw described conversation_not_found 404
    throw_if (require_member && not (is_some member)) conversation_not_found 404
    throw_if (require_member && not (is_some member)) conversation_forbidden 403
    pure (record { conversation = conversation; profile = profile; member = member })

  -- A group with the caller's membership: member! of `lockGroup`.
  unfoldable pub lock_as_member :
      Uuid → Uuid → Check Store (Conversation × GroupProfile × ConversationMember)
  unfolding lock_group
  lock_as_member user_id conversation_id = do
    locked ← lock_group user_id conversation_id true
    member ← or_raise locked.member failure
    pure (locked.conversation, locked.profile, member)

  unfoldable pub require_active_user : Uuid → Check Store User
  require_active_user user_id = do
    found ← asks (λ s. find_one (λ u. u.id == user_id && user_is_active u.status) s.users)
    or_throw found not_found 404

  abbrev pub active_member_ids : Uuid → Store → List Uuid
  active_member_ids conversation_id s =
      map (λ m. m.user_id) (find_by (active_in conversation_id) s.members)

  -- if (count >= profile.maxMembers) throw …
  unfoldable pub assert_room : Uuid → GroupProfile → Check Store Unit
  assert_room conversation_id profile = do
    count ← asks (λ s. count_by (active_in conversation_id) s.members)
    throw_if (leb profile.max_members count) conversation_conflict 409

  -- { conversationId, userId, status: "ACTIVE" } among the members
  abbrev pub target_member : Uuid → Uuid → Store → Option ConversationMember
  target_member conversation_id user_id s =
      find_one (active_member conversation_id user_id) s.members

module _ {S : Type 0} where
  unfoldable pub assert_admin : Role → Check S Unit
  assert_admin role =
      throw_if (not (is_owner role) && not (is_admin role)) conversation_forbidden 403
