-- ===== src/Conversations/Direct.antt =====
-- apps/im-server/src/modules/conversations/services/conversation-command.service.ts:
-- `createDirect`. A key `low:high` of two UUIDs is the pair of them. The answer is the id of the
-- conversation, which `queries.get` then reads. `others` is what other transactions commit while
-- this one runs, between its look for an active conversation and its writes.
pub mod Uniqueness
use slowchat.Base.{
  ℕ, Bool, true, false, not, ◌&&◌, ◌||◌, ◌==◌, ltb, any, length, if◌then◌else◌, Option, none, some,
  List, [], ◌∷◌,
}
use slowchat.Base.Action.{
  Action, Check, Result, ok, err, Error, conversation_conflict, conversation_forbidden,
  unique_violation, conversations_active_direct_uq, pure, gets, modify, checked, app_error, ◌>>=◌,
  ◌>>◌,
}
use slowchat.Base.Check.{throw_if}
use slowchat.Base.Database.{Database}
use slowchat.Model.{
  Uuid, Time, Store, AuthContext, Conversation, ConversationType, ConversationStatus,
  ConversationMember, ConversationUserState, Role, MemberStatus, Trace, DomainEvent, EventType,
  AggregateType, EventData, is_direct, conversation_is_active, user_is_active, is_user,
  same_conversation, same_state,
}
use slowchat.Sessions.{Env, validate_with_manager}
use slowchat.Views.{to_conversation}
use slowchat.Outbox.Writer
use slowchat.Contacts.Policy.{assert_direct_creation_allowed}

unfoldable pub direct_conversation_key : Uuid → Uuid → Uuid × Uuid
direct_conversation_key left right = if ltb left right then (left, right) else (right, left)

abbrev has_key : Uuid × Uuid → Option (Uuid × Uuid) → Bool
has_key key none = false
has_key (low, high) (some (low', high')) = low' == low && high' == high

-- { directKey, type: "DIRECT", status: "ACTIVE" }
abbrev pub active_direct : Uuid × Uuid → Conversation → Bool
active_direct key c =
    has_key key c.direct_key && is_direct c.type && conversation_is_active c.status

abbrev pub new_direct : Env → Uuid → Uuid × Uuid → Conversation
new_direct env creator_id key = record {
  id = env.uuid 0;
  type = ConversationType.direct;
  direct_key = some key;
  creator_id = creator_id;
  owner_id = none;
  title = none;
  avatar_attachment_id = none;
  last_seq = 0;
  last_message_id = none;
  last_message_at = none;
  member_count = 2;
  status = ConversationStatus.active;
  version = 1;
  deleted_at = none;
  created_at = env.now;
  updated_at = env.now;
}

abbrev direct_member : Env → Uuid → ConversationMember
direct_member env user_id = record {
  conversation_id = env.uuid 0;
  user_id = user_id;
  role = Role.member;
  status = MemberStatus.active;
  nickname = none;
  joined_seq = 0;
  joined_at = env.now;
  left_at = none;
  mute_until = none;
}

-- The state of a member who has seen everything up to `seq`.
abbrev pub fresh_state : Time → Uuid → Uuid → ℕ → ConversationUserState
fresh_state now conversation_id user_id seq = record {
  conversation_id = conversation_id;
  user_id = user_id;
  last_delivered_seq = seq;
  last_read_seq = seq;
  clear_before_seq = 0;
  unread_count = 0;
  mention_count = 0;
  pinned_rank = none;
  muted = false;
  archived_at = none;
  hidden_at = none;
  updated_at = now;
}

-- "conversation.created.v1"
abbrev pub conversation_created_event :
    Env → AuthContext → Conversation → ConversationUserState → List Uuid → Trace → DomainEvent
conversation_created_event env auth conversation state audience trace = record {
  event_id = env.uuid 1;
  event_type = EventType.conversation_created;
  event_version = 1;
  occurred_at = env.now;
  aggregate_type = AggregateType.conversation;
  aggregate_id = conversation.id;
  actor_user_id = auth.user_id;
  audience_user_ids = audience;
  trace = trace;
  payload = EventData.conversation_data (to_conversation conversation state);
}

abbrev is_direct_unique_violation : Error → Bool
is_direct_unique_violation (unique_violation conversations_active_direct_uq) = true
is_direct_unique_violation _ = false

module _ (db : Database) where
  open db use {find_one, find_by, exists_by, save, insert, transaction}

  unfoldable pub find_direct : Uuid × Uuid → Store → Option Uuid
  find_direct key s = elim (find_one (active_direct key) s.conversations) [
    | none ↦ none
    | some c ↦ some c.id
  ]

  -- Both are active users of the ordinary kind.
  assert_both_users : Uuid → Uuid → Check Store Unit
  assert_both_users user_id recipient_id s =
      let users = find_by (λ u. u.id == user_id || u.id == recipient_id) s.users in
      throw_if
        (not (length users == 2)
          || any (λ u. not (user_is_active u.status) || not (is_user u.user_type)) users)
        conversation_forbidden 403 s

  -- save(conversation), under the unique index of active direct conversations.
  insert_direct : Conversation → Uuid × Uuid → Action Store Unit
  insert_direct c key s =
      if exists_by (active_direct key) s.conversations
      then (err (unique_violation conversations_active_direct_uq), s)
      else (ok tt, record s { conversations = save same_conversation c s.conversations })

  add_members : Env → Uuid → Uuid → Store → Store
  add_members env user_id recipient_id s = record s {
    members =
        insert (direct_member env recipient_id) (insert (direct_member env user_id) s.members);
    states =
        save same_state (fresh_state env.now (env.uuid 0) recipient_id 0)
          (save same_state (fresh_state env.now (env.uuid 0) user_id 0) s.states);
  }

  unfoldable pub create_new : Env → AuthContext → Uuid → Trace → Action Store Uuid
  unfolding assert_both_users insert_direct add_members
  create_new env auth recipient_id trace = do
    checked (assert_both_users auth.user_id recipient_id)
    checked (assert_direct_creation_allowed db auth.user_id recipient_id)
    let key : Uuid × Uuid = direct_conversation_key auth.user_id recipient_id
    let conversation : Conversation = new_direct env auth.user_id key
    insert_direct conversation key
    modify (add_members env auth.user_id recipient_id)
    Writer.append db env.now (
        conversation_created_event env auth conversation
          (fresh_state env.now (env.uuid 0) auth.user_id 0) (auth.user_id ∷ recipient_id ∷ [])
          trace)
    pure (env.uuid 0)

  unfoldable pub direct_body :
      Env → (Store → Store) → AuthContext → Uuid → Trace → Action Store Uuid
  direct_body env others auth recipient_id trace = do
    validate_with_manager db env.now auth
    existing ← gets (find_direct (direct_conversation_key auth.user_id recipient_id))
    modify others
    elim existing [ some id ↦ pure id | none ↦ create_new env auth recipient_id trace ]

  -- catch (error): the store is the one before the transaction, with the commits of the others.
  recover_direct : (Store → Store) → Uuid × Uuid → Result Uuid × Store → Result Uuid × Store
  recover_direct others key (ok id, s) = (ok id, s)
  recover_direct others key (err e, s) =
      if is_direct_unique_violation e
      then (elim (find_direct key (others s)) [ none ↦ err e | some id ↦ ok id ], others s)
      else (err e, others s)

  unfoldable pub create_direct :
      Env → (Store → Store) → AuthContext → Uuid → Trace → Action Store Uuid
  unfolding direct_body recover_direct
  create_direct env others auth recipient_id trace s =
      if auth.user_id == recipient_id
      then (err (app_error conversation_conflict 409), others s)
      else recover_direct others (direct_conversation_key auth.user_id recipient_id)
          (transaction (direct_body env others auth recipient_id trace) s)
