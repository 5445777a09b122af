-- ===== src/Conversations/Settings.antt =====
-- apps/im-server/src/modules/conversations/services/conversation-command.service.ts:
-- `updateSettings` and `hide`.
use slowchat.Base.{Bool, true, false, Option, none, some, [], ◌∷◌}
use slowchat.Base.Action.{Action, modify, checked, ◌>>=◌, ◌>>◌}
use slowchat.Base.Database.{Database}
use slowchat.Model.{
  Uuid, Time, Store, AuthContext, Conversation, ConversationUserState, Trace, DomainEvent,
  EventType, AggregateType, EventData, same_state,
}
use slowchat.Sessions.{Env, validate_with_manager}
use slowchat.Views.{to_conversation}
use slowchat.Outbox.Writer
use slowchat.Conversations.Membership.{lock_membership}

pub record UpdateConversationSettings : Type 0 where
  pub pinned : Option Bool
  pub muted : Option Bool
  pub archived : Option Bool

-- if (input.flag !== undefined) column = input.flag ? now : null
abbrev stamp : Time → Option Bool → Option Time → Option Time
stamp now none old = old
stamp now (some true) old = some now
stamp now (some false) old = none

abbrev set_flag : Option Bool → Bool → Bool
set_flag none old = old
set_flag (some b) old = b

unfoldable pub with_settings :
    Time → UpdateConversationSettings → ConversationUserState → ConversationUserState
with_settings now input st = record st {
  pinned_rank = stamp now input.pinned st.pinned_rank;
  muted = set_flag input.muted st.muted;
  archived_at = stamp now input.archived st.archived_at;
  updated_at = now;
}

-- "conversation.updated.v1", which goes to the user alone
abbrev pub conversation_updated_event :
    Env → AuthContext → Conversation → ConversationUserState → Trace → DomainEvent
conversation_updated_event env auth conversation state trace = record {
  event_id = env.uuid 0;
  event_type = EventType.conversation_updated;
  event_version = 1;
  occurred_at = env.now;
  aggregate_type = AggregateType.conversation;
  aggregate_id = conversation.id;
  actor_user_id = auth.user_id;
  audience_user_ids = auth.user_id ∷ [];
  trace = trace;
  payload = EventData.conversation_data (to_conversation conversation state);
}

module _ (db : Database) where
  open db use {save, transaction}

  unfoldable pub save_state : ConversationUserState → Store → Store
  save_state state s = record s { states = save same_state state s.states }

  unfoldable pub update_settings :
      Env → AuthContext → Uuid → UpdateConversationSettings → Trace → Action Store Unit
  unfolding with_settings save_state
  update_settings env auth conversation_id input trace = transaction (do
    validate_with_manager db env.now auth
    found ← checked (lock_membership db auth.user_id conversation_id)
    let state : ConversationUserState = with_settings env.now input found.state
    modify (save_state state)
    Writer.append db env.now (conversation_updated_event env auth found.conversation state trace))

  unfoldable pub hide : Env → AuthContext → Uuid → Action Store Unit
  unfolding save_state
  hide env auth conversation_id = transaction (do
    validate_with_manager db env.now auth
    found ← checked (lock_membership db auth.user_id conversation_id)
    modify (save_state (record found.state { hidden_at = some env.now; updated_at = env.now })))
