-- ===== src/Messages/Send/Permission.antt =====
-- apps/im-server/src/modules/messages/services/message-command.service.ts: whose message `sendText`
-- accepts.
use slowchat.Base.{
  ◌≡◌, ◌≢◌, ap, ◌∙◌, sym, Bool, true, false, not, some, List, arith, ◌==◌, Among, first, select,
  Option-cases, inl, inr,
}
use slowchat.Base.Search.{passes_of_first, Among-of_first, of_select}
use slowchat.Base.Action.{ok}
use slowchat.Base.Database.{Database}
use slowchat.Model.{
  Uuid, Time, Digest, Store, AuthContext, Conversation, ConversationMember, Trace,
  active_conversation, active_in, is_direct,
}
use slowchat.Sessions.{Env, session_is_good}
use slowchat.Contacts.Policy.{blocks_between, assert_direct_messaging_allowed, assert_not_blocked}
use slowchat.Messages.Guards.{SendMessageRequest, assert_may_send, is_muted}
use slowchat.Messages.Send.{send_text, MessageAccepted}
use slowchat.Messages.Send.Accepted.{Outcome, unchanged, delivered, send_text-Outcome}

module _ (db : Database) (now : Time) (sender_id conversation_id : Uuid)
    (input : SendMessageRequest) (s : Store) where
  -- The sender is an active member of an active conversation, and not muted; the other one of a
  -- direct conversation and the sender do not block each other.
  pub record Permission : Type 0 where
    pub conversation : Conversation
    pub sender : ConversationMember
    pub is_there :
        db.find_one (active_conversation conversation_id) s.conversations ≡ some conversation
    pub among : Among sender s.members
    pub is_sender : sender.user_id ≡ sender_id
    pub joined : active_in conversation_id sender ≡ true
    pub may_speak : is_muted now sender ≡ false
    pub is_welcome :
        is_direct conversation.type ≡ true
        → (recipient : ConversationMember) × Among recipient s.members
          × (active_in conversation_id recipient ≡ true)
          × (recipient.user_id ≢ sender_id)
          × (db.exists_by (blocks_between sender_id recipient.user_id) s.blocks ≡ false)

  member_facts :
      (p : ConversationMember → Bool) (m : ConversationMember)
      → first p (db.find_by (active_in conversation_id) s.members) ≡ some m
      → Among m s.members × (active_in conversation_id m ≡ true) × (p m ≡ true)
  member_facts p m e =
      let rows = select (active_in conversation_id) s.members in
      let found : first p rows ≡ some m =
        ap (first p) (sym (db.find_by_lem (active_in conversation_id) s.members)) ∙ e in
      let among = Among-of_first p rows m found in
      let facts =
        of_select (active_in conversation_id) s.members m (Among-of_first p rows m found) in
      (facts.0, facts.1, passes_of_first p rows m found)

  pub assert_may_send-Permission :
      (c : Conversation) (ids : List Uuid)
      → assert_may_send db now sender_id conversation_id input s ≡ ok (c, ids)
      → Permission
  unfolding assert_may_send assert_direct_messaging_allowed assert_not_blocked
  assert_may_send-Permission c ids h =
      let members = db.find_by (active_in conversation_id) s.members in
      elim (Option-cases (first (λ m. m.user_id == sender_id) members)) [
        | inl e ↦ absurd (ground arith)
        | inr (m, e) ↦ record {
          conversation = c;
          sender = m;
          is_there = ground arith;
          among = (member_facts (λ m. m.user_id == sender_id) m e).0;
          is_sender = ground (arith, (member_facts (λ m. m.user_id == sender_id) m e).2);
          joined = (member_facts (λ m. m.user_id == sender_id) m e).1;
          may_speak = ground arith;
          is_welcome = λ direct.
              elim (Option-cases (first (λ m. not (m.user_id == sender_id)) members)) [
                | inl f ↦ absurd (ground arith)
                | inr (r, f) ↦
                    let facts = member_facts (λ m. not (m.user_id == sender_id)) r f in
                    (r, facts.0, facts.1, (λ same. ground (arith, facts.2, same)), ground arith)
              ];
        }
      ]

module _ (db : Database) (content_hash : Uuid → SendMessageRequest → Digest) (env : Env)
    (auth : AuthContext) (conversation_id : Uuid) (input : SendMessageRequest) (trace : Trace) where
  -- A new message is accepted only in a good session of an active member of an active conversation
  -- who is not muted, and in a direct conversation only if the sender and the other member do not
  -- block each other. The tables are those after what other transactions committed meanwhile; the
  -- session is judged before.
  pub send_text-Permission :
      (others : Store → Store) (s s' : Store) (r : MessageAccepted)
      → send_text db content_hash env others auth conversation_id input trace s ≡ (ok r, s')
      → r.duplicate ≡ false
      → (session_is_good db env.now auth s ≡ true)
        × Permission db env.now auth.user_id conversation_id input (others s)
  send_text-Permission others s s' r answered new =
      finish (send_text-Outcome db content_hash env auth conversation_id input trace others s)
    where
      finish :
          Outcome db content_hash env auth conversation_id input trace others s
            (send_text db content_hash env others auth conversation_id input trace s)
          → (session_is_good db env.now auth s ≡ true)
            × Permission db env.now auth.user_id conversation_id input (others s)
      finish (unchanged e repeats) = absurd (ground (arith, answered, repeats, new))
      finish (delivered c ids m good _ may _ _) = (
        good,
        assert_may_send-Permission db env.now auth.user_id conversation_id input (others s) c ids
            may,
      )
