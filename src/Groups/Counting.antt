-- ===== src/Groups/Counting.antt =====
-- apps/im-server/src/modules/groups/services: `member_count` of a conversation against the rows of
-- `conversation_members`, over the writes that the commands share.
pub mod Leaving
pub mod Joining
pub mod Decisions
use slowchat.Base.{
  ℕ, ◌+◌, ◌≡◌, refl, sym, ap, ◌∙◌, Bool, true, false, Option, none, some, List, [], ◌∷◌, arith, inl,
  inr, ◌==◌, Among, if◌then◌else◌, Bool-cases, Option-cases, All, any, first, upsert, update_where,
  count_where,
}
use slowchat.Base.Rows.{AtMostOne, AtMostOne-update_where, All-update_where}
use slowchat.Base.Counts.{Among-update_where}
use slowchat.Base.Action.{Result, Result-cases, ok, err}
use slowchat.Base.Database.{Database}
use slowchat.Model.{
  Uuid, Digest, Store, Message, AuthContext, Conversation, ConversationMember, Payload, SystemKind,
  active_in, active_conversation, same_member, conversation_is_active,
}
use slowchat.Sessions.{Env}
use slowchat.Outbox.Writer
use slowchat.Messages.Send.Parts.{safe_seq, insert_message, point_at_last}
use slowchat.Groups.System
use slowchat.Groups.System.{allocate_system_seq, next_system_seq}

-- The count of an active conversation is that of its active members.
abbrev pub CountIsRight : List ConversationMember → Conversation → Type 0
CountIsRight members c =
    conversation_is_active c.status ≡ true → c.member_count ≡ count_where (active_in c.id) members

-- Rows are told apart by their keys, and every count is right.
pub record IsCounted (s : Store) : Type 0 where
  pub keyed : (id : Uuid) → AtMostOne (λ (c : Conversation). c.id == id) s.conversations
  pub members_keyed : (m : ConversationMember) → AtMostOne (same_member m) s.members
  pub counted : All (CountIsRight s.members) s.conversations

-- An active conversation counts one member too many.
abbrev pub Overcounted : Store → Type 0
Overcounted s =
    (c : Conversation) × Among c s.conversations
    × (conversation_is_active c.status ≡ true)
    × (c.member_count ≡ count_where (active_in c.id) s.members + 1)

-- The columns that a count looks at stay as they are.
abbrev pub KeepsCounts : (Conversation → Conversation) → Type 0
KeepsCounts f =
    (c : Conversation)
    → ((f c).id ≡ c.id) × ((f c).status ≡ c.status) × ((f c).member_count ≡ c.member_count)

-- A property of stores that such an update of the conversations keeps.
abbrev pub IsKept : (Store → Type 0) → Type 0
IsKept P =
    (p : Conversation → Bool) (f : Conversation → Conversation) (s s' : Store)
    → KeepsCounts f
    → s'.conversations ≡ update_where p f s.conversations
    → s'.members ≡ s.members
    → P s
    → P s'

pub IsCounted-update : IsKept IsCounted
IsCounted-update p f s s' keeps conversations members h = record {
  keyed = λ id. rw conversations (
      AtMostOne-update_where (λ c. c.id == id) p f s.conversations (λ c. ground (arith, keeps c))
        (h.keyed id));
  members_keyed = λ m. rw members (h.members_keyed m);
  counted =
      rw (conversations, members)
        (All-update_where (CountIsRight s.members) (CountIsRight s.members) p f s.conversations
          (λ c right _. rw ((keeps c).0, (keeps c).1, (keeps c).2) right) (λ c right _. right)
          h.counted);
}

pub Overcounted-update : IsKept Overcounted
Overcounted-update p f s s' keeps conversations members (c, among, active, over) = (
  if p c then f c else c,
  rw conversations (Among-update_where p f c s.conversations among),
  ground (arith, keeps c),
  rw members (elim (Bool-cases (p c)) [
    | inl hit ↦ rw (hit, (keeps c).0, (keeps c).2) over
    | inr miss ↦ rw miss over
  ]),
)

module _ (db : Database) (payload_hash : Payload → Digest) (env : Env) (auth : AuthContext)
    (conversation_id : Uuid) (kind : SystemKind) (target : Option Uuid) (audience : List Uuid)
    (base : ℕ) (P : Store → Type 0) (kept : IsKept P) (s : Store) where
  abbrev appended : Store
  appended = (System.append db payload_hash env auth conversation_id kind target audience base s).1

  abbrev pointed : Message → Conversation → Conversation
  pointed m c = record c { last_message_id = some m.id; last_message_at = some m.created_at }

  -- A system message numbers the conversation and, once it is inserted, is pointed at.
  pub append-keeps : P s → P appended
  unfolding System.append allocate_system_seq insert_message point_at_last Writer.append
  append-keeps h =
      let numbered : Store = record s {
        conversations =
            update_where (active_conversation conversation_id) (next_system_seq env.now)
              s.conversations;
      } in
      let law =
        db.update_lem (active_conversation conversation_id) (next_system_seq env.now)
          s.conversations in
      elim (Result-cases
        (System.append db payload_hash env auth conversation_id kind target audience base s).0) [
          | inr (e, failed) ↦
              kept (active_conversation conversation_id) (next_system_seq env.now) s appended
                (λ c. (refl, refl, refl)) (ground (arith, law)) (ground (arith, law)) h
          | inl (m, done) ↦
              kept (λ c. c.id == conversation_id) (pointed m) numbered appended
                (λ c. (refl, refl, refl))
                (ground (
                  arith,
                  law,
                  db.update_lem (λ c. c.id == conversation_id) (pointed m) numbered.conversations,
                ))
                (ground (arith, law))
                (kept (active_conversation conversation_id) (next_system_seq env.now) s numbered
                  (λ c. (refl, refl, refl)) refl refl h)
        ]
