-- ===== src/Contacts/WellFormed.antt =====
-- apps/im-server/src/modules/contacts/services/contact.service.ts: the state of contacts, and each
-- command as a step.
pub mod Rows
pub mod Effects
pub mod Kept
pub mod Always
use slowchat.Base.{ℕ, ◌≡◌, Bool, true, false, ◌==◌, Option, any}
use slowchat.Base.Rows.{AtMostOne}
use slowchat.Base.Database.{Database}
use slowchat.Model.{Uuid, Text, Store, FriendRequest, Friendship, Block}
use slowchat.Sessions.{Env}
use slowchat.Contacts.Policy.{blocks_between, friendship_of}
use slowchat.Contacts.Blocking.{pair, pending_between, delete_contact, block, unblock}
use slowchat.Contacts.Requests.{
  Decision, create_friend_request, decide_friend_request, update_contact,
}

-- Whoever is a contact of a user has the user as a contact.
abbrev pub IsSymmetric : Store → Type 0
IsSymmetric s =
    (a b : Uuid) → any (friendship_of a b) s.friendships ≡ any (friendship_of b a) s.friendships

-- Contacts have not blocked each other.
abbrev pub IsUnblocked : Store → Type 0
IsUnblocked s =
    (a b : Uuid)
    → any (friendship_of a b) s.friendships ≡ true
    → any (blocks_between a b) s.blocks ≡ false

-- No more than one request waits between two users.
abbrev pub HasOnePending : Store → Type 0
HasOnePending s = (key : Uuid × Uuid) → AtMostOne (pending_between key) s.friend_requests

abbrev pub WellFormed : Store → Type 0
WellFormed s = IsSymmetric s × IsUnblocked s × HasOnePending s

pub data Command : Type 0 where
  create : Env → Uuid → Uuid → Option Text → Command
  decide : Uuid → Uuid → Decision → Command
  remark : Uuid → Uuid → Option Text → Command
  remove : Uuid → Uuid → Command
  block_user : Uuid → Uuid → Command
  unblock_user : Uuid → Uuid → Command

-- The store after a command, whether it answers or fails.
abbrev pub perform : Database → Command → Store → Store
perform db (Command.create env requester_id recipient_id message) s =
    (create_friend_request db env requester_id recipient_id message s).1
perform db (Command.decide user_id request_id decision) s =
    (decide_friend_request db user_id request_id decision s).1
perform db (Command.remark user_id contact_user_id text) s =
    (update_contact db user_id contact_user_id text s).1
perform db (Command.remove user_id contact_user_id) s =
    (delete_contact db user_id contact_user_id s).1
perform db (Command.block_user user_id blocked_user_id) s = (block db user_id blocked_user_id s).1
perform db (Command.unblock_user user_id blocked_user_id) s =
    (unblock db user_id blocked_user_id s).1

-- The id of a new request is not taken.
abbrev pub IsFresh : Command → Store → Type 0
IsFresh (Command.create env _ _ _) s =
    any (λ (r : FriendRequest). env.uuid 0 == r.id) s.friend_requests ≡ false
IsFresh _ s = Unit

-- The stores that commands lead to.
pub data Reach (db : Database) (start : Store) : Store → Type 0 where
  here : Reach db start start
  next :
      {s : Store} → Reach db start s → (c : Command) → IsFresh c s → Reach db start (perform db c s)
