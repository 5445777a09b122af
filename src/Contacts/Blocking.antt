-- ===== src/Contacts/Blocking.antt =====
-- apps/im-server/src/modules/contacts/services/contact.service.ts: `deleteContact`, `block` and
-- `unblock`. What `emit` tells the sockets after the commit is left out.
pub mod Effects
use slowchat.Base.{Bool, true, false, not, ◌&&◌, ◌||◌, ◌==◌, ltb, if◌then◌else◌}
use slowchat.Base.Action.{
  Action, Check, err, app_error, not_found, block_conflict, pure, gets, modify, throw_if, checked,
  ◌>>=◌, ◌>>◌,
}
use slowchat.Base.Check.{asks, or_throw}
use slowchat.Base.Database.{Database}
use slowchat.Model.{
  Uuid, Store, User, Block, Friendship, FriendRequest, FriendRequestStatus, user_is_active,
}
use slowchat.Contacts.Policy.{friendship_of}

abbrev pub same_block : Block → Block → Bool
same_block a b = a.user_id == b.user_id && a.blocked_user_id == b.blocked_user_id

-- (user_id = :userId AND contact_user_id = :contactUserId) OR (user_id = :contactUserId AND …)
abbrev pub friends_between : Uuid → Uuid → Friendship → Bool
friends_between left right f = friendship_of left right f || friendship_of right left f

abbrev pub pair : Uuid → Uuid → Uuid × Uuid
pair left right = if ltb left right then (left, right) else (right, left)

abbrev pub is_pending : FriendRequestStatus → Bool
is_pending FriendRequestStatus.pending = true
is_pending _ = false

-- { pairLow, pairHigh, status: "PENDING" }
abbrev pub pending_between : Uuid × Uuid → FriendRequest → Bool
pending_between (low, high) r = r.pair_low == low && r.pair_high == high && is_pending r.status

abbrev pub cancelled_request : FriendRequest → FriendRequest
cancelled_request r = record r { status = FriendRequestStatus.cancelled }

module _ (db : Database) where
  open db use {find_one, exists_by, save, update, delete, transaction}

  unfoldable pub require_other : Uuid → Check Store User
  require_other user_id s =
      or_throw (find_one (λ u. u.id == user_id && user_is_active u.status) s.users) not_found 404 s

  unfoldable pub remove_friendships : Uuid → Uuid → Store → Store
  remove_friendships user_id other_id s = record s {
    friendships = delete (friends_between user_id other_id) s.friendships;
  }

  unfoldable pub cancel_requests : Uuid × Uuid → Store → Store
  cancel_requests key s = record s {
    friend_requests = update (pending_between key) cancelled_request s.friend_requests;
  }

  unfoldable pub delete_body : Uuid → Uuid → Action Store Bool
  unfolding remove_friendships
  delete_body user_id contact_user_id = do
    exists ← gets (λ s. exists_by (friendship_of user_id contact_user_id) s.friendships)
    (if exists
        then (do modify (remove_friendships user_id contact_user_id); pure true)
        else pure false)

  unfoldable pub delete_contact : Uuid → Uuid → Action Store Unit
  unfolding delete_body
  delete_contact user_id contact_user_id = do
    removed ← transaction (delete_body user_id contact_user_id)
    throw_if (not removed) not_found 404

  unfoldable pub save_block : Uuid → Uuid → Store → Store
  save_block user_id blocked_user_id s = record s {
    blocks =
        save same_block (record { user_id = user_id; blocked_user_id = blocked_user_id }) s.blocks;
  }

  unfoldable pub block_body : Uuid → Uuid → Action Store Unit
  unfolding require_other save_block remove_friendships cancel_requests
  block_body user_id blocked_user_id = do
    checked (require_other blocked_user_id)
    modify (save_block user_id blocked_user_id)
    modify (remove_friendships user_id blocked_user_id)
    modify (cancel_requests (pair user_id blocked_user_id))

  unfoldable pub block : Uuid → Uuid → Action Store Unit
  unfolding block_body
  block user_id blocked_user_id s =
      if user_id == blocked_user_id
      then (err (app_error block_conflict 409), s)
      else transaction (block_body user_id blocked_user_id) s

  unfoldable pub unblock : Uuid → Uuid → Action Store Unit
  unblock user_id blocked_user_id = modify (λ s. record s {
    blocks = delete (λ b. b.user_id == user_id && b.blocked_user_id == blocked_user_id) s.blocks;
  })
