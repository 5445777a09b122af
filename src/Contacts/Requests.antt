-- ===== src/Contacts/Requests.antt =====
-- apps/im-server/src/modules/contacts/services/contact.service.ts: `createFriendRequest`,
-- `decideFriendRequest`, `updateContact` and `report`. What `emit` tells the sockets after the
-- commit is left out.
use slowchat.Base.{Bool, true, false, not, ◌&&◌, ◌==◌, Option, none, some, is_some, if◌then◌else◌}
use slowchat.Base.Action.{
  Action, Check, err, app_error, pure, gets, modify, throw_if, or_throw, checked, ◌>>=◌, ◌>>◌,
  friend_request_conflict, privacy_restricted, not_found, user_blocked, validation_error,
}
use slowchat.Base.Database.{Database}
use slowchat.Model.{
  Uuid, Text, Store, FriendRequest, FriendRequestStatus, Friendship, Audience, UserPrivacySettings,
  ReportCategory,
}
use slowchat.Sessions.{Env}
use slowchat.Contacts.Policy.{friendship_of, assert_not_blocked}
use slowchat.Contacts.Blocking.{pair, pending_between, is_pending, require_other}

pub data Decision : Type 0 where
  accepted rejected : Decision

abbrev pub decided_status : Decision → FriendRequestStatus
decided_status Decision.accepted = FriendRequestStatus.accepted
decided_status Decision.rejected = FriendRequestStatus.rejected

-- value.status === decision
abbrev pub is_decided : Decision → FriendRequestStatus → Bool
is_decided Decision.accepted FriendRequestStatus.accepted = true
is_decided Decision.rejected FriendRequestStatus.rejected = true
is_decided _ _ = false

abbrev pub same_request : FriendRequest → FriendRequest → Bool
same_request a b = a.id == b.id

abbrev pub same_friendship : Friendship → Friendship → Bool
same_friendship a b = a.user_id == b.user_id && a.contact_user_id == b.contact_user_id

abbrev pub contact : Uuid → Uuid → Friendship
contact user_id contact_user_id = record {
  user_id = user_id;
  contact_user_id = contact_user_id;
  remark = none;
}

abbrev pub new_request : Uuid → Uuid → Uuid → Option Text → FriendRequest
new_request id requester_id recipient_id message = record {
  id = id;
  requester_id = requester_id;
  recipient_id = recipient_id;
  pair_low = (pair requester_id recipient_id).0;
  pair_high = (pair requester_id recipient_id).1;
  status = FriendRequestStatus.pending;
  message = message;
}

abbrev admits : Bool → Audience → Bool
admits in_common Audience.everyone = true
admits in_common Audience.contacts = in_common
admits in_common Audience.nobody = false

-- May the requester ask, where `in_common` tells whether they have a contact in common?
abbrev pub audience_admits : Bool → Option UserPrivacySettings → Bool
audience_admits in_common none = false
audience_admits in_common (some p) = admits in_common p.friend_request_audience

module _ (db : Database) where
  open db use {find_one, exists_by, save, update, transaction}

  unfoldable pub assert_users_may_interact : Uuid → Uuid → Check Store Unit
  unfolding assert_not_blocked
  assert_users_may_interact left right = assert_not_blocked db left right user_blocked

  -- Has `right` a contact that `left` has too?
  unfoldable pub have_mutual_contact : Uuid → Uuid → Store → Bool
  have_mutual_contact left right s = is_some (
      find_one
        (λ a. a.user_id == left && exists_by (friendship_of right a.contact_user_id) s.friendships)
        s.friendships)

  unfoldable pub save_request : FriendRequest → Store → Store
  save_request r s = record s { friend_requests = save same_request r s.friend_requests }

  unfoldable pub create_body : Env → Uuid → Uuid → Option Text → Action Store FriendRequest
  unfolding require_other assert_users_may_interact have_mutual_contact save_request
  create_body env requester_id recipient_id message =
      let row = new_request (env.uuid 0) requester_id recipient_id message in
      (do
        checked (require_other db recipient_id)
        checked (assert_users_may_interact requester_id recipient_id)
        contacts ← gets (λ s. exists_by (friendship_of requester_id recipient_id) s.friendships)
        throw_if contacts friend_request_conflict 409
        privacy ← gets (λ s. find_one (λ p. p.user_id == recipient_id) s.privacy_settings)
        in_common ← gets (have_mutual_contact requester_id recipient_id)
        throw_if (not (audience_admits in_common privacy)) privacy_restricted 403
        pending ←
            gets
              (λ s. find_one (pending_between (pair requester_id recipient_id)) s.friend_requests)
        throw_if (is_some pending) friend_request_conflict 409
        modify (save_request row)
        pure row)

  unfoldable pub create_friend_request :
      Env → Uuid → Uuid → Option Text → Action Store FriendRequest
  unfolding create_body
  create_friend_request env requester_id recipient_id message s =
      if requester_id == recipient_id
      then (err (app_error friend_request_conflict 409), s)
      else transaction (create_body env requester_id recipient_id message) s

  -- Each is a contact of the other.
  unfoldable pub befriend : Uuid → Uuid → Store → Store
  befriend requester_id recipient_id s = record s {
    friendships =
        save same_friendship (contact recipient_id requester_id)
          (save same_friendship (contact requester_id recipient_id) s.friendships);
  }

  abbrev pub befriend_if : Decision → FriendRequest → Store → Store
  befriend_if Decision.accepted r s = befriend r.requester_id r.recipient_id s
  befriend_if Decision.rejected r s = s

  abbrev pub decided : Decision → FriendRequest → FriendRequest
  decided decision r = record r { status = decided_status decision }

  unfoldable pub decide_pending : Decision → FriendRequest → Action Store FriendRequest
  unfolding assert_users_may_interact save_request befriend
  decide_pending decision r = do
    throw_if (not (is_pending r.status)) friend_request_conflict 409
    checked (assert_users_may_interact r.requester_id r.recipient_id)
    modify (save_request (decided decision r))
    modify (befriend_if decision r)
    pure (decided decision r)

  unfoldable pub decide_body : Uuid → Uuid → Decision → Action Store FriendRequest
  unfolding decide_pending
  decide_body user_id request_id decision = do
    found ← gets (λ s. find_one (λ r. r.id == request_id) s.friend_requests)
    value ← or_throw found not_found 404
    throw_if (not (value.recipient_id == user_id)) not_found 404
    (if is_decided decision value.status then pure value else decide_pending decision value)

  unfoldable pub decide_friend_request : Uuid → Uuid → Decision → Action Store FriendRequest
  unfolding decide_body
  decide_friend_request user_id request_id decision =
      transaction (decide_body user_id request_id decision)

  -- UPDATE … and its number of rows.
  unfoldable pub update_contact : Uuid → Uuid → Option Text → Action Store Unit
  update_contact user_id contact_user_id remark = do
    affected ← gets (λ s. exists_by (friendship_of user_id contact_user_id) s.friendships)
    modify (λ s. record s {
      friendships =
          update (friendship_of user_id contact_user_id) (λ f. record f { remark = remark })
            s.friendships;
    })
    throw_if (not affected) not_found 404

  unfoldable pub report : Env → Uuid → Uuid → ReportCategory → Text → Action Store Unit
  unfolding require_other
  report env reporter_id user_id category description s =
      if reporter_id == user_id
      then (err (app_error validation_error 400), s)
      else (do
        checked (require_other db user_id)
        modify (λ s. record s {
          reports =
              save (λ a b. a.id == b.id)
                (record {
                  id = env.uuid 0;
                  reporter_id = reporter_id;
                  target_user_id = user_id;
                  category = category;
                  description = description;
                })
                s.reports;
        }))
          s
