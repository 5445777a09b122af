-- ===== src/Contacts/WellFormed/Effects.antt =====
-- apps/im-server/src/modules/contacts/services/contact.service.ts: what each command makes of the
-- tables, if it does not leave them as they are.
use slowchat.Base.{
  ◌≡◌, refl, false, ◌&&◌, ◌==◌, Option, arith, any, reject, upsert, update_where, Bool-cases,
  Option-cases, ◌⊎◌, inl, inr,
}
use slowchat.Base.Action.{Result-cases, ok}
use slowchat.Base.Database.{Database}
use slowchat.Model.{Uuid, Text, Store, FriendRequest, Block}
use slowchat.Sessions.{Env}
use slowchat.Contacts.Policy.{blocks_between, friendship_of, assert_not_blocked}
use slowchat.Contacts.Blocking.{
  same_block, friends_between, pair, pending_between, is_pending, cancelled_request, require_other,
  delete_body, delete_contact, block_body, block, unblock, remove_friendships, cancel_requests,
  save_block,
}
use slowchat.Contacts.Requests.{
  Decision, is_decided, same_request, same_friendship, contact, new_request,
  assert_users_may_interact, save_request, create_body, create_friend_request, befriend,
  befriend_if, decided, decide_pending, decide_body, decide_friend_request, update_contact,
}

abbrev pub stored_request : FriendRequest → Store → Store
stored_request r s = record s { friend_requests = upsert same_request r s.friend_requests }

abbrev pub stored_contacts : Uuid → Uuid → Store → Store
stored_contacts a b s = record s {
  friendships =
      upsert same_friendship (contact b a) (upsert same_friendship (contact a b) s.friendships);
}

abbrev pub accepted_contacts : Decision → FriendRequest → Store → Store
accepted_contacts Decision.accepted r s = stored_contacts r.requester_id r.recipient_id s
accepted_contacts Decision.rejected r s = s

module _ (db : Database) (s : Store) where
  module _ (env : Env) (requester_id recipient_id : Uuid) (message : Option Text) where
    abbrev row : FriendRequest
    row = new_request (env.uuid 0) requester_id recipient_id message

    create_body-ok :
        (r : FriendRequest) (t : Store)
        → create_body db env requester_id recipient_id message s ≡ (ok r, t)
        → (t ≡ stored_request row s)
          × (any (pending_between (pair requester_id recipient_id)) s.friend_requests ≡ false)
    unfolding create_body save_request
    create_body-ok r t done = elim (Result-cases (require_other db recipient_id s)) [
      | inr (e, f) ↦ absurd (ground arith)
      | inl (u, f) ↦
          elim (Result-cases (assert_users_may_interact db requester_id recipient_id s)) [
            | inr (e, g) ↦ absurd (ground arith)
            | inl (v, g) ↦
                elim (Option-cases (
                  db.find_one (pending_between (pair requester_id recipient_id))
                    s.friend_requests)) [
                      | inr (p, there) ↦ absurd (ground arith)
                      | inl nothing ↦
                          let saved = db.save_lem same_request row s.friend_requests in
                          (
                            ground (arith, saved),
                            db.find_one_none (pending_between (pair requester_id recipient_id))
                                s.friend_requests nothing,
                          )
                    ]
          ]
    ]

    pub create-effect :
        ((create_friend_request db env requester_id recipient_id message s).1 ≡ s)
        ⊎ (((create_friend_request db env requester_id recipient_id message s).1
              ≡ stored_request row s)
            × (any (pending_between (pair requester_id recipient_id)) s.friend_requests ≡ false))
    unfolding create_friend_request
    create-effect =
        let law = db.transaction_lem (create_body db env requester_id recipient_id message) s in
        let run = create_body db env requester_id recipient_id message s in
        elim (Bool-cases (requester_id == recipient_id)) [
          | inl e ↦ inl (ground arith)
          | inr e ↦ elim (Result-cases run.0) [
            | inr (why, failed) ↦ inl (ground (arith, law))
            | inl (r, made) ↦
                let (after, free) = create_body-ok r run.1 (ground arith) in
                inr (ground (arith, law, after), free)
          ]
        ]

  module _ (user_id request_id : Uuid) (decision : Decision) where
    abbrev pub Decided : Store → Type 0
    Decided t =
        (r : FriendRequest) × (any (blocks_between r.requester_id r.recipient_id) s.blocks ≡ false)
        × (t ≡ accepted_contacts decision r (stored_request (decided db decision r) s))

    befriend_if-run :
        (r : FriendRequest) (t : Store)
        → befriend_if db decision r t ≡ accepted_contacts decision r t
    unfolding befriend
    befriend_if-run r t = finish decision
      where
        finish : (d : Decision) → befriend_if db d r t ≡ accepted_contacts d r t
        finish Decision.rejected = refl
        finish Decision.accepted =
            rw
              (
                db.save_lem same_friendship (contact r.requester_id r.recipient_id) t.friendships,
                db.save_lem same_friendship (contact r.recipient_id r.requester_id)
                    (upsert same_friendship (contact r.requester_id r.recipient_id) t.friendships),
              )
              refl

    pending-ok :
        (value r : FriendRequest) (t : Store)
        → decide_pending db decision value s ≡ (ok r, t)
        → Decided t
    unfolding decide_pending save_request assert_users_may_interact assert_not_blocked
    pending-ok value r t done =
        let blocked =
          db.exists_by_lem (blocks_between value.requester_id value.recipient_id) s.blocks in
        let saved = db.save_lem same_request (decided db decision value) s.friend_requests in
        let run = befriend_if-run value (stored_request (decided db decision value) s) in
        elim (Bool-cases (is_pending value.status)) [
          | inr e ↦ absurd (ground arith)
          | inl e ↦
              elim (Bool-cases
                (any (blocks_between value.requester_id value.recipient_id) s.blocks)) [
                  | inl b ↦ absurd (ground (arith, blocked))
                  | inr b ↦ (value, b, ground (arith, blocked, saved, run))
                ]
        ]

    pub decide-effect :
        ((decide_friend_request db user_id request_id decision s).1 ≡ s)
        ⊎ Decided (decide_friend_request db user_id request_id decision s).1
    unfolding decide_friend_request decide_body
    decide-effect =
        let law = db.transaction_lem (decide_body db user_id request_id decision) s in
        elim (Option-cases (db.find_one (λ r. r.id == request_id) s.friend_requests)) [
          | inl e ↦ inl (ground (arith, law))
          | inr (value, e) ↦ elim (Bool-cases (value.recipient_id == user_id)) [
            | inr other ↦ inl (ground (arith, law))
            | inl mine ↦ elim (Bool-cases (is_decided decision value.status)) [
              | inl already ↦ inl (ground (arith, law))
              | inr open_still ↦
                  let run = decide_pending db decision value s in
                  elim (Result-cases run.0) [
                    | inr (why, failed) ↦ inl (ground (arith, law))
                    | inl (r, made) ↦
                        let (x, free, after) = pending-ok value r run.1 (ground arith) in
                        inr (x, free, ground (arith, law, after))
                  ]
            ]
          ]
        ]

  module _ (user_id other_id : Uuid) where
    abbrev pub parted : Store → Store
    parted t = record t { friendships = reject (friends_between user_id other_id) t.friendships }

    abbrev pub cancelled : Store → Store
    cancelled t = record t {
      friend_requests =
          update_where (pending_between (pair user_id other_id)) cancelled_request
            t.friend_requests;
    }

    abbrev pub stored_block : Store → Store
    stored_block t = record t {
      blocks =
          upsert same_block (record { user_id = user_id; blocked_user_id = other_id }) t.blocks;
    }

    pub delete-effect :
        ((delete_contact db user_id other_id s).1 ≡ s)
        ⊎ ((delete_contact db user_id other_id s).1 ≡ parted s)
    unfolding delete_contact delete_body remove_friendships
    delete-effect =
        let law = db.transaction_lem (delete_body db user_id other_id) s in
        let gone = db.delete_lem (friends_between user_id other_id) s.friendships in
        elim (Bool-cases (db.exists_by (friendship_of user_id other_id) s.friendships)) [
          | inl e ↦ inr (ground (arith, law, gone))
          | inr e ↦ inl (ground (arith, law))
        ]

    pub block-effect :
        ((block db user_id other_id s).1 ≡ s)
        ⊎ ((block db user_id other_id s).1 ≡ cancelled (parted (stored_block s)))
    unfolding block block_body remove_friendships cancel_requests save_block
    block-effect =
        let law = db.transaction_lem (block_body db user_id other_id) s in
        let saved =
          db.save_lem same_block (record { user_id = user_id; blocked_user_id = other_id })
            s.blocks in
        let gone = db.delete_lem (friends_between user_id other_id) s.friendships in
        let stopped =
          db.update_lem (pending_between (pair user_id other_id)) cancelled_request
            s.friend_requests in
        elim (Bool-cases (user_id == other_id)) [
          | inl e ↦ inl (ground (arith, law))
          | inr e ↦ elim (Result-cases (require_other db other_id s)) [
            | inr (why, f) ↦ inl (ground (arith, law))
            | inl (u, f) ↦ inr (ground (arith, law, saved, gone, stopped))
          ]
        ]

    pub unblock-effect : (unblock db user_id other_id s).1 ≡ record s {
      blocks = reject (λ b. b.user_id == user_id && b.blocked_user_id == other_id) s.blocks;
    }
    unfolding unblock
    unblock-effect =
        rw
          (db.delete_lem (λ (b : Block). b.user_id == user_id && b.blocked_user_id == other_id)
            s.blocks)
          refl

    pub remark-effect :
        (text : Option Text)
        → (update_contact db user_id other_id text s).1 ≡ record s {
          friendships =
              update_where
                (friendship_of user_id other_id)
                (λ f. record f { remark = text })
                s.friendships;
        }
    unfolding update_contact
    remark-effect text =
        rw
          (db.update_lem (friendship_of user_id other_id) (λ f. record f { remark = text })
            s.friendships)
          refl
