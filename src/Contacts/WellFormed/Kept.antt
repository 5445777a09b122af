-- ===== src/Contacts/WellFormed/Kept.antt =====
-- apps/im-server/src/modules/contacts/services/contact.service.ts: what a command makes of the tables
-- keeps the state of contacts well formed.
use slowchat.Base.{
  ◌≡◌, refl, sym, ap, ◌∙◌, Bool, true, false, ◌==◌, ◌&&◌, ◌||◌, Option, List, arith, any, reject,
  upsert, update_where, Bool-cases, inl, inr,
}
use slowchat.Base.Rows.{AtMostOne, any-update_where}
use slowchat.Base.Database.{Database}
use slowchat.Model.{Uuid, Text, Store, FriendRequest, Block}
use slowchat.Contacts.Policy.{blocks_between, friendship_of}
use slowchat.Contacts.Blocking.{
  same_block, friends_between, pair, pending_between, cancelled_request,
}
use slowchat.Contacts.Requests.{contact, same_friendship}
use slowchat.Contacts.WellFormed.{IsSymmetric, WellFormed}
use slowchat.Contacts.WellFormed.Rows.{
  any-same, any-upsert_key, any-reject_apart, any-reject_within, any-reject_none,
  AtMostOne-update_off,
}
use slowchat.Contacts.WellFormed.Effects.{
  stored_request, stored_contacts, parted, cancelled, stored_block,
}

module _ (s : Store) where
  pub WellFormed-requests :
      (r : FriendRequest)
      → ((key : Uuid × Uuid) → AtMostOne (pending_between key) (stored_request r s).friend_requests)
      → WellFormed s
      → WellFormed (stored_request r s)
  WellFormed-requests r pending (symmetric, unblocked, _) = (symmetric, unblocked, pending)

  abbrev contacts : Uuid → Uuid → Bool
  contacts a b = any (friendship_of a b) s.friendships

  -- Who is a contact of whom after two users became contacts.
  befriended :
      (x y a b : Uuid)
      → any (friendship_of a b) (stored_contacts x y s).friendships
        ≡ (friendship_of a b (contact y x) || (friendship_of a b (contact x y) || contacts a b))
  befriended x y a b =
      any-upsert_key same_friendship (friendship_of a b) (contact y x)
        (upsert same_friendship (contact x y) s.friendships) (λ f e. ground arith)
      ∙ ap (λ t. friendship_of a b (contact y x) || t)
          (any-upsert_key same_friendship (friendship_of a b) (contact x y) s.friendships
            (λ f e. ground arith))

  blocks_between-swap :
      (a b : Uuid) (rows : List Block)
      → any (blocks_between a b) rows ≡ any (blocks_between b a) rows
  blocks_between-swap a b rows =
      any-same (blocks_between a b) (blocks_between b a) rows (λ r. ground arith)

  pub WellFormed-befriended :
      (x y : Uuid)
      → any (blocks_between x y) s.blocks ≡ false
      → WellFormed s
      → WellFormed (stored_contacts x y s)
  WellFormed-befriended x y free (symmetric, unblocked, pending) = (
    (λ a b. ground (arith, befriended x y a b, befriended x y b a, symmetric a b)),
    (λ a b found. elim (Bool-cases (contacts a b)) [
      | inl before ↦ unblocked a b before
      | inr new ↦ elim (Bool-cases (friendship_of a b (contact x y))) [
        | inl here ↦
            any-same (blocks_between a b) (blocks_between x y) s.blocks (λ r. ground arith) ∙ free
        | inr there ↦
            let other : friendship_of a b (contact y x) ≡ true =
              ground (arith, befriended x y a b) in
            any-same (blocks_between a b) (blocks_between x y) s.blocks (λ r. ground arith) ∙ free
      ]
    ]),
    pending,
  )

  module _ (db : Database) (u v : Uuid) where
    abbrev are_they : Uuid → Uuid → Bool
    are_they a b = (a == u && b == v) || (a == v && b == u)

    parted-apart :
        (a b : Uuid)
        → are_they a b ≡ false
        → any (friendship_of a b) (parted db s u v s).friendships ≡ contacts a b
    parted-apart a b e =
        any-reject_apart (friendship_of a b) (friends_between u v) s.friendships
          (λ f h. ground arith)

    parted-gone :
        (a b : Uuid)
        → are_they a b ≡ true
        → any (friendship_of a b) (parted db s u v s).friendships ≡ false
    parted-gone a b e =
        any-reject_within (friendship_of a b) (friends_between u v) s.friendships
          (λ f h. ground arith)

    IsSymmetric-parted : IsSymmetric s → IsSymmetric (parted db s u v s)
    IsSymmetric-parted symmetric a b = elim (Bool-cases (are_they a b)) [
      | inl e ↦ parted-gone a b e ∙ sym (parted-gone b a (ground arith))
      | inr e ↦ parted-apart a b e ∙ symmetric a b ∙ sym (parted-apart b a (ground arith))
    ]

    pub WellFormed-parted : WellFormed s → WellFormed (parted db s u v s)
    WellFormed-parted (symmetric, unblocked, pending) = (
      IsSymmetric-parted symmetric,
      (λ a b found. elim (Bool-cases (are_they a b)) [
        | inl e ↦ absurd (ground (arith, parted-gone a b e))
        | inr e ↦ unblocked a b (ground (arith, parted-apart a b e))
      ]),
      pending,
    )

    pub WellFormed-blocked :
        WellFormed s → WellFormed (cancelled db s u v (parted db s u v (stored_block db s u v s)))
    WellFormed-blocked (symmetric, unblocked, pending) = (
      IsSymmetric-parted symmetric,
      (λ a b found. elim (Bool-cases (are_they a b)) [
        | inl e ↦ absurd (ground (arith, parted-gone a b e))
        | inr e ↦
            let before = unblocked a b (ground (arith, parted-apart a b e)) in
            any-upsert_key same_block (blocks_between a b)
              (record { user_id = u; blocked_user_id = v }) s.blocks (λ r h. ground arith)
            ∙ ground arith
      ]),
      (λ key.
          AtMostOne-update_off (pending_between key) (pending_between (pair u v)) cancelled_request
            s.friend_requests (λ r h. ground arith) (pending key)),
    )

    pub WellFormed-unblocked :
        WellFormed s
        → WellFormed
            (record s { blocks = reject (λ b. b.user_id == u && b.blocked_user_id == v) s.blocks })
    WellFormed-unblocked (symmetric, unblocked, pending) = (
      symmetric,
      (λ a b found.
          any-reject_none (blocks_between a b) (λ r. r.user_id == u && r.blocked_user_id == v)
            s.blocks (unblocked a b found)),
      pending,
    )

    pub WellFormed-remarked :
        (text : Option Text)
        → WellFormed s
        → WellFormed (record s {
          friendships =
              update_where (friendship_of u v) (λ f. record f { remark = text }) s.friendships;
        })
    WellFormed-remarked text (symmetric, unblocked, pending) =
        let same : (a b : Uuid)
            → any (friendship_of a b)
                (update_where (friendship_of u v) (λ f. record f { remark = text }) s.friendships)
              ≡ contacts a b =
          λ a b.
            any-update_where (friendship_of a b) (friendship_of u v)
              (λ f. record f { remark = text }) s.friendships (λ f. refl) in
        (
          (λ a b. same a b ∙ symmetric a b ∙ sym (same b a)),
          (λ a b found. unblocked a b (sym (same a b) ∙ found)),
          pending,
        )
