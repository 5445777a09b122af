-- ===== src/Conversations/Direct/Uniqueness.antt =====
-- apps/im-server/src/modules/conversations/services/conversation-command.service.ts: two users have one
-- active direct conversation, over `createDirect`.
use slowchat.Base.{
  ◌≡◌, refl, sym, ◌∙◌, Bool, true, false, not, ◌||◌, ◌==◌, ltb, arith, any, All, Option, none, some,
  List, [], ◌∷◌, ◌++◌, Option-cases, Bool-cases, ◌⊎◌, inl, inr,
}
use slowchat.Base.Rows.{AtMostOne, AtMostOne-append, All-append, upsert-new}
use slowchat.Base.Action.{Result-cases}
use slowchat.Base.Database.{Database}
use slowchat.Model.{Uuid, Store, Conversation, AuthContext, Trace, same_conversation}
use slowchat.Sessions.{Env, validate_with_manager}
use slowchat.Outbox.Writer
use slowchat.Conversations.Direct.{
  direct_conversation_key, active_direct, new_direct, create_direct, create_new, direct_body,
  find_direct,
}

-- A row whose key is that of the two users, in either order.
abbrev pub joins : Uuid → Uuid → Conversation → Bool
joins a b c = active_direct (a, b) c || active_direct (b, a) c

abbrev pub is_sorted : Option (Uuid × Uuid) → Bool
is_sorted none = true
is_sorted (some (low, high)) = not (ltb high low)

-- No two users have two active direct conversations, and every key has its smaller UUID first.
pub record HasOneDirect (rows : List Conversation) : Type 0 where
  pub sorted : All (λ (c : Conversation). is_sorted c.direct_key ≡ true) rows
  pub one : (a b : Uuid) → AtMostOne (joins a b) rows

-- A sorted row that joins the two users has their key.
joins-has_key :
    (a b left right : Uuid) (c : Conversation)
    → is_sorted c.direct_key ≡ true
    → joins a b c ≡ true
    → (a ≡ left) × (b ≡ right) ⊎ (a ≡ right) × (b ≡ left)
    → active_direct (direct_conversation_key left right) c ≡ true
unfolding direct_conversation_key
joins-has_key a b left right c ordered hit same = ground arith

direct_conversation_key-is_sorted :
    (left right : Uuid) → is_sorted (some (direct_conversation_key left right)) ≡ true
unfolding direct_conversation_key
direct_conversation_key-is_sorted left right = ground arith

-- The pair of a new row is that of the users it is for.
new_direct-joins :
    (env : Env) (creator_id left right a b : Uuid)
    → joins a b (new_direct env creator_id (direct_conversation_key left right)) ≡ true
    → (a ≡ left) × (b ≡ right) ⊎ (a ≡ right) × (b ≡ left)
unfolding direct_conversation_key
new_direct-joins env creator_id left right a b hit = elim (Bool-cases (ltb left right)) [
  | inl e ↦ elim (Bool-cases (left == a)) [
    | inl f ↦ inl (ground arith, ground arith)
    | inr f ↦ inr (ground arith, ground arith)
  ]
  | inr e ↦ elim (Bool-cases (right == a)) [
    | inl f ↦ inr (ground arith, ground arith)
    | inr f ↦ inl (ground arith, ground arith)
  ]
]

module _ {A : Type 0} (P : A → Type 0) (p q : A → Bool)
    (widens : (x : A) → P x → q x ≡ true → p x ≡ true) where
  any-All : (xs : List A) → All P xs → any p xs ≡ false → any q xs ≡ false
  any-All [] all none_there = refl
  any-All (x ∷ xs) all none_there = ground (arith, widens x all.0, any-All xs all.1)

module _ (db : Database) (env : Env) (others : Store → Store) (auth : AuthContext)
    (recipient_id : Uuid) (trace : Trace) (s : Store) where
  abbrev after : Store
  after = (create_direct db env others auth recipient_id trace s).1

  abbrev key : Uuid × Uuid
  key = direct_conversation_key auth.user_id recipient_id

  data Outcome : Type 0 where
    unchanged : after.conversations ≡ (others s).conversations → Outcome
    created :
        db.exists_by (active_direct key) (others s).conversations ≡ false
        → after.conversations
          ≡ db.save same_conversation (new_direct env auth.user_id key) (others s).conversations
        → Outcome

  create_direct-Outcome : Outcome
  unfolding create_direct direct_body create_new validate_with_manager Writer.append
  create_direct-Outcome =
      let law = db.transaction_lem (direct_body db env others auth recipient_id trace) s in
      elim (Bool-cases (db.exists_by (active_direct key) (others s).conversations)) [
        | inl there ↦ unchanged (ground (arith, law))
        | inr absent ↦ elim (Result-cases (direct_body db env others auth recipient_id trace s).0) [
          | inr (e, why) ↦ unchanged (ground (arith, law))
          | inl (id, done) ↦ elim (Bool-cases (auth.user_id == recipient_id)) [
            | inl same ↦ unchanged (ground (arith, law))
            | inr two ↦ elim (Option-cases (find_direct db key s)) [
              | inr (found, e) ↦ unchanged (ground (arith, law))
              | inl new ↦ created absent (ground (arith, law))
            ]
          ]
        ]
      ]

  -- No row joins the users of the new one.
  taken :
      (a b : Uuid)
      → HasOneDirect (others s).conversations
      → joins a b (new_direct env auth.user_id key) ≡ true
      → db.exists_by (active_direct key) (others s).conversations ≡ false
      → any (joins a b) (others s).conversations ≡ false
  taken a b direct hit absent =
      any-All (λ (c : Conversation). is_sorted c.direct_key ≡ true) (active_direct key) (joins a b)
        (λ c ordered passes.
          joins-has_key a b auth.user_id recipient_id c ordered passes
            (new_direct-joins env auth.user_id auth.user_id recipient_id a b hit))
        (others s).conversations direct.sorted
        (sym (db.exists_by_lem (active_direct key) (others s).conversations) ∙ absent)

  -- Whatever other transactions did meanwhile, `createDirect` keeps it so that two users have at
  -- most one active direct conversation, whichever of them its key names first, and that each key
  -- has its smaller UUID first. Conditions: so it was after what the others committed, and the new
  -- conversation's UUID is fresh there.
  pub create_direct-HasOneDirect :
      HasOneDirect (others s).conversations
      → any (λ c. env.uuid 0 == c.id) (others s).conversations ≡ false
      → HasOneDirect after.conversations
  create_direct-HasOneDirect direct fresh = finish create_direct-Outcome
    where
      finish : Outcome → HasOneDirect after.conversations
      finish (unchanged e) = rw e direct
      finish (created absent e) =
          let row = new_direct env auth.user_id key in
          let rows = (others s).conversations in
          let grown : after.conversations ≡ rows ++ row ∷ [] =
            e
            ∙ db.save_lem same_conversation row rows
            ∙ upsert-new same_conversation row rows fresh in
          rw grown (record {
            sorted =
                All-append (λ (c : Conversation). is_sorted c.direct_key ≡ true) rows (row ∷ [])
                  direct.sorted (direct_conversation_key-is_sorted auth.user_id recipient_id, tt);
            one = λ a b.
                AtMostOne-append (joins a b) row rows (λ hit. taken a b direct hit absent)
                  (direct.one a b);
          })
