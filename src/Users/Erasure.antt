-- ===== src/Users/Erasure.antt =====
-- apps/im-server/src/modules/users/services/user.service.ts: what `deleteCurrent` leaves.
use slowchat.Base.{
  ◌≡◌, refl, ap, ◌∙◌, Bool, true, false, ◌==◌, any, Option, none, some, List, [], ◌∷◌, arith,
  update_where, upsert, inl, inr, Option-cases,
}
use slowchat.Base.Rows.{any-Among}
use slowchat.Base.Search.{any-reject}
use slowchat.Base.Action.{ok, err, app_error, auth_invalid_credentials, not_found}
use slowchat.Base.Database.{Database}
use slowchat.Model.{
  Uuid, Time, Text, Store, User, AuthSession, AuthContext, RevokedReason, UserCredential,
}
use slowchat.Sessions.{Env, session_of, session_is_good, revoked_session}
use slowchat.Auth.Tokens.{Crypto, AuthConfig}
use slowchat.Auth.Revoking.{active_of}
use slowchat.Auth.Registration.{same_user}
use slowchat.Auth.Passwords.{knows_password}
use slowchat.Users.{
  friendship_with, request_with, block_with, tombstone, deleted_user, revoke_access,
  erase_relations, save_deleted, delete_body, delete_current,
}

-- An update that ends what it selects by leaves no such row.
any-update_where :
    {A : Type 0} (p : A → Bool) (f : A → A) (xs : List A)
    → ((x : A) → p (f x) ≡ false)
    → any p (update_where p f xs) ≡ false
any-update_where p f [] ends = refl
any-update_where p f (x ∷ xs) ends = ground (arith, ends x, any-update_where p f xs ends)

abbrev pub HasNoRelations : Uuid → Store → Type 0
HasNoRelations user_id t =
    (any (friendship_with user_id) t.friendships ≡ false)
    × (any (request_with user_id) t.friend_requests ≡ false)
    × (any (block_with user_id) t.blocks ≡ false)
    × (any (λ (c : UserCredential). c.user_id == user_id) t.credentials ≡ false)

module _ (db : Database) (now : Time) (user_id : Uuid) (s : Store) where
  revoke_access-Inactive : any (active_of user_id) (revoke_access db now user_id s).sessions ≡ false
  unfolding revoke_access
  revoke_access-Inactive =
      ap (any (active_of user_id)) (
        db.update_lem (active_of user_id) (revoked_session db now RevokedReason.account_deleted)
          s.sessions)
      ∙ any-update_where (active_of user_id) (revoked_session db now RevokedReason.account_deleted)
          s.sessions (λ x. ground arith)

  erase_relations-HasNoRelations : HasNoRelations user_id (erase_relations db user_id s)
  unfolding erase_relations
  erase_relations-HasNoRelations = (
    ap (any (friendship_with user_id)) (db.delete_lem (friendship_with user_id) s.friendships)
        ∙ any-reject (friendship_with user_id) s.friendships,
    ap (any (request_with user_id)) (db.delete_lem (request_with user_id) s.friend_requests)
        ∙ any-reject (request_with user_id) s.friend_requests,
    ap (any (block_with user_id)) (db.delete_lem (block_with user_id) s.blocks)
        ∙ any-reject (block_with user_id) s.blocks,
    ap (any (λ (c : UserCredential). c.user_id == user_id))
          (db.delete_lem (λ c. c.user_id == user_id) s.credentials)
        ∙ any-reject (λ c. c.user_id == user_id) s.credentials,
  )

-- Where no session of a user is active, none is good.
not_good :
    (db : Database) (user_id : Uuid) (t : Store)
    → any (active_of user_id) t.sessions ≡ false
    → (auth : AuthContext) (later : Time) → auth.user_id ≡ user_id
    → session_is_good db later auth t ≡ false
unfolding session_is_good
not_good db user_id t inactive auth later same =
    elim (Option-cases (db.find_one (session_of auth) t.sessions)) [
      | inl e ↦ ground arith
      | inr (x, e) ↦
          let among = db.find_one_among (session_of auth) t.sessions x e in
          let found = db.find_one_some (session_of auth) t.sessions x e in
          let seen = any-Among (active_of user_id) x t.sessions among in ground (arith, seen)
    ]

module _ (db : Database) (crypto : Crypto) (config : AuthConfig) (env : Env) (context : AuthContext)
    (password : Text) (s : Store) where
  abbrev credential : Option UserCredential
  credential = db.find_one (λ c. c.user_id == context.user_id) s.credentials

  abbrev own_row : Option User
  own_row = db.find_one (λ u. u.id == context.user_id) s.users

  abbrev signed_out : Store
  signed_out = revoke_access db env.now context.user_id s

  abbrev alone : Store
  alone = erase_relations db context.user_id signed_out

  abbrev pub erased : User → Store
  erased u = save_deleted db crypto config u alone

  abbrev active : List AuthSession
  active = db.find_by (active_of context.user_id) s.sessions

  ran :
      knows_password db crypto config password credential ≡ true
      → (u : User) → own_row ≡ some u
      → delete_current db crypto config env context password s ≡ (ok active, erased u)
  unfolding delete_current delete_body
  ran knows u found =
      let law = db.transaction_lem (delete_body db crypto config env.now context.user_id) s in
      ground (arith, law)

  erased-users :
      (u : User)
      → (erased u).users
        ≡ upsert same_user (deleted_user (tombstone (crypto.print_uuid u.id)) u) s.users
  unfolding save_deleted erase_relations revoke_access
  erased-users u =
      db.save_lem same_user (deleted_user (tombstone (crypto.print_uuid u.id)) u) s.users

  -- Who knows the password deletes the account: no session of the user is good, at any time, the
  -- user is in no friendship, friend request or block and has no credential, and the user's row,
  -- and no other row of the users, becomes the tombstone. Who does not know it gets
  -- AUTH_INVALID_CREDENTIALS (401), who has no row of a user gets NOT_FOUND (404), and nothing
  -- changes.
  pub delete_current-Erased :
      (knows_password db crypto config password credential ≡ true
        → (u : User) → own_row ≡ some u
        → (ended : List AuthSession) × (s' : Store) × (delete_current db crypto config env context
              password s
            ≡ (ok ended, s'))
          × ((auth : AuthContext) (later : Time)
              → auth.user_id ≡ context.user_id
              → session_is_good db later auth s' ≡ false)
          × HasNoRelations context.user_id s'
          × (s'.users
              ≡ upsert same_user (deleted_user (tombstone (crypto.print_uuid u.id)) u) s.users))
      × (knows_password db crypto config password credential ≡ true
          → own_row ≡ none
          → delete_current db crypto config env context password s
            ≡ (err (app_error not_found 404), s))
      × (knows_password db crypto config password credential ≡ false
          → delete_current db crypto config env context password s
            ≡ (err (app_error auth_invalid_credentials 401), s))
  unfolding delete_current delete_body save_deleted erase_relations
  delete_current-Erased = (
    λ knows u found. (
      active,
      erased u,
      ran knows u found,
      not_good db context.user_id (erased u) (revoke_access-Inactive db env.now context.user_id s),
      erase_relations-HasNoRelations db env.now context.user_id signed_out,
      erased-users u,
    ),
    λ knows missing.
        let law = db.transaction_lem (delete_body db crypto config env.now context.user_id) s in
        ground (arith, law),
    λ unknown. ground arith,
  )
