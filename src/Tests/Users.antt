-- ===== src/Tests/Users.antt =====
-- The account is deleted at a concrete input.
use slowchat.Base.{◌≡◌, true, false, ◌==◌, some, none, List, [], ◌∷◌, upsert}
use slowchat.Base.Action.{ok, err, app_error, auth_invalid_credentials, not_found}
use slowchat.Model.{Time, Store, User, AuthSession, AuthContext}
use slowchat.Sessions.{session_is_good}
use slowchat.Auth.Registration.{same_user}
use slowchat.Auth.Passwords.{knows_password}
use slowchat.Users.{tombstone, deleted_user, delete_current}
use slowchat.Users.Erasure.{HasNoRelations, delete_current-Erased}
use slowchat.Tests.World.{list_database, auth_of, env_at}
use slowchat.Tests.Toy.{toy_crypto, settings, credential_row, account}

delete_current-Erased_example :
    (knows_password list_database toy_crypto settings (50 ∷ 51 ∷ []) (some credential_row) ≡ true
      → (u : User) → list_database.find_one (λ (u : User). u.id == 1) account.users ≡ some u
      → (ended : List AuthSession) × (s' : Store) × (delete_current list_database toy_crypto
            settings
            (env_at 5 500)
            (auth_of 1)
            (50 ∷ 51 ∷ [])
            account
          ≡ (ok ended, s'))
        × ((auth : AuthContext) (later : Time)
            → auth.user_id ≡ 1
            → session_is_good list_database later auth s' ≡ false)
        × HasNoRelations 1 s'
        × (s'.users
            ≡ upsert same_user
                (deleted_user (tombstone (toy_crypto.print_uuid u.id)) u)
                account.users))
    × (knows_password list_database toy_crypto settings (50 ∷ 51 ∷ []) (some credential_row) ≡ true
        → list_database.find_one (λ (u : User). u.id == 1) account.users ≡ none
        → delete_current list_database toy_crypto settings
            (env_at 5 500)
            (auth_of 1)
            (50 ∷ 51 ∷ [])
            account
          ≡ (err (app_error not_found 404), account))
    × (knows_password list_database toy_crypto settings (50 ∷ 51 ∷ []) (some credential_row) ≡ false
        → delete_current list_database toy_crypto settings
            (env_at 5 500)
            (auth_of 1)
            (50 ∷ 51 ∷ [])
            account
          ≡ (err (app_error auth_invalid_credentials 401), account))
delete_current-Erased_example =
    delete_current-Erased list_database toy_crypto settings (env_at 5 500) (auth_of 1)
      (50 ∷ 51 ∷ []) account
