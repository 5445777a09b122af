-- ===== src/Auth/Passwords/Change.antt =====
-- apps/im-server/src/modules/auth/services/auth-command.service.ts: what `changePassword` leaves.
use slowchat.Base.{
  ◌≡◌, refl, ap, ◌∙◌, Bool, true, false, ◌==◌, Option, some, List, [], arith, update_where,
}
use slowchat.Base.Action.{ok, err, app_error, auth_invalid_credentials, password_policy_violation}
use slowchat.Base.Database.{Database}
use slowchat.Model.{Time, Text, Store, AuthSession, AuthContext, RevokedReason, UserCredential}
use slowchat.Sessions.{Env, session_is_good}
use slowchat.Auth.Tokens.{Crypto, AuthConfig, policy_holds, hash_password}
use slowchat.Auth.Revoking.Loop.{HasUniqueIds}
use slowchat.Auth.Revoking.Kept.{session_is_good-same}
use slowchat.Auth.Revoking.Everywhere.{
  after, revoked-ok, after-SignedOut, after-Spared, after-apart,
}
use slowchat.Auth.Passwords.{
  change_body, change_password, knows_password, set_password, with_password,
}

module _ (db : Database) (crypto : Crypto) (config : AuthConfig) (env : Env) (context : AuthContext)
    (current_password new_password : Text) (s : Store) where
  abbrev credential : Option UserCredential
  credential = db.find_one (λ c. c.user_id == context.user_id) s.credentials

  abbrev stored : Store
  stored = set_password db crypto config env.now context.user_id (crypto.hash new_password) s

  abbrev changed : Store
  changed =
      after db env.now context.user_id RevokedReason.password_changed (some context.session_id)
        stored

  ran :
      knows_password db crypto config current_password credential ≡ true
      → policy_holds new_password ≡ true
      → (revoked : List AuthSession) × (change_password db crypto config env context
            current_password new_password true s
          ≡ (ok revoked, changed))
  unfolding change_password change_body hash_password
  ran knows policy =
      let law =
        db.transaction_lem
          (change_body db crypto config env context (crypto.hash new_password) true) s in
      let (revoked, done) =
        revoked-ok db env.now context.user_id RevokedReason.password_changed
          (some context.session_id) stored in
      (revoked, ground (arith, law, done))

  -- Who knows the current password changes it to a new one that keeps the policy, and its hash is
  -- stored. If the request asks for the other sessions to be revoked, then no other session of the
  -- user is good, at any time, and the own session is as good as it was; if it does not ask for
  -- it, every session stays as good as it was. A new password against the policy is refused with
  -- PASSWORD_POLICY_VIOLATION (400), and who does not know the current one gets
  -- AUTH_INVALID_CREDENTIALS (401); then nothing changes. Condition: sessions are told apart by
  -- their ids.
  pub change_password-SignsOthersOut :
      HasUniqueIds s.sessions
      → (knows_password db crypto config current_password credential ≡ true
          → policy_holds new_password ≡ true
          → (revoked : List AuthSession) × (s' : Store) × (change_password db crypto config env
                context current_password new_password true s
              ≡ (ok revoked, s'))
            × ((auth : AuthContext) (later : Time)
                → auth.user_id ≡ context.user_id
                → (auth.session_id == context.session_id) ≡ false
                → session_is_good db later auth s' ≡ false)
            × ((later : Time)
                → session_is_good db later context s' ≡ session_is_good db later context s)
            × (s'.credentials
                ≡ update_where
                    (λ c. c.user_id == context.user_id)
                    (with_password env.now (crypto.hash new_password))
                    s.credentials))
        × (knows_password db crypto config current_password credential ≡ true
            → policy_holds new_password ≡ true
            → (s' : Store) × (change_password db crypto config env context current_password
                  new_password false s
                ≡ (ok [], s'))
              × ((auth : AuthContext) (later : Time)
                  → session_is_good db later auth s' ≡ session_is_good db later auth s)
              × (s'.credentials
                  ≡ update_where
                      (λ c. c.user_id == context.user_id)
                      (with_password env.now (crypto.hash new_password))
                      s.credentials))
        × (knows_password db crypto config current_password credential ≡ true
            → policy_holds new_password ≡ false
            → (others : Bool)
            → change_password db crypto config env context current_password new_password others s
              ≡ (err (app_error password_policy_violation 400), s))
        × (knows_password db crypto config current_password credential ≡ false
            → (others : Bool)
            → change_password db crypto config env context current_password new_password others s
              ≡ (err (app_error auth_invalid_credentials 401), s))
  unfolding change_password change_body hash_password set_password session_is_good
  change_password-SignsOthersOut unique = (
    λ knows policy.
        let (revoked, done) = ran knows policy in
        let spared =
          after-Spared db env.now context.user_id RevokedReason.password_changed context.session_id
            stored unique in
        let same =
          after-apart db env.now context.user_id RevokedReason.password_changed
            (some context.session_id) stored in
        (
          revoked,
          changed,
          done,
          (λ auth later user other.
              after-SignedOut db env.now context.user_id RevokedReason.password_changed
                (some context.session_id) stored unique auth later user (λ x found. ground arith)),
          (λ later.
              session_is_good-same db env.now RevokedReason.password_changed context later s changed
                unique spared.1 spared.0 (ap (λ t. t.0.0) same) (ap (λ t. t.0.1) same)),
          ap (λ t. t.1.0) same
              ∙ db.update_lem (λ c. c.user_id == context.user_id)
                  (with_password env.now (crypto.hash new_password)) s.credentials,
        ),
    λ knows policy.
        let law =
          db.transaction_lem
            (change_body db crypto config env context (crypto.hash new_password) false) s in
        (
          stored,
          ground (arith, law),
          (λ auth later. refl),
          db.update_lem (λ c. c.user_id == context.user_id)
              (with_password env.now (crypto.hash new_password)) s.credentials,
        ),
    λ knows broken others. ground arith,
    λ unknown others. ground arith,
  )
