-- ===== src/Auth/Passwords/Reset.antt =====
-- apps/im-server/src/modules/auth/services/auth-command.service.ts: what `confirmPasswordReset`
-- leaves.
use slowchat.Base.{
  ◌≡◌, refl, sym, ap, subst, ◌∙◌, true, false, Option, none, some, List, arith, upsert, Bool-cases,
  inl, inr,
}
use slowchat.Base.Rows.{AtMostOne}
use slowchat.Base.Action.{Result-cases, ok, err, app_error, verification_invalid}
use slowchat.Base.Database.{Database}
use slowchat.Model.{
  Uuid, Time, Text, Store, User, UserCredential, AuthChallenge, ChallengePurpose, AuthSession,
  AuthContext, RevokedReason,
}
use slowchat.Sessions.{Env, session_is_good}
use slowchat.Auth.Tokens.{Crypto, AuthConfig, policy_holds, hash_password}
use slowchat.Auth.Challenges.{find_credential, consume_challenge, save_challenge, same_challenge}
use slowchat.Auth.Challenges.Once.{IsSpent, of_id, spent-Refused, accepted-stored, consumed-IsSpent}
use slowchat.Auth.Registration.{consumed}
use slowchat.Auth.Revoking.Loop.{HasUniqueIds}
use slowchat.Auth.Revoking.Everywhere.{after, revoked-ok, after-SignedOut, after-apart}
use slowchat.Auth.Passwords.{
  reset_body, reset_account, confirm_password_reset, save_credential, with_password,
}

module _ (db : Database) (crypto : Crypto) (config : AuthConfig) (id : Uuid) where
  -- The store of a reset that was made: the challenge is used up, and the account, if there is
  -- one, has the new password and its sessions are revoked.
  abbrev spent_in : Env → AuthChallenge → Store → Store
  spent_in env c s = save_challenge db (consumed env.now c) s

  module _ (env : Env) (code new_password : Text) (s : Store) where
    made :
        (revoked : List AuthSession) (s' : Store)
        → confirm_password_reset db crypto config env id code new_password s ≡ (ok revoked, s')
        → (c : AuthChallenge) × (consume_challenge db crypto config env.now id code
              ChallengePurpose.password_reset s
            ≡ (ok (ok c), s))
          × (reset_account db crypto config env
                (crypto.hash new_password)
                (find_credential db c.identity s)
                (spent_in env c s)
              ≡ (ok revoked, s'))
    unfolding confirm_password_reset reset_body hash_password
    made revoked s' done =
        let law =
          db.transaction_lem (reset_body db crypto config env id code (crypto.hash new_password))
            s in
        let run =
          consume_challenge db crypto config env.now id code ChallengePurpose.password_reset s in
        elim (Bool-cases (policy_holds new_password)) [
          | inr weak ↦ absurd (ground arith)
          | inl strong ↦ elim (Result-cases run.0) [
            | inr (e, failed) ↦ absurd (ground (arith, law))
            | inl (inner, answered) ↦ elim (Result-cases inner) [
              | inr (e, refused) ↦ absurd (ground (arith, law))
              | inl (c, accepted) ↦
                  let whole : run ≡ (ok (ok c), run.1) = ground arith in
                  let stored =
                    accepted-stored db crypto config id env.now code ChallengePurpose.password_reset
                      s run.1 c whole in
                  let account =
                    reset_account db crypto config env (crypto.hash new_password)
                      (find_credential db c.identity s) (spent_in env c s) in
                  elim (Result-cases account.0) [
                    | inr (e, failed) ↦ absurd (ground (arith, law))
                    | inl (answer, given) ↦ (c, ground arith, ground (arith, law))
                  ]
            ]
          ]
        ]

    abbrev account_after : AuthChallenge → UserCredential → Store
    account_after c credential =
        after db env.now credential.user_id RevokedReason.password_reset none (
          save_credential db crypto config
            (with_password env.now (crypto.hash new_password) credential) (spent_in env c s))

    -- The table of challenges after a reset that was made.
    spent_after :
        (c : AuthChallenge) (account : Option (UserCredential × Option User))
        (revoked : List AuthSession) (s' : Store)
        → reset_account db crypto config env (crypto.hash new_password) account (spent_in env c s)
          ≡ (ok revoked, s')
        → s'.challenges ≡ upsert same_challenge (consumed env.now c) s.challenges
    unfolding save_challenge save_credential
    spent_after c none revoked s' done =
        ground (arith, db.save_lem same_challenge (consumed env.now c) s.challenges)
    spent_after c (some (credential, u)) revoked s' done =
        let ready =
          save_credential db crypto config
            (with_password env.now (crypto.hash new_password) credential) (spent_in env c s) in
        let same =
          after-apart db env.now credential.user_id RevokedReason.password_reset none ready in
        let run =
          revoked-ok db env.now credential.user_id RevokedReason.password_reset none ready in
        let there : s' ≡ account_after c credential = ground (arith, run.1) in
        ap (λ t. t.challenges) there
        ∙ ap (λ t. t.1.1) same
        ∙ db.save_lem same_challenge (consumed env.now c) s.challenges

  replayed :
      (env : Env) (code new_password : Text) (s : Store)
      → IsSpent db crypto config id s.challenges
      → policy_holds new_password ≡ true
      → confirm_password_reset db crypto config env id code new_password s
        ≡ (err (app_error verification_invalid 400), s)
  unfolding confirm_password_reset reset_body hash_password
  replayed env code new_password s spent strong =
      let law =
        db.transaction_lem (reset_body db crypto config env id code (crypto.hash new_password)) s in
      let refused =
        spent-Refused db crypto config id env.now code ChallengePurpose.password_reset s spent in
      ground (arith, law, refused)

  -- After a password reset that succeeded, its challenge is used up: any further reset with it, at
  -- any time, with any code and any password that keeps the policy, is refused as
  -- VERIFICATION_INVALID (400) and changes nothing. And if there was an account for the identity of
  -- the challenge, no session of its user is good any more, at any time. Condition: challenges
  -- and sessions are told apart by their ids.
  pub confirm_password_reset-Once :
      (env : Env) (code new_password : Text) (s : Store)
      → AtMostOne (of_id db crypto config id) s.challenges
      → HasUniqueIds s.sessions
      → (revoked : List AuthSession) (s' : Store)
      → confirm_password_reset db crypto config env id code new_password s ≡ (ok revoked, s')
      → ((env' : Env) (code' new_password' : Text)
          → policy_holds new_password' ≡ true
          → confirm_password_reset db crypto config env' id code' new_password' s'
            ≡ (err (app_error verification_invalid 400), s'))
        × ((c : AuthChallenge) (credential : UserCredential) (user : Option User)
            → db.find_one (of_id db crypto config id) s.challenges ≡ some c
            → find_credential db c.identity s ≡ some (credential, user)
            → (auth : AuthContext) (later : Time) → auth.user_id ≡ credential.user_id
            → session_is_good db later auth s' ≡ false)
  unfolding save_credential save_challenge
  confirm_password_reset-Once env code new_password s one unique revoked s' done =
      let (c, accepted, account) = made env code new_password s revoked s' done in
      let (_, same, stored) =
        accepted-stored db crypto config id env.now code ChallengePurpose.password_reset s s c
          accepted in
      let table =
        spent_after env code new_password s c (find_credential db c.identity s) revoked s'
          account in
      let spent : IsSpent db crypto config id s'.challenges =
        subst (λ rows. IsSpent db crypto config id rows) (sym table)
          (consumed-IsSpent db crypto config id env.now c s.challenges same one) in
      (
        λ env' code' new_password' strong. replayed env' code' new_password' s' spent strong,
        λ c' credential user found owner auth later mine.
            let final = account_after env code new_password s c credential in
            let ready =
              save_credential db crypto config
                (with_password env.now (crypto.hash new_password) credential) (spent_in env c s) in
            let run =
              revoked-ok db env.now credential.user_id RevokedReason.password_reset none ready in
            let identity : find_credential db c.identity s ≡ some (credential, user) =
              ap (λ x. find_credential db x.identity s) (the_same stored found) ∙ owner in
            let there : s' ≡ final = ground (arith, run.1, account, identity) in
            subst (λ t. session_is_good db later auth t ≡ false) (sym there)
              (after-SignedOut db env.now credential.user_id RevokedReason.password_reset none ready
                unique auth later mine (λ x e. refl)),
      )
    where
      the_same : {o : Option AuthChallenge} {a b : AuthChallenge} → o ≡ some a → o ≡ some b → a ≡ b
      the_same p q = cc
