-- ===== src/Tests/Auth.antt =====
-- Tokens, challenges, refresh, logout and passwords at concrete inputs.
use slowchat.Base.{
  if◌then◌else◌, ◌≡◌, ◌+◌, refl, Bool, true, false, ◌==◌, leb, Option, none, some, List, [], ◌∷◌,
  arith, All, Among, first, update_where, is_some, inl, inr,
}
use slowchat.Base.Rows.{AtMostOne}
use slowchat.Base.Action.{
  Error, Result, ok, err, app_error, auth_refresh_reused, auth_invalid_credentials,
  password_policy_violation, validation_error, verification_invalid,
}
use slowchat.Model.{
  RequestMetadata, Uuid, Time, Text, Store, AuthContext, AuthSession, RefreshToken, AuthChallenge,
  ChallengePurpose, UserCredential, User, same_purpose,
}
use slowchat.Sessions.{Env, session_is_good}
use slowchat.Auth.Tokens.{
  Crypto, AuthConfig, ParsedToken, create_refresh_token, parse_refresh_token, policy_holds,
}
use slowchat.Auth.Tokens.RoundTrip.{parse-create_refresh_token}
use slowchat.Auth.Normalizer.{normalize, is_e164, trim, trim_start, trim_end, to_lower_case}
use slowchat.Auth.Normalizer.Canonical.{IsCore, IsLowered, email, phone, normalize_lem}
use slowchat.Auth.Challenges.{consume_challenge, refusal, code_matches, find_credential}
use slowchat.Auth.Challenges.Attempts.{WithinLimit, consume_challenge-Limited}
use slowchat.Auth.Revoking.{logout_all}
use slowchat.Auth.Revoking.Everywhere.{logout_all-SignedOut}
use slowchat.Auth.Issue.{TokenResponse}
use slowchat.Auth.Refresh.{refresh}
use slowchat.Auth.Refresh.Rotation.{token_id}
use slowchat.Auth.Refresh.Replay.{refresh-Once}
use slowchat.Auth.Passwords.{change_password, confirm_password_reset, knows_password, with_password}
use slowchat.Auth.Passwords.Change.{change_password-SignsOthersOut}
use slowchat.Auth.Passwords.Reset.{confirm_password_reset-Once}
use slowchat.Tests.World.{list_database, auth_of, env_at, is_ok, answer_of, is_answer}
use slowchat.Tests.Toy.{
  toy_crypto, settings, nowhere, secret, token, spaced_email, plain_email, credential_row, account,
  account-HasUniqueIds,
}

parse-create_refresh_token_example :
    parse_refresh_token toy_crypto settings token ≡ ok (record { id = 1007 ∷ []; hash = 1184 })
unfolding create_refresh_token
parse-create_refresh_token_example =
    parse-create_refresh_token toy_crypto settings 7 secret refl refl refl refl

normalize_lem_example :
    (core : Text) × IsCore spaced_email.value core
    × ((lowered : Text) × IsLowered core lowered
        × (normalize (email spaced_email.value) ≡ ok (email lowered))
        × (normalize (email lowered) ≡ ok (email lowered)))
    × (normalize (phone spaced_email.value)
        ≡ (if is_e164 core then ok (phone core) else err (app_error validation_error 400)))
normalize_lem_example = normalize_lem spaced_email.value

spaced_email_normal : normalize spaced_email ≡ ok plain_email
unfolding normalize trim trim_start trim_end to_lower_case
spaced_email_normal = refl

one_token : (id : Uuid) → AtMostOne (token_id id) account.refresh_tokens
one_token = λ id. ground arith

one_challenge : AtMostOne (λ (c : AuthChallenge). c.id == 9) account.challenges
one_challenge = ground arith

within :
    All
      (WithinLimit list_database toy_crypto settings 5 9
        (55 ∷ [])
        ChallengePurpose.password_reset
        account)
      account.challenges
within = ground arith

families :
    (t : RefreshToken) (x : AuthSession)
    → Among t account.refresh_tokens
    → Among x account.sessions
    → t.session_id ≡ x.id
    → t.token_family_id ≡ x.token_family_id
families t x (inl e) (inl f) h = ground arith
families t x (inl e) (inr (inl f)) h = ground arith
families t x (inl e) (inr (inr (inl f))) h = ground arith
families t x (inl e) (inr (inr (inr (inl f)))) h = ground arith
families t x (inl e) (inr (inr (inr (inr f)))) h = absurd f
families t x (inr a) f h = absurd a

abbrev first_run : Result TokenResponse × Store
first_run = refresh list_database toy_crypto settings (env_at 5 500) secret nowhere token account

first_run-ok : is_ok first_run.0 ≡ true
unfolding refresh parse_refresh_token slowchat.Auth.Revoking.find_token
first_run-ok = refl

abbrev first_response : TokenResponse
first_response = answer_of first_run.0 first_run-ok

refresh-Once_example :
    (s : Store) × (refresh list_database toy_crypto settings
        (env_at 6 600)
        (67 ∷ [])
        nowhere
        token
        first_run.1
      ≡ (err (app_error auth_refresh_reused 401), s))
    × ((auth : AuthContext) (later : Time)
        → auth.session_id ≡ first_response.session.id
        → session_is_good list_database later auth s ≡ false)
    × ((later : Env) (secret' : Text) (metadata' : RequestMetadata)
        → (e : Error) × (refresh list_database toy_crypto settings later secret' metadata' token s
            ≡ (err e, s)))
unfolding create_refresh_token
refresh-Once_example =
    refresh-Once list_database toy_crypto settings token (env_at 5 500) secret nowhere account
      one_token account-HasUniqueIds refl families first_response first_run.1
      (is_answer first_run first_run-ok) (env_at 6 600) (67 ∷ []) nowhere

logout_all-SignedOut_example :
    (revoked : List AuthSession) × (s' : Store) × (logout_all list_database
        (env_at 5 500)
        (auth_of 1)
        account
      ≡ (ok revoked, s'))
    × ((auth : AuthContext) (later : Time)
        → auth.user_id ≡ 1
        → session_is_good list_database later auth s' ≡ false)
logout_all-SignedOut_example =
    logout_all-SignedOut list_database (env_at 5 500) (auth_of 1) account account-HasUniqueIds

abbrev new_password : Text
new_password = 97 ∷ 97 ∷ 97 ∷ 97 ∷ 97 ∷ 97 ∷ 97 ∷ 97 ∷ 97 ∷ 97 ∷ 97 ∷ 97 ∷ []

strong : policy_holds new_password ≡ true
unfolding policy_holds
strong = refl

abbrev reset_run : Result (List AuthSession) × Store
reset_run =
    confirm_password_reset list_database toy_crypto settings (env_at 5 500) 9 (55 ∷ []) new_password
      account

reset_run-ok : is_ok reset_run.0 ≡ true
unfolding confirm_password_reset slowchat.Auth.Tokens.hash_password consume_challenge
    slowchat.Auth.Tokens.hash_challenge find_credential
    slowchat.Auth.Revoking.revoke_user_sessions_in_manager slowchat.Auth.Revoking.revoke_each
    slowchat.Sessions.revoke_session
reset_run-ok = refl

confirm_password_reset-Once_example :
    ((env' : Env) (code' new_password' : Text)
      → policy_holds new_password' ≡ true
      → confirm_password_reset list_database toy_crypto settings env' 9 code' new_password'
          reset_run.1
        ≡ (err (app_error verification_invalid 400), reset_run.1))
    × ((c : AuthChallenge) (credential : UserCredential) (user : Option User)
        → first (λ c. c.id == 9) account.challenges ≡ some c
        → find_credential list_database c.identity account ≡ some (credential, user)
        → (auth : AuthContext) (later : Time) → auth.user_id ≡ credential.user_id
        → session_is_good list_database later auth reset_run.1 ≡ false)
confirm_password_reset-Once_example =
    confirm_password_reset-Once list_database toy_crypto settings 9 (env_at 5 500) (55 ∷ [])
      new_password account one_challenge account-HasUniqueIds (answer_of reset_run.0 reset_run-ok)
      reset_run.1 (is_answer reset_run reset_run-ok)

change_password-SignsOthersOut_example :
    (knows_password list_database toy_crypto settings (50 ∷ 51 ∷ []) (some credential_row) ≡ true
      → policy_holds new_password ≡ true
      → (revoked : List AuthSession) × (s' : Store) × (change_password list_database toy_crypto
            settings
            (env_at 5 500)
            (auth_of 1)
            (50 ∷ 51 ∷ [])
            new_password
            true
            account
          ≡ (ok revoked, s'))
        × ((auth : AuthContext) (later : Time)
            → auth.user_id ≡ 1
            → (auth.session_id == 201) ≡ false
            → session_is_good list_database later auth s' ≡ false)
        × ((later : Time)
            → session_is_good list_database later (auth_of 1) s'
              ≡ session_is_good list_database later (auth_of 1) account)
        × (s'.credentials
            ≡ update_where
                (λ c. c.user_id == 1)
                (with_password 5 new_password)
                account.credentials))
    × (knows_password list_database toy_crypto settings (50 ∷ 51 ∷ []) (some credential_row) ≡ true
        → policy_holds new_password ≡ true
        → (s' : Store) × (change_password list_database toy_crypto settings
              (env_at 5 500)
              (auth_of 1)
              (50 ∷ 51 ∷ [])
              new_password
              false
              account
            ≡ (ok [], s'))
          × ((auth : AuthContext) (later : Time)
              → session_is_good list_database later auth s'
                ≡ session_is_good list_database later auth account)
          × (s'.credentials
              ≡ update_where
                  (λ c. c.user_id == 1)
                  (with_password 5 (toy_crypto.hash new_password))
                  account.credentials))
    × (knows_password list_database toy_crypto settings (50 ∷ 51 ∷ []) (some credential_row) ≡ true
        → policy_holds new_password ≡ false
        → (others : Bool)
        → change_password list_database toy_crypto settings
            (env_at 5 500)
            (auth_of 1)
            (50 ∷ 51 ∷ [])
            new_password
            others
            account
          ≡ (err (app_error password_policy_violation 400), account))
    × (knows_password list_database toy_crypto settings (50 ∷ 51 ∷ []) (some credential_row) ≡ false
        → (others : Bool)
        → change_password list_database toy_crypto settings
            (env_at 5 500)
            (auth_of 1)
            (50 ∷ 51 ∷ [])
            new_password
            others
            account
          ≡ (err (app_error auth_invalid_credentials 401), account))
change_password-SignsOthersOut_example =
    change_password-SignsOthersOut list_database toy_crypto settings (env_at 5 500) (auth_of 1)
      (50 ∷ 51 ∷ []) new_password account account-HasUniqueIds

consume_challenge-Limited_example :
    ((c : AuthChallenge) (s' : Store)
      → consume_challenge list_database toy_crypto settings 5 9
          (55 ∷ [])
          ChallengePurpose.password_reset
          account
        ≡ (ok (ok c), s')
      → (s' ≡ account)
        × (same_purpose c.purpose ChallengePurpose.password_reset ≡ true)
        × (is_some c.consumed_at ≡ false)
        × (leb c.expires_at 5 ≡ false)
        × (leb 5 c.attempts ≡ false)
        × (code_matches list_database toy_crypto settings 9 (55 ∷ []) c ≡ true))
    × ((c : AuthChallenge)
        → first (λ c. c.id == 9) account.challenges ≡ some c
        → refusal list_database toy_crypto settings 5 ChallengePurpose.password_reset c ≡ none
        → code_matches list_database toy_crypto settings 9 (55 ∷ []) c ≡ false
        → let (answer, s') =
            consume_challenge list_database toy_crypto settings 5 9
              (55 ∷ [])
              ChallengePurpose.password_reset
              account in
          (answer ≡ ok (err (app_error verification_invalid 400)))
          × (first (λ c. c.id == 9) s'.challenges ≡ some (record c { attempts = c.attempts + 1 })))
    × All
        (WithinLimit list_database toy_crypto settings 5 9
          (55 ∷ [])
          ChallengePurpose.password_reset
          account)
        (consume_challenge list_database toy_crypto settings 5 9
          (55 ∷ [])
          ChallengePurpose.password_reset
          account).1.challenges
consume_challenge-Limited_example =
    consume_challenge-Limited list_database toy_crypto settings 5 9 (55 ∷ [])
      ChallengePurpose.password_reset account one_challenge within
