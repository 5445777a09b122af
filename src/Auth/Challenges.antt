-- ===== src/Auth/Challenges.antt =====
-- apps/im-server/src/modules/auth/services/auth-command.service.ts: `createChallenge`,
-- `consumeChallenge` and `findCredential`. A challenge that is refused is an answer and no throw, so
-- that the attempt it counts is committed. `draw` is what randomInt(0, 1_000_000) gives.
pub mod Attempts
pub mod Once
use slowchat.Base.{
  ℕ, Bool, true, false, ◌+◌, ◌*◌, ◌/◌, ◌&&◌, ◌||◌, not, leb, ◌==◌, Option, none, some, List, [],
  ◌∷◌, is_some, if◌then◌else◌, same_text,
}
use Prim.Native.Nat.{◌%◌}
use slowchat.Base.Action.{
  Action, Result, Error, ok, err, app_error, pure, gets, modify, ◌>>=◌, ◌>>◌, verification_invalid,
  verification_expired, verification_attempts_exceeded,
}
use slowchat.Base.Database.{Database}
use slowchat.Model.{
  Uuid, Time, Text, Digest, Store, AuthIdentity, IdentityType, AuthChallenge, ChallengePurpose,
  UserCredential, User, same_purpose,
}
use slowchat.Sessions.{Env}
use slowchat.Auth.Tokens.{Crypto, AuthConfig, hash_challenge, refresh_hash_matches}

-- What `sendChallenge` is given.
pub record Delivery : Type 0 where
  pub challenge_id : Uuid
  pub code : Text
  pub identity : AuthIdentity
  pub purpose : ChallengePurpose

pub record ChallengeResponse : Type 0 where
  pub challenge_id : Uuid
  pub expires_at : Time
  pub retry_after_seconds : ℕ
  pub debug_code : Option Text

abbrev pub same_challenge : AuthChallenge → AuthChallenge → Bool
same_challenge a b = a.id == b.id

-- The digit of `n` at the place of `unit`.
abbrev digit : ℕ → ℕ → ℕ
digit unit n = 48 + (n / unit) % 10

-- n.toString().padStart(6, "0"), for n below 1,000,000
abbrev pub six_digits : ℕ → Text
six_digits n =
    digit 100000 n ∷ digit 10000 n ∷ digit 1000 n ∷ digit 100 n ∷ digit 10 n ∷ digit 1 n ∷ []

abbrev matches : Text → Option Text → Bool
matches value none = false
matches value (some stored) = same_text stored value

-- { emailNormalized: identity.value } or { phoneE164: identity.value }
abbrev pub credential_of : AuthIdentity → UserCredential → Bool
credential_of identity c = elim identity.type [
  | IdentityType.email ↦ matches identity.value c.email_normalized
  | IdentityType.phone ↦ matches identity.value c.phone_e164
]

module _ (db : Database) where
  open db use {find_one, save}

  -- The credential and its user, if there is one.
  unfoldable pub find_credential : AuthIdentity → Store → Option (UserCredential × Option User)
  find_credential identity s = elim (find_one (credential_of identity) s.credentials) [
    | none ↦ none
    | some c ↦ some (c, find_one (λ u. u.id == c.user_id) s.users)
  ]

  unfoldable pub save_challenge : AuthChallenge → Store → Store
  save_challenge c s = record s { challenges = save same_challenge c s.challenges }

  module _ (crypto : Crypto) (config : AuthConfig) where
    unfoldable pub new_challenge :
        Time → Uuid → Text → ChallengePurpose → AuthIdentity → AuthChallenge
    new_challenge now id code purpose identity = record {
      id = id;
      purpose = purpose;
      identity = identity;
      code_hash = hash_challenge crypto config id code;
      attempts = 0;
      send_count = 1;
      expires_at = now + config.challenge_ttl_seconds * 1000;
      consumed_at = none;
    }

    unfoldable pub create_challenge :
        Env
        → ℕ
        → ChallengePurpose
        → AuthIdentity
        → Bool
        → Action Store (ChallengeResponse × Option Delivery)
    unfolding new_challenge save_challenge
    create_challenge env draw purpose identity deliver =
        let id = env.uuid 0 in
        let code = six_digits draw in
        let row = new_challenge env.now id code purpose identity in
        (do
          modify (save_challenge row)
          pure (
            record {
              challenge_id = id;
              expires_at = row.expires_at;
              retry_after_seconds = config.challenge_resend_seconds;
              debug_code = if config.expose_challenge_code then some code else none;
            },
            if deliver
                then some (record {
                  challenge_id = id;
                  code = code;
                  identity = identity;
                  purpose = purpose;
                })
                else none,
          ))

    -- The tests of `consumeChallenge` on the challenge that was found, up to the one of the code.
    abbrev pub refusal : Time → ChallengePurpose → AuthChallenge → Option Error
    refusal now purpose c =
        if not (same_purpose c.purpose purpose) || is_some c.consumed_at
        then some (app_error verification_invalid 400)
        else if leb c.expires_at now
        then some (app_error verification_expired 400)
        else if leb config.challenge_max_attempts c.attempts
        then some (app_error verification_attempts_exceeded 429)
        else none

    abbrev pub attempted : AuthChallenge → AuthChallenge
    attempted c = record c { attempts = c.attempts + 1 }

    abbrev pub code_matches : Uuid → Text → AuthChallenge → Bool
    code_matches id code c = refresh_hash_matches c.code_hash (hash_challenge crypto config id code)

    abbrev consume_found :
        Time
        → Uuid
        → Text
        → ChallengePurpose
        → Option AuthChallenge
        → Action Store (Result AuthChallenge)
    consume_found now id code purpose none s = (ok (err (app_error verification_invalid 400)), s)
    consume_found now id code purpose (some c) s = elim (refusal now purpose c) [
      | some e ↦ (ok (err e), s)
      | none ↦
          if code_matches id code c
          then (ok (ok c), s)
          else (ok (err (app_error verification_invalid 400)), save_challenge (attempted c) s)
    ]

    unfoldable pub consume_challenge :
        Time → Uuid → Text → ChallengePurpose → Action Store (Result AuthChallenge)
    unfolding save_challenge
    consume_challenge now id code purpose s =
        consume_found now id code purpose (find_one (λ c. c.id == id) s.challenges) s
