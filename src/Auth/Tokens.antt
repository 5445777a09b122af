-- ===== src/Auth/Tokens.antt =====
-- apps/im-server/src/modules/auth/services: token.service.ts and password.service.ts. What
-- node:crypto, argon2 and jose compute is a parameter, `Crypto`; so are the text of a UUID and
-- PostgreSQL's reading of one.
pub mod RoundTrip
use slowchat.Base.{
  ℕ, Bool, true, false, ◌&&◌, ◌||◌, not, ltb, ◌==◌, Option, List, [], ◌∷◌, ◌++◌, length,
  if◌then◌else◌,
}
use slowchat.Base.Action.{Result, ok, err, app_error, auth_token_invalid, password_policy_violation}
use slowchat.Model.{Uuid, Digest, Text, AuthIdentity, IdentityType, AuthContext}

pub record Crypto : Type 0 where
  -- createHmac("sha256", key).update(value).digest("hex")
  pub hmac : Text → Text → Digest
  -- hash and verify of @node-rs/argon2
  pub hash : Text → Text
  pub verify : Text → Text → Bool
  -- new SignJWT(…).sign(privateKey)
  pub sign_access_token : AuthContext → Text
  pub print_uuid : Uuid → Text
  pub read_uuid : Text → Option Uuid

-- The part `auth` of the configuration that the services read.
pub record AuthConfig : Type 0 where
  pub refresh_token_pepper : Text
  pub identifier_pepper : Text
  pub challenge_pepper : Text
  pub max_devices : ℕ
  pub challenge_ttl_seconds : ℕ
  pub challenge_max_attempts : ℕ
  pub challenge_resend_seconds : ℕ
  pub login_identity_limit : ℕ
  pub login_ip_limit : ℕ
  pub login_window_seconds : ℕ
  pub expose_challenge_code : Bool

pub record NewRefreshToken : Type 0 where
  pub id : Uuid
  pub secret : Text
  pub token : Text
  pub hash : Digest

pub record ParsedToken : Type 0 where
  pub id : Text
  pub hash : Digest

abbrev pub dot : ℕ
dot = 46

abbrev colon : ℕ
colon = 58

abbrev pub is_empty : Text → Bool
is_empty [] = true
is_empty (_ ∷ _) = false

-- text.split(separator): the first piece and the further ones.
unfoldable pub split : ℕ → Text → Text × List Text
split separator [] = ([], [])
split separator (c ∷ cs) =
    let (piece, more) = split separator cs in
    if c == separator then ([], piece ∷ more) else (c ∷ piece, more)

-- const [id, secret, extra] = …; !(!id || !secret || extra)
abbrev pub has_two_parts : Text → List Text → Bool
has_two_parts id [] = false
has_two_parts id (secret ∷ []) = not (is_empty id) && not (is_empty secret)
has_two_parts id (secret ∷ extra ∷ _) = not (is_empty id) && not (is_empty secret) && is_empty extra

-- left.length === right.length && timingSafeEqual(left, right)
abbrev pub refresh_hash_matches : Digest → Digest → Bool
refresh_hash_matches expected actual = expected == actual

abbrev identity_name : IdentityType → Text
identity_name IdentityType.email = 69 ∷ 77 ∷ 65 ∷ 73 ∷ 76 ∷ []
identity_name IdentityType.phone = 80 ∷ 72 ∷ 79 ∷ 78 ∷ 69 ∷ []

-- assertPolicy
unfoldable pub policy_holds : Text → Bool
policy_holds password = not (ltb (length password) 12 || ltb 128 (length password))

module _ (crypto : Crypto) (config : AuthConfig) where
  open crypto use {hmac, hash, print_uuid}

  unfoldable pub hash_refresh_token : Text → Digest
  hash_refresh_token token = hmac config.refresh_token_pepper token

  unfoldable pub hash_challenge : Uuid → Text → Digest
  hash_challenge challenge_id code =
      hmac config.challenge_pepper (print_uuid challenge_id ++ colon ∷ code)

  unfoldable hash_identifier_text : Text → Text → Digest
  hash_identifier_text type value = hmac config.identifier_pepper (type ++ colon ∷ value)

  unfoldable pub hash_identifier : AuthIdentity → Digest
  unfolding hash_identifier_text
  hash_identifier identity = hash_identifier_text (identity_name identity.type) identity.value

  -- hashIdentifier("IP", ip ?? "unknown")
  unfoldable pub ip_hash : Text → Digest
  unfolding hash_identifier_text
  ip_hash ip = hash_identifier_text (73 ∷ 80 ∷ []) ip

  -- `id` and `secret` are what uuidv7() and randomBytes(32).toString("base64url") give.
  unfoldable pub create_refresh_token : Uuid → Text → NewRefreshToken
  unfolding hash_refresh_token
  create_refresh_token id secret =
      let token = print_uuid id ++ dot ∷ secret in
      record { id = id; secret = secret; token = token; hash = hash_refresh_token token }

  unfoldable pub parse_refresh_token : Text → Result ParsedToken
  unfolding split hash_refresh_token
  parse_refresh_token token =
      let (id, more) = split dot token in
      if has_two_parts id more
      then ok (record { id = id; hash = hash_refresh_token token })
      else err (app_error auth_token_invalid 401)

  unfoldable pub hash_password : Text → Result Text
  unfolding policy_holds
  hash_password password =
      if policy_holds password
      then ok (hash password)
      else err (app_error password_policy_violation 400)
