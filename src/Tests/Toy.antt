-- ===== src/Tests/Toy.antt =====
-- Toy cryptography, settings, and a store with an account, a token and a challenge.
use slowchat.Base.{ℕ, ◌+◌, ◌-◌, false, ◌==◌, Option, none, some, [], ◌∷◌, arith}
use slowchat.Model.{
  Uuid, Text, Store, RefreshToken, TokenStatus, RequestMetadata, AuthChallenge, AuthIdentity,
  IdentityType, ChallengePurpose, UserCredential,
}
use slowchat.Auth.Tokens.{Crypto, AuthConfig}
use slowchat.Auth.Revoking.Loop.{HasUniqueIds}
use slowchat.Tests.World.{world}

abbrev total : Text → ℕ
total [] = 0
total (c ∷ cs) = c + total cs

abbrev read_code : Text → Option Uuid
read_code [] = none
read_code (c ∷ []) = some (c - 1000)
read_code (c ∷ _ ∷ _) = none

-- A toy: a digest is a sum, and a UUID has one character.
abbrev pub toy_crypto : Crypto
toy_crypto = record {
  hmac = λ key value. total value;
  hash = λ password. password;
  verify = λ hash password. total hash == total password;
  sign_access_token = λ context. context.user_id ∷ [];
  print_uuid = λ id. (id + 1000) ∷ [];
  read_uuid = read_code;
}

abbrev pub settings : AuthConfig
settings = record {
  refresh_token_pepper = [];
  identifier_pepper = [];
  challenge_pepper = [];
  max_devices = 5;
  challenge_ttl_seconds = 600;
  challenge_max_attempts = 5;
  challenge_resend_seconds = 60;
  login_identity_limit = 3;
  login_ip_limit = 20;
  login_window_seconds = 900;
  expose_challenge_code = false;
}

abbrev pub nowhere : RequestMetadata
nowhere = record { ip = none; user_agent = none }

abbrev pub secret : Text
secret = 65 ∷ 66 ∷ []

-- The text of the token 7.
abbrev pub token : Text
token = 1007 ∷ 46 ∷ 65 ∷ 66 ∷ []

abbrev pub spaced_email : AuthIdentity
spaced_email = record { type = IdentityType.email; value = 32 ∷ 65 ∷ 64 ∷ 66 ∷ 10 ∷ [] }

abbrev pub plain_email : AuthIdentity
plain_email = record { type = IdentityType.email; value = 97 ∷ 64 ∷ 98 ∷ [] }

abbrev pub token_row : RefreshToken
token_row = record {
  id = 7;
  session_id = 201;
  token_family_id = 301;
  token_hash = 1184;
  status = TokenStatus.active;
  replaced_by_token_id = none;
  used_at = none;
  expires_at = 1000000;
}

abbrev pub challenge_row : AuthChallenge
challenge_row = record {
  id = 9;
  purpose = ChallengePurpose.password_reset;
  identity = plain_email;
  code_hash = 1122;
  attempts = 4;
  send_count = 1;
  expires_at = 600000;
  consumed_at = none;
}

abbrev pub credential_row : UserCredential
credential_row = record {
  user_id = 1;
  password_hash = some (50 ∷ 51 ∷ []);
  email_normalized = some (97 ∷ 64 ∷ 98 ∷ []);
  phone_e164 = none;
  identity_verified_at = 0;
  password_changed_at = 0;
}

abbrev pub account : Store
account = record world {
  refresh_tokens = token_row ∷ [];
  challenges = challenge_row ∷ [];
  credentials = credential_row ∷ [];
}

pub account-HasUniqueIds : HasUniqueIds account.sessions
account-HasUniqueIds = λ id. ground arith
