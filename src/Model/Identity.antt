-- ===== src/Model/Identity.antt =====
-- Users, devices, sessions, refresh tokens and challenges:
-- apps/im-server/src/modules/{auth,devices,users}/persistence/entities.
-- A UUID is a 128-bit number, so that its lower-case text is ordered as the number is; a time is
-- in milliseconds; a digest is the number that its hexadecimal text denotes.
use slowchat.Base.{ℕ, Bool, true, false, Option, List}
use Prim.Native.String.{String}

abbrev pub Uuid : Type 0
Uuid = ℕ

abbrev pub Time : Type 0
Time = ℕ

abbrev pub Digest : Type 0
Digest = ℕ

-- A text is the list of its UTF-16 code units.
abbrev pub Text : Type 0
Text = List ℕ

pub data UserStatus : Type 0 where
  active frozen disabled deleted : UserStatus

pub data UserType : Type 0 where
  user bot system : UserType

-- The status of a device and of a session.
pub data AccessStatus : Type 0 where
  active revoked : AccessStatus

pub data TokenStatus : Type 0 where
  active used revoked : TokenStatus

pub record User : Type 0 where
  pub id : Uuid
  pub username : Option Text
  pub username_normalized : Option Text
  pub nickname : Text
  pub avatar_url : Option String
  pub signature : Option String
  pub region : Option String
  pub status : UserStatus
  pub user_type : UserType

pub record Device : Type 0 where
  pub id : Uuid
  pub user_id : Uuid
  pub client_device_id : Text
  pub platform : String
  pub name : String
  pub app_version : Option String
  pub status : AccessStatus
  pub last_ip : Option Text
  pub last_user_agent : Option String
  pub last_seen_at : Time
  pub revoked_at : Option Time

pub data RevokedReason : Type 0 where
  refresh_token_reused subject_unavailable logout logout_all password_changed : RevokedReason
  password_reset session_replaced session_removed device_removed : RevokedReason
  account_deleted : RevokedReason

pub record AuthSession : Type 0 where
  pub id : Uuid
  pub user_id : Uuid
  pub device_id : Uuid
  pub token_family_id : Uuid
  pub status : AccessStatus
  pub revoked_reason : Option RevokedReason
  pub last_ip : Option Text
  pub last_user_agent : Option String
  pub last_used_at : Time
  pub expires_at : Time
  pub revoked_at : Option Time

pub record RefreshToken : Type 0 where
  pub id : Uuid
  pub session_id : Uuid
  pub token_family_id : Uuid
  pub token_hash : Digest
  pub status : TokenStatus
  pub replaced_by_token_id : Option Uuid
  pub used_at : Option Time
  pub expires_at : Time

pub data ChallengePurpose : Type 0 where
  registration password_reset : ChallengePurpose

pub data IdentityType : Type 0 where
  email phone : IdentityType

-- identitySchema of packages/contracts/src/api/auth.ts
pub record AuthIdentity : Type 0 where
  pub type : IdentityType
  pub value : Text

pub record AuthChallenge : Type 0 where
  pub id : Uuid
  pub purpose : ChallengePurpose
  pub identity : AuthIdentity
  pub code_hash : Digest
  pub attempts : ℕ
  pub send_count : ℕ
  pub expires_at : Time
  pub consumed_at : Option Time

pub record UserCredential : Type 0 where
  pub user_id : Uuid
  pub password_hash : Option Text
  pub email_normalized : Option Text
  pub phone_e164 : Option Text
  pub identity_verified_at : Time
  pub password_changed_at : Time

pub data LoginResult : Type 0 where
  failed succeeded : LoginResult

pub data RiskReason : Type 0 where
  new_device session_replaced : RiskReason

-- The generated id is left out: nothing refers to it.
pub record AuthLoginAttempt : Type 0 where
  pub identity_hash : Digest
  pub user_id : Option Uuid
  pub ip : Option Text
  pub client_device_id : Text
  pub result : LoginResult
  pub risk_reasons : List RiskReason

-- apps/im-server/src/modules/auth/auth.types.ts
pub record AuthContext : Type 0 where
  pub user_id : Uuid
  pub session_id : Uuid
  pub device_id : Uuid

pub record RequestMetadata : Type 0 where
  pub ip : Option Text
  pub user_agent : Option String

abbrev pub user_is_active : UserStatus → Bool
user_is_active UserStatus.active = true
user_is_active _ = false

abbrev pub access_is_active : AccessStatus → Bool
access_is_active AccessStatus.active = true
access_is_active AccessStatus.revoked = false

abbrev pub token_is_active : TokenStatus → Bool
token_is_active TokenStatus.active = true
token_is_active _ = false

abbrev pub token_is_used : TokenStatus → Bool
token_is_used TokenStatus.used = true
token_is_used _ = false

abbrev pub is_user : UserType → Bool
is_user UserType.user = true
is_user _ = false

abbrev pub same_purpose : ChallengePurpose → ChallengePurpose → Bool
same_purpose ChallengePurpose.registration ChallengePurpose.registration = true
same_purpose ChallengePurpose.password_reset ChallengePurpose.password_reset = true
same_purpose _ _ = false
