-- ===== src/Tests/World.antt =====
-- A database over lists, and a small world: users 1 and 2, each with a device and a session, in the
-- direct conversation 10, and users 1, 2 and 3 in the group 20.
use slowchat.Base.{
  ℕ, ◌+◌, ◌≡◌, arith, Bool, refl, true, false, Option, none, some, [], ◌∷◌, ◌++◌, any, first,
  select, count_where, update_where, reject, upsert,
}
use slowchat.Base.Action.{settle, Result, ok, err}
use slowchat.Base.Search.{any_of_first-none, passes_of_first, Among-of_first}
use slowchat.Base.Database.{Database}
use slowchat.Model.{
  Uuid, Store, User, UserStatus, UserType, Device, AccessStatus, AuthSession, AuthContext, Trace,
  Conversation, ConversationType, ConversationStatus, ConversationMember, Role, MemberStatus,
  ConversationUserState, GroupProfile, JoinMode, Time,
}
use slowchat.Sessions.{Env}

abbrev pub list_database : Database
list_database = record {
  find_one = first;
  find_by = select;
  count_by = count_where;
  exists_by = any;
  save = upsert;
  insert = λ r rows. rows ++ r ∷ [];
  identifiers = λ inserted. 1;
  update = update_where;
  delete = reject;
  transaction = λ body s. settle s (body s);
  find_one_none = λ p rows h. any_of_first-none p rows h;
  find_one_some = λ p rows r h. passes_of_first p rows r h;
  find_one_among = λ p rows r h. Among-of_first p rows r h;
  find_by_lem = λ p rows. refl;
  count_by_lem = λ p rows. refl;
  exists_by_lem = λ p rows. refl;
  save_lem = λ same r rows. refl;
  insert_lem = λ r rows. refl;
  update_lem = λ p f rows. refl;
  delete_lem = λ p rows. refl;
  transaction_lem = λ body s. refl;
}

abbrev user_row : Uuid → User
user_row id = record {
  id = id;
  username = none;
  username_normalized = none;
  nickname = 117 ∷ [];
  avatar_url = none;
  signature = none;
  region = none;
  status = UserStatus.active;
  user_type = UserType.user;
}

abbrev device_row : Uuid → Uuid → Device
device_row id user_id = record {
  id = id;
  user_id = user_id;
  client_device_id = 112 ∷ [];
  platform = "IOS";
  name = "phone";
  app_version = none;
  status = AccessStatus.active;
  last_ip = none;
  last_user_agent = none;
  last_seen_at = 0;
  revoked_at = none;
}

abbrev pub session_row : Uuid → Uuid → Uuid → AuthSession
session_row id user_id device_id = record {
  id = id;
  user_id = user_id;
  device_id = device_id;
  token_family_id = id + 100;
  status = AccessStatus.active;
  revoked_reason = none;
  last_ip = none;
  last_user_agent = none;
  last_used_at = 0;
  expires_at = 1000000;
  revoked_at = none;
}

abbrev conversation_row :
    Uuid → ConversationType → Option (Uuid × Uuid) → Option Uuid → ℕ → Conversation
conversation_row id type key owner count = record {
  id = id;
  type = type;
  direct_key = key;
  creator_id = 1;
  owner_id = owner;
  title = none;
  avatar_attachment_id = none;
  last_seq = 0;
  last_message_id = none;
  last_message_at = none;
  member_count = count;
  status = ConversationStatus.active;
  version = 1;
  deleted_at = none;
  created_at = 0;
  updated_at = 0;
}

abbrev pub member_row : Uuid → Uuid → Role → ConversationMember
member_row conversation_id user_id role = record {
  conversation_id = conversation_id;
  user_id = user_id;
  role = role;
  status = MemberStatus.active;
  nickname = none;
  joined_seq = 0;
  joined_at = 0;
  left_at = none;
  mute_until = none;
}

abbrev pub state_row : Uuid → Uuid → ℕ → ConversationUserState
state_row conversation_id user_id unread = record {
  conversation_id = conversation_id;
  user_id = user_id;
  last_delivered_seq = 0;
  last_read_seq = 0;
  clear_before_seq = 0;
  unread_count = unread;
  mention_count = 0;
  pinned_rank = none;
  muted = false;
  archived_at = none;
  hidden_at = none;
  updated_at = 0;
}

abbrev group_profile : GroupProfile
group_profile = record {
  conversation_id = 20;
  title = [];
  announcement = none;
  max_members = 4;
  join_mode = JoinMode.request;
  allow_member_invites = true;
  all_members_muted = false;
  version = 1;
}

abbrev pub world : Store
world = record {
  users = user_row 1 ∷ user_row 2 ∷ user_row 3 ∷ user_row 4 ∷ [];
  devices = device_row 101 1 ∷ device_row 102 2 ∷ device_row 103 3 ∷ device_row 104 4 ∷ [];
  sessions =
      session_row 201 1 101
      ∷ session_row 202 2 102
      ∷ session_row 203 3 103
      ∷ session_row 204 4 104
      ∷ [];
  refresh_tokens = [];
  credentials = [];
  challenges = [];
  login_attempts = [];
  privacy_settings = [];
  friend_requests = [];
  friendships = [];
  blocks = [];
  reports = [];
  conversations =
      conversation_row 10 ConversationType.direct (some (1, 2)) none 2
      ∷ conversation_row 20 ConversationType.group none (some 1) 3
      ∷ [];
  members =
      member_row 10 1 Role.member
      ∷ member_row 10 2 Role.member
      ∷ member_row 20 1 Role.owner
      ∷ member_row 20 2 Role.admin
      ∷ member_row 20 3 Role.member
      ∷ [];
  states =
      state_row 10 1 0
      ∷ state_row 10 2 0
      ∷ state_row 20 1 0
      ∷ state_row 20 2 0
      ∷ state_row 20 3 0
      ∷ [];
  messages = [];
  reactions = [];
  hides = [];
  profiles = group_profile ∷ [];
  join_requests = [];
  invites = [];
  attachments = [];
  outbox = [];
}

abbrev pub auth_of : Uuid → AuthContext
auth_of n = record { user_id = n; session_id = n + 200; device_id = n + 100 }

abbrev pub no_trace : Trace
no_trace = record { request_id = none; trace_id = none }

abbrev pub env_at : Time → Uuid → Env
env_at now base = record { now = now; uuid = λ k. base + k }

abbrev pub direct_row : Conversation
direct_row = conversation_row 10 ConversationType.direct (some (1, 2)) none 2

-- Users 1 and 2 are contacts of each other.
abbrev pub befriended : Store
befriended = record world {
  friendships =
      record { user_id = 1; contact_user_id = 2; remark = none }
      ∷ record { user_id = 2; contact_user_id = 1; remark = none }
      ∷ [];
}

-- The answer of a run that succeeds.
abbrev pub is_ok : {A : Type 0} → Result A → Bool
is_ok (ok a) = true
is_ok (err e) = false

abbrev pub answer_of : {A : Type 0} (r : Result A) → is_ok r ≡ true → A
answer_of (ok a) h = a
answer_of (err e) h = absurd (ground arith)

pub is_answer :
    {A : Type 0} (run : Result A × Store) (h : is_ok run.0 ≡ true)
    → run ≡ (ok (answer_of run.0 h), run.1)
is_answer (ok a, s) h = refl
is_answer (err e, s) h = absurd (ground arith)
