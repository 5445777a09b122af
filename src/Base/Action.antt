-- ===== src/Base/Action.antt =====
-- A service call: it reads and writes the store and may throw. The store comes back beside an
-- error too, since what was written outside of a transaction stays written.
use mathlib.Core.Bool.{Bool}
use mathlib.Core.Option.{Option, none, some}
use mathlib.Core.Path.{◌≡◌, refl}
use mathlib.Core.Logic.{◌⊎◌, inl, inr}
use Prim.Native.Nat.{ℕ}
use slowchat.Base.Tests.{if◌then◌else◌}

-- packages/contracts/src/errors/index.ts
pub data ErrorCode : Type 0 where
  validation_error unauthorized forbidden not_found conflict rate_limited : ErrorCode
  auth_invalid_credentials auth_token_invalid auth_token_expired auth_refresh_reused : ErrorCode
  auth_session_revoked auth_account_unavailable device_limit_reached device_not_found : ErrorCode
  verification_invalid verification_expired verification_attempts_exceeded : ErrorCode
  identifier_already_registered username_taken password_policy_violation : ErrorCode
  privacy_restricted friend_request_conflict friend_request_not_found contact_not_found : ErrorCode
  user_blocked block_conflict conversation_not_found conversation_forbidden : ErrorCode
  conversation_conflict message_not_found message_forbidden message_type_unsupported : ErrorCode
  message_payload_invalid message_idempotency_conflict message_seq_invalid : ErrorCode
  receipt_seq_invalid sync_cursor_expired sync_device_forbidden sync_limit_invalid : ErrorCode
  sync_event_version_unsupported upload_not_found upload_expired upload_state_invalid : ErrorCode
  attachment_not_found attachment_forbidden attachment_not_ready : ErrorCode
  attachment_validation_failed attachment_quarantined message_recall_window_expired : ErrorCode
  message_already_recalled message_already_hidden reaction_invalid reaction_conflict : ErrorCode
  reaction_not_found search_query_invalid service_unavailable internal_error : ErrorCode

-- The constraints of the migrations that the services can run into.
pub data Constraint : Type 0 where
  messages_sender_id_client_message_id_key conversations_active_direct_uq : Constraint
  conversations_member_count_ck group_invites_pending_uq group_join_requests_pending_uq : Constraint
  friend_requests_pending_pair_uq : Constraint

-- `app_error` is `AppError` (its text is left out); `unique_violation` and `check_violation` are
-- the database's errors 23505 and 23514; `failure` is a plain `Error`.
pub data Error : Type 0 where
  app_error : ErrorCode → ℕ → Error
  unique_violation check_violation : Constraint → Error
  failure : Error

pub data Result {ℓ} (A : Type ℓ) : Type ℓ where
  ok : A → Result A
  err : Error → Result A

pub Result-cases :
    {A : Type 0} (r : Result A) → ((a : A) × (r ≡ ok a)) ⊎ ((e : Error) × (r ≡ err e))
Result-cases (ok a) = inl (a, refl)
Result-cases (err e) = inr (e, refl)

abbrev pub Action : Type 0 → Type 0 → Type 0
Action S A = S → Result A × S

module _ {S A : Type 0} where
  abbrev pub pure : A → Action S A
  pure a s = (ok a, s)

  abbrev pub raise : Error → Action S A
  raise e s = (err e, s)

  -- throw new AppError(code, …, status)
  abbrev pub throw : ErrorCode → ℕ → Action S A
  throw code status s = (err (app_error code status), s)

  abbrev pub gets : (S → A) → Action S A
  gets f s = (ok (f s), s)

  -- if (!value) throw new AppError(code, …, status)
  abbrev pub or_throw : Option A → ErrorCode → ℕ → Action S A
  or_throw none code status s = (err (app_error code status), s)
  or_throw (some a) code status s = (ok a, s)

module _ {S : Type 0} where
  -- if (test) throw new AppError(code, …, status)
  abbrev pub throw_if : Bool → ErrorCode → ℕ → Action S Unit
  throw_if test code status s = (if test then err (app_error code status) else ok tt, s)

  abbrev pub raise_if : Bool → Error → Action S Unit
  raise_if test e s = (if test then err e else ok tt, s)

  abbrev pub modify : (S → S) → Action S Unit
  modify f s = (ok tt, f s)

module _ {S A B : Type 0} where
  infixl 5 ◌>>=◌ ◌>>◌
  abbrev pub ◌>>=◌ : Action S A → (A → Action S B) → Action S B
  ◌>>=◌ m f s = let (r, s') = m s in elim r [ ok a ↦ f a s' | err e ↦ (err e, s') ]

  abbrev pub ◌>>◌ : Action S A → Action S B → Action S B
  m >> k = m >>= λ _. k

-- How a transaction ends: a body that returns is committed, one that throws is rolled back.
abbrev pub settle : {S A : Type 0} → S → Result A × S → Result A × S
settle s (ok a, s') = (ok a, s')
settle s (err e, _) = (err e, s)

-- A check reads the store and may throw.
abbrev pub Check : Type 0 → Type 0 → Type 0
Check S A = S → Result A

module _ {S A : Type 0} where
  abbrev pub checked : Check S A → Action S A
  checked c s = (c s, s)
