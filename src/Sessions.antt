-- ===== src/Sessions.antt =====
-- apps/im-server/src/modules/auth/services/auth-session.service.ts: is a session still good for its
-- device and user, and the revocation of a session with its refresh tokens.
pub mod Revocation
use slowchat.Base.{ℕ, Bool, false, not, ◌&&◌, Option, none, some, List, ◌==◌, leb, if◌then◌else◌}
use slowchat.Base.Action.{Action, ok, err, app_error, auth_session_revoked}
use slowchat.Base.Database.{Database}
use slowchat.Model.{
  Uuid, Time, Store, User, Device, AuthSession, AccessStatus, TokenStatus, AuthContext,
  RevokedReason, access_is_active, user_is_active,
}

-- What a request reads of its surroundings: `Date.now()`, read once, and the UUIDs that `uuidv7()`
-- gives, by the order of the calls.
pub record Env : Type 0 where
  pub now : Time
  pub uuid : ℕ → Uuid

-- s.id = :sessionId AND s.user_id = :userId AND s.device_id = :deviceId
abbrev pub session_of : AuthContext → AuthSession → Bool
session_of auth s =
    s.id == auth.session_id && s.user_id == auth.user_id && s.device_id == auth.device_id

abbrev pub same_session : AuthSession → AuthSession → Bool
same_session a b = a.id == b.id

-- The columns that `validateWithManager` tests.
abbrev row_is_active : Time → AuthSession → Device → User → Bool
row_is_active now s d u =
    access_is_active s.status
    && access_is_active d.status
    && user_is_active u.status
    && not (leb s.expires_at now)

module _ (db : Database) where
  open db use {find_one, save, update}

  abbrev joined_user : Time → AuthSession → Device → Option User → Bool
  joined_user now s d none = false
  joined_user now s d (some u) = row_is_active now s d u

  abbrev joined_device : Time → List User → AuthSession → Option Device → Bool
  joined_device now users s none = false
  joined_device now users s (some d) = joined_user now s d (find_one (λ u. u.id == s.user_id) users)

  abbrev joined_session : Time → Store → Option AuthSession → Bool
  joined_session now store none = false
  joined_session now store (some s) =
      joined_device now store.users s (find_one (λ d. d.id == s.device_id) store.devices)

  -- The join of session, device and user gives a row, and the row passes.
  unfoldable pub session_is_good : Time → AuthContext → Store → Bool
  session_is_good now auth store =
      joined_session now store (find_one (session_of auth) store.sessions)

  unfoldable pub validate_with_manager : Time → AuthContext → Action Store Unit
  validate_with_manager now auth store = (
    if session_is_good now auth store then ok tt else err (app_error auth_session_revoked 401),
    store,
  )

  abbrev pub revoked_session : Time → RevokedReason → AuthSession → AuthSession
  revoked_session now reason s = record s {
    status = AccessStatus.revoked;
    revoked_reason = some reason;
    revoked_at = some now;
  }

  abbrev revoke_found :
      Time → RevokedReason → Option AuthSession → Action Store (Option AuthSession)
  revoke_found now reason none store = (ok none, store)
  revoke_found now reason (some s) store =
      if access_is_active s.status
      then (
        ok (some (revoked_session now reason s)),
        record store {
          sessions = save same_session (revoked_session now reason s) store.sessions;
          refresh_tokens =
              update (λ t. t.session_id == s.id) (λ t. record t { status = TokenStatus.revoked })
                store.refresh_tokens;
        },
      )
      else (ok (some s), store)

  unfoldable pub revoke_session : Time → Uuid → RevokedReason → Action Store (Option AuthSession)
  revoke_session now session_id reason store =
      revoke_found now reason (find_one (λ s. s.id == session_id) store.sessions) store
