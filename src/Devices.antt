-- ===== src/Devices.antt =====
-- apps/im-server/src/modules/devices/services/device.service.ts: `removeSession` and `removeDevice`.
-- The answer is the sessions that `notify` then tells Redis and the sockets of.
pub mod Removal
use slowchat.Base.{Bool, ◌&&◌, ◌==◌, none, some, List, [], ◌∷◌, Option}
use slowchat.Base.Action.{
  Action, not_found, device_not_found, pure, gets, modify, or_throw, ◌>>=◌, ◌>>◌,
}
use slowchat.Base.Database.{Database}
use slowchat.Model.{
  Uuid, Time, Store, Device, AuthSession, AuthContext, AccessStatus, RevokedReason,
  access_is_active,
}
use slowchat.Sessions.{Env, revoke_session}

abbrev pub same_device : Device → Device → Bool
same_device a b = a.id == b.id

-- { id: deviceId, userId: context.userId }
abbrev pub device_of : Uuid → Uuid → Device → Bool
device_of user_id device_id d = d.id == device_id && d.user_id == user_id

-- { deviceId, userId: context.userId, status: "ACTIVE" }
abbrev pub active_on : Uuid → Uuid → AuthSession → Bool
active_on user_id device_id x =
    x.device_id == device_id && x.user_id == user_id && access_is_active x.status

-- device.status = "REVOKED"; device.revokedAt = new Date()
abbrev pub revoked_device : Time → Device → Device
revoked_device now d = record d { status = AccessStatus.revoked; revoked_at = some now }

module _ (db : Database) where
  open db use {find_one, find_by, save, transaction}

  unfoldable pub remove_session : Env → AuthContext → Uuid → Action Store (Option AuthSession)
  remove_session env context session_id = transaction (do
    found ←
        gets (λ s. find_one (λ x. x.id == session_id && x.user_id == context.user_id) s.sessions)
    session ← or_throw found not_found 404
    revoke_session db env.now session.id RevokedReason.session_removed)

  -- for (const session of active) …
  unfoldable pub revoke_all : Time → List AuthSession → Action Store (List AuthSession)
  revoke_all now [] = pure []
  revoke_all now (x ∷ xs) = do
    value ← revoke_session db now x.id RevokedReason.device_removed
    rest ← revoke_all now xs
    pure (elim value [ none ↦ rest | some revoked ↦ revoked ∷ rest ])

  unfoldable pub save_device : Device → Store → Store
  save_device d s = record s { devices = save same_device d s.devices }

  unfoldable pub remove_body : Env → AuthContext → Uuid → Action Store (List AuthSession)
  unfolding save_device
  remove_body env context device_id = do
    found ← gets (λ s. find_one (device_of context.user_id device_id) s.devices)
    device ← or_throw found device_not_found 404
    modify (save_device (revoked_device env.now device))
    active ← gets (λ s. find_by (active_on context.user_id device_id) s.sessions)
    revoke_all env.now active

  unfoldable pub remove_device : Env → AuthContext → Uuid → Action Store (List AuthSession)
  unfolding remove_body
  remove_device env context device_id = transaction (remove_body env context device_id)
