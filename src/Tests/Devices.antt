-- ===== src/Tests/Devices.antt =====
-- `removeDevice` at concrete inputs.
use slowchat.Base.{◌≡◌, false, none, List, arith, first, ◌==◌}
use slowchat.Base.Action.{ok, err, app_error, device_not_found}
use slowchat.Base.Rows.{AtMostOne}
use slowchat.Model.{Store, Device, AuthSession, AuthContext, Time}
use slowchat.Sessions.{session_is_good}
use slowchat.Devices.{remove_device, device_of}
use slowchat.Devices.Removal.{remove_device-SignedOut}
use slowchat.Tests.World.{list_database, world, auth_of, env_at}

one_device : AtMostOne (λ (d : Device). d.id == 101) world.devices
one_device = ground arith

remove_device-SignedOut_example :
    ((revoked : List AuthSession) (s' : Store)
      → remove_device list_database (env_at 5 1000) (auth_of 1) 101 world ≡ (ok revoked, s')
      → (auth : AuthContext) (later : Time) → auth.device_id ≡ 101
      → session_is_good list_database later auth s' ≡ false)
    × (first (device_of 1 101) world.devices ≡ none
        → remove_device list_database (env_at 5 1000) (auth_of 1) 101 world
          ≡ (err (app_error device_not_found 404), world))
remove_device-SignedOut_example =
    remove_device-SignedOut list_database (env_at 5 1000) (auth_of 1) 101 world one_device
