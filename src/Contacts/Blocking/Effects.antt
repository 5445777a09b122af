-- ===== src/Contacts/Blocking/Effects.antt =====
-- apps/im-server/src/modules/contacts/services/contact.service.ts: what `block` leaves.
use slowchat.Base.{◌≡◌}
use slowchat.Base.Action.{ok}
use slowchat.Base.Database.{Database}
use slowchat.Model.{Uuid, Store, Block}
use slowchat.Contacts.Blocking.{pair, block, save_block, remove_friendships, cancel_requests}

module _ (db : Database) (user_id blocked_user_id : Uuid) (s s' : Store)
    (done : block db user_id blocked_user_id s ≡ (ok tt, s')) where
  abbrev blocked : Store
  blocked =
      cancel_requests db (pair user_id blocked_user_id)
        (remove_friendships db user_id blocked_user_id (save_block db user_id blocked_user_id s))

  abbrev row : Block
  row = record { user_id = user_id; blocked_user_id = blocked_user_id }
