-- ===== src/Tests/Contacts.antt =====
-- `block`, and a request that is accepted, at concrete inputs.
use slowchat.Base.{◌≡◌, refl, true, false, any, none, [], ◌∷◌}
use slowchat.Model.{Store, Audience}
use slowchat.Contacts.Policy.{friendship_of}
use slowchat.Contacts.Blocking.{block}
use slowchat.Contacts.Requests.{Decision}
use slowchat.Contacts.WellFormed.{WellFormed, Command, perform}
use slowchat.Tests.World.{list_database, befriended, world, env_at}

abbrev blocked_world : Store
blocked_world = (block list_database 1 2 befriended).1

-- User 2 admits requests of everyone.
abbrev welcoming : Store
welcoming = record world {
  privacy_settings =
      record {
        user_id = 2;
        search_audience = Audience.everyone;
        friend_request_audience = Audience.everyone;
        group_invite_audience = Audience.contacts;
        online_status_audience = Audience.contacts;
        last_seen_audience = Audience.contacts;
        allow_stranger_messages = false;
        allow_bot_direct_messages = false;
      }
      ∷ [];
}

abbrev ask : Command
ask = Command.create (env_at 5 500) 1 2 none

abbrev agree : Command
agree = Command.decide 2 500 Decision.accepted

abbrev reached : Store
reached = perform list_database agree (perform list_database ask welcoming)

are_friends : any (friendship_of 1 2) reached.friendships ≡ true
unfolding slowchat.Contacts.Requests.decide_friend_request
    slowchat.Contacts.Requests.create_friend_request
are_friends = refl
