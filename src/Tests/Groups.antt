-- ===== src/Tests/Groups.antt =====
-- Group commands, `createDirect` and a revocation at concrete inputs.
use slowchat.Base.{◌≡◌, ◌==◌, refl, true, false, arith, none, some, [], ◌∷◌, first, All}
use slowchat.Base.Rows.{AtMostOne}
use slowchat.Base.Action.{Result, ok}
use slowchat.Model.{
  Store, Uuid, Digest, Payload, SystemKind, GroupJoinRequest, JoinRequestStatus, AuthContext, Time,
  AuthSession, TokenStatus, RefreshToken, RevokedReason, access_is_active, active_member,
}
use slowchat.Sessions.{session_is_good, revoke_session}
use slowchat.Sessions.Revocation.{revoke_session-Revoked}
use slowchat.Conversations.Direct.{create_direct}
use slowchat.Conversations.Direct.Uniqueness.{HasOneDirect, create_direct-HasOneDirect}
use slowchat.Messages.Numbering.{IsSequenced}
use slowchat.Groups.System
use slowchat.Groups.System.Sequence.{append-IsSequenced}
use slowchat.Groups.Leaving.{leave, remove}
use slowchat.Groups.Requests.{decide_join_request, JoinDecision, approve}
use slowchat.Groups.Counting.{IsCounted}
use slowchat.Groups.Counting.Leaving.{leave-IsCounted, remove-IsCounted}
use slowchat.Groups.Counting.Decisions.{decide_join_request-IsCounted}
use slowchat.Groups.Ownership.{disband, transfer_owner}
use slowchat.Groups.Ownership.Disbanding.{Disbanded, disband-Disbanded}
use slowchat.Groups.Ownership.OneOwner.{HasOneOwner, commands-HasOneOwner}
use slowchat.Tests.World.{list_database, world, auth_of, no_trace, env_at}

abbrev payload_digest : Payload → Digest
payload_digest payload = 0

world-IsCounted : IsCounted world
world-IsCounted = record {
  keyed = λ id. ground arith;
  members_keyed = λ m. ground arith;
  counted = ground arith;
}

world-IsSequenced : IsSequenced world
world-IsSequenced = record { keyed = λ id. ground arith; within = tt; distinct = λ id seq. tt }

leave-IsCounted_example :
    IsCounted (leave list_database payload_digest (env_at 5 1000) (auth_of 3) 20 world).1
leave-IsCounted_example =
    leave-IsCounted list_database payload_digest (env_at 5 1000) (auth_of 3) 20 world
      world-IsCounted

remove-IsCounted_example :
    IsCounted (remove list_database payload_digest (env_at 5 1000) (auth_of 2) 20 3 world).1
remove-IsCounted_example =
    remove-IsCounted list_database payload_digest (env_at 5 1000) (auth_of 2) 20 3 world
      world-IsCounted

append-IsSequenced_example :
    IsSequenced
      (System.append list_database payload_digest
        (env_at 5 1000)
        (auth_of 1)
        20
        SystemKind.group_updated
        none
        (1 ∷ [])
        0
        world).1
append-IsSequenced_example =
    append-IsSequenced list_database payload_digest (env_at 5 1000) (auth_of 1) 20
      SystemKind.group_updated none (1 ∷ []) 0 world world-IsSequenced refl

-- User 4, who is no member, or user 3, who is, has asked to join the group.
abbrev request_by : Uuid → GroupJoinRequest
request_by user_id = record {
  id = 300;
  conversation_id = 20;
  user_id = user_id;
  status = JoinRequestStatus.pending;
  message = none;
  reviewer_id = none;
}

abbrev asked_by : Uuid → Store
asked_by user_id = record world { join_requests = request_by user_id ∷ [] }

asked-IsCounted : (user_id : Uuid) → IsCounted (asked_by user_id)
asked-IsCounted user_id = record {
  keyed = world-IsCounted.keyed;
  members_keyed = world-IsCounted.members_keyed;
  counted = world-IsCounted.counted;
}

no_member :
    (r : GroupJoinRequest)
    → first (λ x. x.id == 300) (asked_by 4).join_requests ≡ some r
    → first (active_member r.conversation_id r.user_id) (asked_by 4).members ≡ none
no_member r asked = ground (arith, asked)

decide_join_request-IsCounted_example :
    IsCounted
      (decide_join_request list_database payload_digest
        (env_at 5 1000)
        (auth_of 1)
        300
        approve
        (asked_by 4)).1
decide_join_request-IsCounted_example =
    decide_join_request-IsCounted list_database payload_digest (env_at 5 1000) (auth_of 1) 300
      (asked_by 4) approve (asked-IsCounted 4) no_member

abbrev decided : GroupJoinRequest
decided = record (request_by 3) { status = JoinRequestStatus.approved; reviewer_id = some 1 }

disbanded_ok : (disband list_database payload_digest (env_at 5 1000) (auth_of 1) 20 world).0 ≡ ok tt
unfolding disband slowchat.Sessions.validate_with_manager session_is_good
    slowchat.Groups.Locking.lock_as_member System.append System.allocate_system_seq
    slowchat.Messages.Send.Parts.insert_message slowchat.Outbox.Writer.append
disbanded_ok = refl

disband-Disbanded_example :
    Disbanded list_database payload_digest (env_at 5 1000) (auth_of 1) 20 world
disband-Disbanded_example =
    disband-Disbanded list_database payload_digest (env_at 5 1000) (auth_of 1) 20 world
      world-IsSequenced disbanded_ok

abbrev alone : Store → Store
alone s = s

-- Users 1 and 3 are contacts and have no conversation yet.
abbrev acquainted : Store
acquainted = record world {
  friendships =
      record { user_id = 1; contact_user_id = 3; remark = none }
      ∷ record { user_id = 3; contact_user_id = 1; remark = none }
      ∷ [];
}

acquainted-HasOneDirect : HasOneDirect acquainted.conversations
acquainted-HasOneDirect = record { sorted = ground arith; one = λ a b. ground arith }

-- The one with the greater UUID asks.
abbrev asked : Result Uuid × Store
asked = create_direct list_database (env_at 5 1000) alone (auth_of 3) 1 no_trace acquainted

asked_ok : asked ≡ (ok 1000, asked.1)
unfolding create_direct slowchat.Sessions.validate_with_manager session_is_good
    slowchat.Conversations.Direct.find_direct slowchat.Conversations.Direct.direct_conversation_key
    slowchat.Conversations.Direct.create_new slowchat.Contacts.Policy.assert_direct_creation_allowed
    slowchat.Outbox.Writer.append
asked_ok = refl

create_direct-HasOneDirect_example : HasOneDirect asked.1.conversations
create_direct-HasOneDirect_example =
    create_direct-HasOneDirect list_database (env_at 5 1000) alone (auth_of 3) 1 no_trace acquainted
      acquainted-HasOneDirect refl

revoke_session-Revoked_example :
    ((auth : AuthContext) (later : Time)
      → auth.session_id ≡ 201
      → session_is_good list_database later auth
          (revoke_session list_database 5 201 RevokedReason.logout world).1
        ≡ false)
    × ((y : AuthSession)
        → first (λ x. x.id == 201) world.sessions ≡ some y
        → access_is_active y.status ≡ true
        → All
            (λ (t : RefreshToken). t.session_id ≡ 201 → t.status ≡ TokenStatus.revoked)
            (revoke_session list_database 5 201 RevokedReason.logout world).1.refresh_tokens)
revoke_session-Revoked_example =
    revoke_session-Revoked list_database 5 201 RevokedReason.logout world one_session
  where
    one_session : AtMostOne (λ (x : AuthSession). x.id == 201) world.sessions
    one_session = ground arith

world-HasOneOwner : HasOneOwner 20 world
world-HasOneOwner = record { members_keyed = world-IsCounted.members_keyed; one = refl }

commands-HasOneOwner_example :
    HasOneOwner 20
      (transfer_owner list_database payload_digest (env_at 5 1000) (auth_of 1) 20 2 world).1
    × HasOneOwner 20 (leave list_database payload_digest (env_at 5 1000) (auth_of 1) 20 world).1
    × HasOneOwner 20 (remove list_database payload_digest (env_at 5 1000) (auth_of 1) 20 2 world).1
commands-HasOneOwner_example =
    commands-HasOneOwner list_database payload_digest (env_at 5 1000) (auth_of 1) 20 2 world
      world-HasOneOwner
