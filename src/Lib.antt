-- ===== src/Lib.antt =====
-- Slowchat, a chat server: a model of the command side of apps/im-server, and what is proved of it.
--
-- The server keeps everything in PostgreSQL. A command opens a transaction, checks that the caller's
-- session is still good, reads and locks rows, checks what the command asks for, writes rows, adds an
-- event to the outbox in the same transaction, and commits. The services share the tables: sendText
-- and the group commands number the messages of a conversation by one column, the policy of contacts
-- guards direct conversations and messages, and receipts move the cursors that sendText also moves.
--
-- The parts, by file:
--   Base: tests on numbers, tables as lists of rows (Lists, Rows, Saves, Counts, Search), service
--     calls as functions of the store that answer a result (Action), their checks (Check), and the
--     database (Database). Database is a parameter: what the services use of TypeORM and PostgreSQL as
--     operations, with the laws they rely on. Tests.World has an instance over lists.
--   Model: the rows (the entities under apps/im-server/src/modules), events, error codes, and the
--     store of all tables. A UUID, a time in milliseconds and a digest are numbers.
--   Sessions: auth/services/auth-session.service.ts, validateWithManager as validate_with_manager,
--     revokeSession as revoke_session. Sessions.Revocation is about the latter.
--   Devices: devices/services/device.service.ts, removeSession and removeDevice.
--   Auth: auth/services/auth-command.service.ts by what its methods do: challenges and credentials
--     (Challenges), issueSession (Issue), register (Registration), the requests of a challenge and
--     login (Login), refresh (Refresh), logout, logoutAll and the loops that revoke (Revoking),
--     changePassword and confirmPasswordReset (Passwords); auth-rate-limiter.service.ts (Limiter),
--     token.service.ts and password.service.ts (Tokens), identity-normalizer.service.ts (Normalizer).
--     HMAC, argon2, the signing of access tokens and the text of a UUID are a parameter, Crypto; the
--     commands of Redis are another, over a cache that is kept beside the store.
--   Contacts: contacts/services/contact-interaction-policy.service.ts (Policy), and of
--     contact.service.ts deleteContact, block and unblock (Blocking) and createFriendRequest,
--     decideFriendRequest, updateContact and report (Requests). WellFormed has all of them as commands
--     and the stores that they lead to.
--   Outbox: outbox-writer.service.ts (Writer) and outbox-relay.service.ts (Relay), where the broker is
--     a parameter. Sync.Projection: sync/services/sync-projection.service.ts, on a store of its own.
--   Users: users/services/user.service.ts: getPublic, updateCurrent, updatePrivacy and deleteCurrent;
--     Erasure is about the last.
--   Views: the mappers to views.
--   Conversations: conversations/services/conversation-command.service.ts: createDirect (Direct),
--     updateSettings and hide (Settings), read, delivered and advanceReceipt (Receipts), lockMembership
--     (Membership).
--   Messages: messages/services/message-command.service.ts (Guards: the checks; Send: sendText, with
--     its statements in Send.Parts; Numbering: what numbering is in general) and
--     advanced-message-command.service.ts (Access, Recall, Reactions, Hiding, Forward).
--   Groups: groups/services/group-command.service.ts (Locking, Joining, Profile, Invites, Requests,
--     Leaving, Ownership, Roles) and group-system-message.service.ts (System). Counting is about
--     member_count.
--   Tests: a small world and each theorem at concrete inputs.
--
-- How code and model correspond: a method is a function of the same name from the store to a result
-- and a store. Its guards stand in the order of the code, and throw the code's error and status. A
-- transaction that throws gives back the store it began with. `Date.now()`, `now()` and `uuidv7()` are
-- read from an `Env`: one time for a command, and the UUIDs by the order of the calls. A command runs
-- as one step, since it locks the rows that it changes; sendText and createDirect, which look before
-- they hold a lock and recover from a unique violation, take `others`, what other transactions commit
-- in between. A refusal that the code returns from a transaction, so that it is committed, is a result
-- inside of the result. The loops, over the sessions to revoke, the events that were claimed and the
-- users of an audience, are recursion on the list; there is no fuel.
--
-- Not modelled: parsing of requests and of stored payloads, replies that a query reads back, the
-- metadata of system messages, what TypeORM reports as the identifiers of an insert with orIgnore
-- (a parameter of Database), a statement that took effect although its answer is an error, the
-- transport of RabbitMQ and object storage, what is told to the sockets after a commit, the unique
-- index on the numbers of a conversation (that numbers are distinct is proved instead), HTTP and
-- sockets; of the services so far media, the queries, the realtime dispatch, what a device reads of
-- sync, and the SDK. The jitter of a retry is computed on numbers and not on floats.
pub mod Base
pub mod Model
pub mod Sessions
pub mod Devices
pub mod Views
pub mod Outbox
pub mod Auth
pub mod Contacts
pub mod Conversations
pub mod Messages
pub mod Groups
pub mod Sync
pub mod Users
mod Tests
