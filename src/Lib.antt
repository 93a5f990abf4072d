-- ===== src/Lib.antt =====
-- Accord's server: permissions, roles, moderation, channels and their messages.
--
-- Accord is a chat server (crates/accord-server) and its clients. Accounts hold roles; a role is
-- a row with a permission bitfield and a position in a hierarchy. A gRPC handler authenticates the
-- request, asks `authz` whether the account may do what it asks for, and writes to the database.
--
--   * Base: helpers; Base/Bits is the digit view of the bitwise `&` and `|`.
--   * Perms: crates/accord-types/src/perms.rs, the bitfield `Permissions` with `contains`,
--     `union`, `allows`, `is_admin`, the named bits, and `Display`/`FromStr` (Perms/Decimal).
--   * Store: crates/accord-server/src/store, the tables as lists of rows (`Db`) and the SQL of
--     store/sqlite.rs as functions on them: Store/Users, Store/Roles, Store/Groups,
--     Store/Moderation, Store/Messages, Store/Sessions, Store/Mailbox, Store/Private, Store/Blobs,
--     Store/Categories, Store/Taverns. A query keeps its name.
--   * Api: error.rs (`ServerError`, its `Status`), util.rs (`authenticate`), the parsing of ids,
--     and the shape of a handler: `Action S A` is a function from the state to a result and the
--     state that is left, so what was written before an error stays written.
--   * Authz: authz.rs: `effective`, `require`, `rank`, `can_act_on` and the guards over them.
--   * RoleService: roles/service.rs, one function per handler; `Call` is a request that may change
--     the roles and `serve` runs a sequence of them. RoleService/Changes shows what a handler may
--     do, RoleService/Hierarchy and RoleService/Escalation what that does to ranks and
--     administrators, and RoleService/History follows a sequence of requests.
--   * Guardrails: guardrails/mod.rs, the token buckets and `check_at`, and guardrails/names.rs, the
--     name heuristics.
--   * Hub: messaging/hub.rs, the registry of streams and subscriptions, the queue of each stream,
--     and the voice channels, with the local transport.
--   * GroupService: groups/service.rs, the handlers on channels, members and bans, and
--     (GroupService/Layout) on categories, the tavern and profiles, over the
--     database, the hub and the buckets (`Server` of Api/Server).
--   * Messaging: messaging/service.rs: messages and voice in public channels and their history;
--     private messages with the offline inboxes (Messaging/Private, Messaging/Mailbox,
--     Messaging/Mailing); the stream of a device, its backlog and its reader (Messaging/Stream,
--     Messaging/Backlog).
--   * Auth: auth/service.rs, auth/jwt.rs and auth/password.rs: `register` with the limit on
--     registrations, `login`, `login_with_key`, `refresh_token`, devices and invites. `Crypto` is
--     what Argon2, JSON Web Tokens and Ed25519 answer.
--   * MlsRelay: mls_relay/service.rs: key packages, Commits and Welcomes.
--   * Links: invite.rs and contact.rs of crates/accord-types, the texts that are pasted.
--   * Friends, Vault: friends/service.rs, vault/service.rs and backup/service.rs.
--   * Client: crates/accord-client/src-tauri/src: history.rs, the archives of private messages
--     (Client/Records their framing, Client/History their messages, Client/Restore), over
--     at_rest.rs and `seal` of crates/accord-crypto (Client/Sealing); and taverns.rs, the taverns
--     that a client hosts (Client/Taverns).
--
-- The model. A uuid is a number that is only compared. A permission column is the 64-bit pattern
-- of its value, on which the casts between `i64` and `u64` are the identity. Positions are numbers
-- below 2^31, on which `as i32` is the identity: the server writes no negative one, and no more
-- than one above the highest. An id that the store draws and the time are arguments; that
-- a drawn id is new is a hypothesis where a theorem needs it. The crates `jsonwebtoken` and
-- `uuid`, and `str::to_lowercase`, are the parameter `Env`. A handler runs as one step: the
-- interleaving of two handlers between their queries is not modelled, nor are failures of the
-- database, but for foreign keys on ids that a request names (`can_add` of Store/Groups): accounts
-- are never deleted, so that of a caller is there. Columns that no modelled
-- query reads (times of creation) are left out.
--
-- The floats of a token bucket are exact: a token is 20·10⁹ units, and time is in nanoseconds, so
-- a refill of one token in 20 s is 1 unit in a nanosecond and one in 5 s is 4. Rounding of the
-- floats is not modelled: at the instant at which a token accrues, the decision of the program can
-- differ from that of `try_take` here, and the seconds that it tells from `retry_after`, by one; no
-- theorem is about these seconds.
--
-- Recursion is on lists, but for two fuels. `display` of Perms/Decimal splits off at most 20 digits,
-- which is enough for a `u64`, as 2^64 < 10^20; `read_records` of Client/Records has the number of
-- bytes as its fuel, of which each turn takes five or more.
--
-- In `Server` the uuids and the times that are drawn are sequences, of which each draw takes the
-- next; a theorem that needs a drawn uuid to be new says so.
--
-- The crates for hashes, tokens, signatures, base64, JSON and MessagePack are parameters (`Crypto`,
-- `Codec`); what a theorem needs of them it says. The times of tokens are in milliseconds, the
-- window of the limit on registrations in nanoseconds.
--
-- Not modelled: the transport, the logging, the queries that only list rows for the client, the
-- migrations, the Redis backplane, the PostgreSQL variant of the queries, the rest of the clients
-- (commands, mesh, voice), and the start of the server.
pub mod Base
pub mod Perms
pub mod Store
pub mod Api
pub mod Authz
pub mod RoleService
pub mod Guardrails
pub mod Hub
pub mod GroupService
pub mod Messaging
pub mod Auth
pub mod MlsRelay
pub mod Links
pub mod Friends
pub mod Vault
pub mod Client
