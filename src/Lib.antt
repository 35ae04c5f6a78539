-- ===== src/Lib.antt =====
-- bully: the backend of a messenger that carries ciphertexts between the devices of its users.
--
-- The program (backend/cmd/server, backend/internal) is a HTTP server with one websocket per device.
-- A device logs in and gets a row in `sessions`; every request passes the middleware, which asks for
-- that row. Over the websocket, envelopes travel cut into frames of one size, one frame per tick, real
-- or dummy. What a device sends goes through `handleInbound`, which checks the membership, keeps
-- messages in a queue in Redis, and has the hub deliver to the connections of the recipient, on this
-- node or, by way of a Redis channel, on another.
--
-- How the files follow it (paths from the root of the repository):
--   Ws/Padding       backend/internal/ws/padding.go: `EncodeFrame`, `DummyFrame`, `DecodeFrame`,
--                    `SplitIntoFrames`
--   Ws/Envelope      the `Envelope` of backend/internal/ws/hub.go, and encoding/json at it
--   Ws/Conn          backend/internal/ws/conn.go: `Send`, a round of `WritePump` (`write_tick`) and of
--                    `ReadPump` (`read_step`)
--   Ws/Conn/Delivery the two pumps at the ends of one socket, over any sequence of sends and ticks
--   Ws/Hub           backend/internal/ws/hub.go: `Register`, `Unregister`, `localConns`, `Deliver`,
--                    a round of `subscribeLoop`
--   Tables           the tables of backend/migrations/0001_init.sql
--   Db               a call of the database; Db/Tx has `Begin`, `Commit` and `Rollback` of the handlers
--   Session          backend/internal/session/session.go; `Revoke` and `RevokeAllOthers` are in
--                    Session/Revoking
--   Session/Http     backend/internal/session/handlers.go, the handlers of the routes
--   Auth             backend/internal/auth/handlers.go: `Middleware`; the claims of jwt.go
--   Auth/Account     backend/internal/auth/handlers.go: `Register` and `Login` (Auth/Account/Handlers),
--                    and `IssueToken` of jwt.go
--   Auth/Password    backend/internal/auth/password.go: `HashPassword`, `VerifyPassword`
--   Convo            backend/internal/convo/membership.go: `IsMember`, `MemberIDs`
--   Convo/Direct     backend/internal/convo/handlers.go: `CreateDM`
--   Convo/Grouping   backend/internal/convo/handlers.go: `CreateGroup`
--   Convo/Listing    backend/internal/convo/handlers.go: `List`, `Members`
--   Keys             backend/internal/keys/handlers.go: `Upload`; `Bundle` is in Keys/Bundling
--   User             backend/internal/user/handlers.go: `Search`, `Get`, `Me`
--   Relay/OfflineQueue  backend/internal/relay/offline_queue.go: `Enqueue`, `ForConversation`
--   Relay/Inbound    backend/internal/relay/relay.go: `handleInbound`
--   Relay/Offline    backend/internal/relay/relay.go: `Serve` up to the reader, `deliverOffline`
--   Ratelimit        backend/internal/ratelimit/ratelimit.go: `PerIP`
--   Server           backend/cmd/server/main.go: the routes of /auth and those behind the middleware
--   Tests            tests, instances of the interfaces, and the theorems at concrete inputs
--
-- State is passed explicitly. The database is a world (`Db.World`): the tables, and a list of calls
-- still to come, each with the clock of the database, the UUID that it would generate, and a fate: the
-- call is refused, done, or done with its answer lost. The list says everything that is random about
-- the database, so a theorem for all worlds is one for all failures. A statement is atomic, and so is a
-- transaction (`Db.Tx.transaction`): its statements work on a view of the tables, which the commit
-- puts in place, done or with its answer lost. The rows
-- of its answer may break off, since the loops over `rows.Next()` do not ask `rows.Err()`, and where the
-- SELECT of `CreateDM`, of `Search` or of the signed key in `Bundle` has a LIMIT and no order, the call
-- says at which of the rows it starts. Pointers to
-- connections are numbers, and a heap leads from them to the connections. `crypto/rand` gives
-- each read a stream of bytes or an error. Instants are counts of nanoseconds; numbers on the wire
-- keep their wrap-around.
--
-- Fuel: the loop of `SplitIntoFrames` alone takes fuel, one more than the bytes of the message: each
-- round goes on by 2045 bytes. The pumps are taken round by round, over a finite list of events.
--
-- Parameters, each a record of operations and of the laws that the code relies on: encoding/json at an
-- envelope (`Json`), Postgres' reading of the text of a UUID (`Uuids`), the four Redis commands of the
-- queue (`Redis`) and the two of the rate limit (`Counters`), golang-jwt's check of a token
-- (`Tokens`) and its signature (`Signing`), and Argon2 with base64 and the reading and printing of
-- numbers (`Hashing`), and Postgres' `ILIKE` (`Ilike`). Which rows other transactions hold locked is an argument of `bundle`. Tests
-- gives an instance of each.
--
-- Not modelled: sockets, tickers, goroutines and locks (an operation under the hub's lock is one step);
-- statements of other transactions between those of one; the panic of argon2.IDKey at a stored text
-- with a time or a parallelism of 0, which `HashPassword` does not write; the decoding of the bodies of requests
-- (a handler takes what it gives) and the encoding of answers; the end of the time to live of a
-- queue or of a counter; the ICE servers, and the set-up of the process; the
-- client.
mod Prelude
pub mod Tables
pub mod Db
pub mod Session
pub mod Auth
pub mod Convo
pub mod Keys
pub mod User
pub mod Server
pub mod Relay
pub mod Ratelimit
pub mod Ws
mod Tests
