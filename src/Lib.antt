-- ===== src/Lib.antt =====
-- RescueStream API: a service that orchestrates live streams. It keeps broadcasters, their stream
-- keys and the streams in PostgreSQL, decides for MediaMTX who may publish, follows the life of the
-- streams by webhooks, and offers the management of all this to clients that sign their requests.
--
-- Which file models what (paths from the root of the repository):
--   Domain, Errors         internal/domain: entities, statuses, `IsValid`, sentinel errors; Go's error
--                          values with wrapping, and the monads of the model
--   Store                  internal/database/migrations/000001_initial_schema.up.sql: the tables, their
--                          constraints, and the SQL statements of the program as functions on them
--   Store/Invariant        what holds of the tables at rest
--   Env                    what the program calls: the pgx pool and transactions, MediaMTX's API
--   Env/Memory             an environment in memory that meets the interface, for the tests
--   Env/Reads, Env/Rules, Env/Healthy   rules for calls of the environment
--   Database/...           internal/database: the three repositories, method by method; Database/Pool
--                          and Database/Migrations are database.go and migrate.go
--   Config, Logging        internal/config, internal/logging
--   Service/Auth           internal/service/auth.go, with its theorems below Service/Auth/
--   Service/StreamKeys     internal/service/streamkey.go; Service/StreamKeys/Base64 is the encoding
--   Service/Streams, Service/Broadcasters, Service/MediaMtx   the files of the same names
--   Handler/...            internal/handler: each handler from the decoded body to the response;
--                          Handler/Signature is the authentication in middleware.go
--                          and Handler/Payload the bodies of all handlers as one type
--   Server                 internal/server/server.go: options and routes; Server/Dispatch is the way of
--                          a request through mux and the middlewares of middleware.go
--   App                    the wiring of cmd/rescuestream-api/main.go: one request from HTTP to the
--                          tables; App/Steps and App/Handlers take each handler apart into steps;
--                          App/Sequence is a list of requests, one after another
--   Cmd/...                cmd/migrate, and the start and the end of cmd/rescuestream-api
--   Consistency/...        what requests keep of the tables: Rules says what a predicate needs for the
--                          statements to keep it, Actions, Authenticate, Revoke and Requests prove it
--                          for every call, Reach for every run, and Kept and Used are two predicates
--   Tests/...              samples, runs, and the theorems at concrete inputs
--
-- A call is a function of the world that returns its result and the world it leaves (`Action`). The
-- world is abstract: `Env` gives the tables in it, the calls that change it, and the laws that the
-- proofs use. A statement either has the effect that SQL gives it or fails and changes nothing; a
-- transaction commits what its function left or changes nothing; while the server can be reached
-- (`healthy`) calls answer as the statement means. Every theorem about "any environment" holds whichever calls fail.
-- `time.Now()`, `NOW()`, new UUIDs and random bytes are arguments. A UUID is a number, `uuid.Nil` is
-- 0; a time is a number of nanoseconds, as in Go, and a column keeps its microseconds (`to_column`);
-- text is the native `String`. A text with the character U+0000 is refused by the server, as a
-- parameter (`with_text`), in a column (`fits`) and in JSON (`takes_json`); a column of n characters
-- cuts what is beyond if it is spaces (`varchar`) and refuses other text that is longer.
-- Nothing needs fuel: every loop of the program runs over a list.
--
-- One request is served after another: between the statements of a request no other session writes.
-- The row locks of FOR UPDATE are therefore without effect here.
--
-- Not modelled: log lines and what OpenTelemetry reports; the bytes of JSON and of problem
-- documents; the clock of the server's timeouts; internal/testutil, which only tests use. What is not
-- in the repository is a parameter: PostgreSQL, pgx and MediaMTX in `Env`, gorilla/mux in `Mux`,
-- pgxpool in `PoolLibrary`, golang-migrate in `MigrateLibrary`, the other calls of the start in
-- `StartCalls`, and the parsers of UUIDs, times, numbers, JSON and the environment, HMAC and
-- `strings.HasSuffix` where they are used.
pub mod Prelude
pub mod Domain
pub mod Logging
pub mod Config
pub mod Errors
pub mod Store
pub mod Env
pub mod Database
pub mod Service
pub mod Handler
pub mod Server
pub mod Cmd
pub mod App
pub mod Consistency
pub mod Tests
