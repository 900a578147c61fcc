-- ===== src/Lib.antt =====
-- The backend of a dating application (backend/internal): the rules and the state of accounts,
-- sessions, profiles, photos, consents, swipes, matches, blocks and messages, as the services of
-- application/ and the adapters for PostgreSQL and Redis keep them.
--
-- Parts, and where they are modelled:
-- - Keyset: listings that a client reads page by page, with a cursor for the last entry of a page.
-- - Prelude: Boolean tests, lists over the native numbers, integers, fallible actions on a state,
--   and text.
-- - Connection: a PostgreSQL or Redis client that one caller uses: the data, what an open
--   transaction began with, and a list that says which of the next round trips fail. Past its end
--   none fails.
-- - Domain: the entities and errors of domain/{user,session,profile,account,matching,messaging}.
-- - Postgres: the statements of adapters/postgres/sqlc and the methods of
--   adapters/postgres/repositories on tables as lists of rows, newest first. Postgres/Sessions has
--   refresh tokens and their rotation, Postgres/Queries and Postgres/Matching swipes, matches,
--   blocks and reports, Postgres/Messaging messages, receipts and the list of conversations,
--   Postgres/Users accounts, and Postgres/Profiles profiles, preferences, photos and consents.
--   Postgres/Matching/Listing has the listings of matches and of discovery and the visible photos,
--   Postgres/Rows look-ups and joins.
-- - Redis: the Lua scripts and methods of adapters/redis. A key holds a number and perhaps an
--   expiry.
-- - Application: the services application/{auth,profile,account,matching,messaging,health} over
--   records of their ports (Application/Profile has application/account too), and the Live
--   modules, which put the adapters behind those ports as cmd/api/main.go does.
-- - Middleware: the access check of platform/middleware/auth.go.
-- - Http: the handlers of adapters/http and their responses. A handler takes what was read of its
--   request and its service, and gives the status, Retry-After, the refresh cookie and the body.
--   Http/Requests and Http/Swiping put the services over the stores behind the handlers.
-- - Platform: platform/config/config.go, over records of the packages it calls. A float is NaN, an
--   infinity or a whole number of millionths.
-- - Websocket: the hub, the clients and the events of adapters/websocket. A call of Enqueue is a
--   sequence of turns, one for each operation on a channel, and the moves of a system are an
--   interleaving of calls. Which of two ready cases a select takes is an argument.
-- - Tests: the theorems at concrete inputs.
--
-- How the code is read:
-- - Go's `(value, error)` is `Result`, and an error keeps the state that was written before it.
--   Errors that no code tells apart from others are one constructor, `infra`; wrapping does not
--   change what an error is.
-- - Names follow the source: RecordSwipe is `record_swipe`. A function that branches after a call
--   is split there, so that `record_after` and `record_new` are the rest of RecordSwipe after its
--   lookups.
-- - Identifiers drawn by uuid.New and readings of the clock are arguments. A UUID is a number
--   whose order is that of its text and of SQL's type `uuid`. Times are milliseconds, rounded down
--   where Redis takes seconds. Opaque values (hashes of tokens, addresses, places, questionnaires)
--   are numbers. A coordinate is a whole number of billionths of a degree, so it is never NaN; a
--   birth date is a calendar day.
-- - A transaction runs alone: the advisory lock of the pair and `FOR UPDATE` serialise the calls
--   that meet on the same rows. A commit that fails is a rollback, and so is any error before the
--   commit. Steps of several callers in between are modelled for the daily counter, as a relation,
--   and for the statements on photos and the queue of a socket, as sequences.
-- - A statement carries the constraints of its table that its caller can run into: unique keys
--   with `ON CONFLICT`, checks and foreign keys.
-- - PostGIS and PostgreSQL's `age`, how Redis rounds a TTL to seconds, and the text of a UUID are
--   parameters. Where a theorem relies on one, its hypothesis says so: printing and parsing a UUID
--   give it back, a positive lifetime is rounded to a positive number of seconds.
-- - Hashing of passwords, the issue of access tokens and the drawing of refresh tokens are records
--   of functions that may fail; the tables of Unicode, netip.ParseAddr, how the type citext
--   compares, the key of a photo and the storage of blobs are parameters.
-- - Each service keeps the tables that it uses: the profiles of the profile service and the rows
--   that discovery reads of them are two views.
-- - DeletePhoto leaves the removal of the blob to a goroutine that ignores errors; it is the last
--   step of the operation.
-- - Keys of Redis that belong to different scopes, users or tickets are different.
-- - Every loop of the code is over a list and ends with it, so there is no fuel. A client that
--   follows the cursors of a listing is a loop on a number of pages, with a theorem on how many
--   are enough.
-- - Headers, variables of the environment and other texts that the code takes apart are lists of
--   runes.
-- - Scores of discovery and distances are numbers that stand for the place of a float among the
--   floats; how PostgreSQL computes them is a parameter, and the order of a listing is that of the
--   statement. Base64, JSON, the sanitizer of HTML, the decoder of images, the `validate` tags and
--   the texts of identifiers, times and error messages are parameters or left out.
-- - The checks of a readiness request write their results in some order, which is an argument.
--
-- Not modelled: the arithmetic of the scores, the text of the cursor of a history, the loops on a
-- socket, the routes and the other middleware, storage, cryptography, the wiring of the processes
-- and the frontend.
pub mod Prelude
pub mod Connection
pub mod Keyset
pub mod Domain
pub mod Postgres
pub mod Redis
pub mod Application
pub mod Middleware
pub mod Http
pub mod Platform
pub mod Websocket
pub mod Tests
