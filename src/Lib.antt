-- ===== src/Lib.antt =====
-- Markland: a markdown publishing service that people and agents edit together.
--
-- The program keeps documents, grants, invites, revisions and an audit log in one SQLite database.
-- HTTP routes and MCP tools resolve a caller to a principal and call the service layer
-- (src/markland/service/); that layer asks check_permission and then acts through db.py. These files
-- model the service layer, the db.py functions below it, and the MCP tools and HTTP handlers above it.
-- RateLimitMiddleware and PrincipalMiddleware stand before both.
--
--   Prelude      tests on numbers, SQL tables as lists of rows, Python's and SQLite's text functions
--   Model        src/markland/models.py, the tables of src/markland/db.py, Principal of service/auth.py
--   Effects      exceptions and the sqlite3 connection: a state and exception monad
--   Db           the CRUD functions of src/markland/db.py, and audit.record
--   Permissions  src/markland/service/permissions.py
--   Docs         src/markland/service/docs.py and src/markland/service/save.py
--   External     argon2, SHA-256, strftime, Python's lower() and upper(), and SQLite's affinity, as a parameter
--   Grants       src/markland/service/grants.py
--   Invites      src/markland/service/invites.py
--   Tokens       src/markland/service/auth.py: minting, parsing, resolution, revocation, and the cache
--   Paging       keyset pagination, written out in service/docs.py, grants.py, invites.py and agents.py,
--                and the cursor of src/markland/_mcp_envelopes.py, over JSON and base64 as parameters
--   Mcp          the tools of src/markland/server.py, _mcp_errors.py and _mcp_envelopes.py
--   Device       src/markland/service/device_flow.py
--   Presence     src/markland/service/presence.py
--   Agents       src/markland/service/agents.py and create_agent_token of service/auth.py
--   MagicLink    src/markland/service/magic_link.py, over itsdangerous' loads as a parameter
--   Sessions     src/markland/service/sessions.py, over itsdangerous as a parameter
--   Intents      src/markland/service/pending_intent.py and agent_token_flash.py, in the same way
--   Users        src/markland/service/users.py
--   Mail         src/markland/service/email_dispatcher.py: the queue and its retries
--   RateLimit    src/markland/service/rate_limit.py, with exact fractions for the floats
--   Web          src/markland/web/: the handlers of api_grants.py, presence_api.py, save_routes.py,
--                routes_agents.py, auth_routes.py, invite_routes.py, identity_routes.py and
--                device_routes.py, session_principal.py, and the two middlewares that find a request's
--                principal and limit its rate
--   Tests        a sample database, tests, and the theorems at concrete inputs
--
-- How the code is read. A function that only SELECTs is a function of the tables (Db); any other is
-- an Action, from a connection to a result and a connection. A connection holds the tables, the
-- tables as they stood when the open transaction began (none outside a transaction), and the mails
-- handed to the dispatcher. As in Python's sqlite3, the first write opens a transaction, COMMIT and
-- ROLLBACK close it, BEGIN IMMEDIATE is refused inside one, and what was written before an exception
-- stays written. Keyword arguments are positional, in the source's order; `Fresh` holds what a call
-- draws from the clock and from `secrets`: one time stands for the readings of a call, but for the two
-- in consume_magic_link_token, which are two arguments. A time is a number of microseconds;
-- the stored ISO texts compare as these numbers do. Numbers are unbounded, as Python's are; a
-- subtraction that could go below zero stands under the guard that the source has, or under a test
-- that zero meets as a negative number does.
-- PRIMARY KEY, UNIQUE and FOREIGN KEY constraints are checked where a row is inserted. The loops are
-- structural recursions on rows, characters or the attempts that are left (ten, for a user code).
-- Fuel is used in one place, for a client that reads a listing page by page (Paging.Walk): a request
-- more than there are rows is enough, as each page but the last has a row. The times of device codes
-- and presence are cut to whole seconds, as the code stores them.
--
-- Threads meet in the cache of resolved tokens: its methods run under a lock, so a list of whole calls
-- is an interleaving. A resolve that starts before an eviction and puts its result after it is such a
-- list.
-- Elsewhere a call is a whole step, as if no other thread came in between. The routes are run in a thread
-- pool on one connection, so calls can overlap; of polls of a device code that is modelled too, by the row
-- that a poll has read (Device.Race).
--
-- An HTTP handler goes from a connection to a reply and a connection; a reply is what the handler
-- returns, an HTTPException, an error's JSONResponse or an exception that it does not catch. A limiter
-- of requests is a state that one check changes; its numbers are exact where the code has floats.
--
-- Not modelled: rendering of mails and pages, metrics and log lines, failures of the disk, the page
-- routes of app.py, the request of a magic link, the parsing of bodies and forms, response headers
-- but ETag and cookies, the waitlist, and the admin tools. Where SQL leaves the order of rows with one
-- sort key open, a listing without a cursor keeps the table's order. Levels and principal types are
-- checked as text where the source checks them, and stored as data types.
pub mod Prelude
pub mod Model
pub mod Effects
pub mod Db
pub mod Permissions
pub mod Docs
pub mod External
pub mod Grants
pub mod Invites
pub mod Tokens
pub mod Device
pub mod Presence
pub mod MagicLink
pub mod Sessions
pub mod RateLimit
pub mod Users
pub mod Mail
pub mod Intents
pub mod Agents
pub mod Paging
pub mod Mcp
pub mod Web
mod Tests
