-- ===== src/Lib.antt =====
-- ShardLeak is a rate limiter with a Go backend and two web frontends in TypeScript. This library
-- models the TypeScript, which is the frontend that talks to the backend (frontend/), and the demo
-- that runs without one (frontend-demo/), with its own rate limiter; and of the backend the rate
-- limiter that the demo stands for, with its two Lua scripts, and every route under /api/v1, with
-- the tables in the database that they work on.
--
-- Simulator models frontend-demo/lib/simulator.ts. A record holds the two maps of the class as
-- association lists in the order of insertion, and each method is a function from the state before
-- to the state after, with the clock handed in: `check` is `check`, `tokenBucket` and `fixedWindow`
-- are `check_token_bucket` and `check_fixed_window` (with what they do to the entry read in
-- `take_token` and `count_request`), `peekTokens`, `peekWindow` and `reset` keep their names.
-- Tokens are counted in parts, 1000 * windowSeconds to a token, so that a millisecond of refill
-- adds `limit` parts exactly: the rounding of floating point is not modelled, and a theorem on a
-- bucket that compares times leaves room for it. Limits and windows are natural numbers. Its
-- children are Keys (the keys of the maps), Schedule (sequences of calls), Bucket, Window, Views
-- and Reset.
--
-- Demo models the pages of frontend-demo/app: Playground is dashboard/playground/page.tsx, which
-- owns a simulator, as a state with one function per handler and a `step` over its events (a burst
-- is a chain of wake-ups, since `handleBurst` waits between rounds; it needs at most 20 of them and
-- one to end); Meters are its TokenGrid and WindowBar; Live and Feed are the moving numbers of
-- page.tsx and dashboard/page.tsx, with the random numbers handed in; Sparkline is the chart of
-- dashboard/page.tsx, Overview that page as a whole, with a `step` over the ticks of its intervals,
-- and Nav the links of dashboard/layout.tsx.
--
-- Client models frontend/: Api and Calls are lib/api.ts, lib/auth.ts and types/api.ts (a request is
-- a value, and so is what comes of `fetch`), Uri is what they use of JavaScript's strings, Session
-- is app/login/page.tsx, app/signup/page.tsx (Session/Form what their forms show) and the guard of
-- app/dashboard/layout.tsx, Nav is what that layout shows with its sidebar, Overview is
-- app/dashboard/page.tsx, Keys is app/dashboard/api-keys/page.tsx (Keys/Copy its copy button and
-- timers), Limits is app/dashboard/limits/page.tsx, and Checks is
-- app/dashboard/playground/page.tsx. Site has the links of all these pages and of the landing page
-- (app/page.tsx with components/layout/Navbar.tsx and components/landing/), and how a tab goes from
-- page to page by clicks and by the handlers of the session. A handler that awaits is one function
-- up to the call, which it returns, and one from the answer on, so that any events may come in
-- between. View modules hold what a page shows.
--
-- Backend models backend/internal: RateLimit is ratelimit/, with each Lua script as one function
-- (`token_bucket_lua` and `fixed_window_lua`) on the database that it runs against, and Check is
-- handlers/check.go with the counters of metrics/metrics.go, and Auth is middleware/ with the route
-- that puts the check of the API key before that handler (Auth/Page has the dashboard's playground
-- call it) and, in Auth/Session, with `Me` of handlers/auth.go behind the check of a session. There
-- the hash of a key, its row and the reading of a token are arguments. Redis is not under the
-- repository: the commands that the scripts use are the fields of a record that all definitions
-- take, their documented behaviour is `IsLawful`, and Redis/Memory is a database in memory that has
-- it. A call finds the connection working, cannot reach Redis, or loses the answer (`Link`). The
-- numbers of the scripts are fractions (Fraction) that each operation rounds: how a double rounds,
-- and what is read back of the digits that `tostring` writes, are fields of the record, too, of
-- which nothing is assumed. A script's clock, by which Redis expires keys, is the clock of the
-- call. RateLimit/Agreement and Check/Simulated run the backend and the simulator side by side, and
-- compare the answers of the fixed windows, whose numbers are whole.
--
-- Store is store/store.go: the three tables of migrations/001_initial_schema.sql as lists of rows,
-- each method as the statement that it runs (Users, Keys, Limits), with the verdict of the schema's
-- constraints on a new row, and what the store makes of an error. A statement succeeds, fails
-- without an effect, or fails after it, as its `Link` says; the id and the time that the database
-- gives to a row are arguments. Statements has what each one leaves of the tables and what its
-- success says, Change the ways in which a statement can change the tables, Rows what becomes of a
-- row then, and Consistent the constraints of the schema. Handlers, Accounts, Keys and Limits are
-- handlers/auth.go, handlers/apikeys.go and handlers/limits.go with auth/auth.go, as functions of
-- the store. Api puts them behind the routes of cmd/server/main.go: `serve` answers an `Exchange`,
-- a request with what the server draws for it, and `run` a list of them in their order; requests
-- that run at the same time are taken one after the other, which is what their one statement each
-- makes of them. A record `Library` has what the backend uses of its libraries, and Signup's
-- `IsLawful` what it relies on. Api/Changes shows which change a request makes; KeyLife follows an
-- API key, Signup an account, Invariant the constraints of the schema and (in Made and Routes) what
-- the checks of the handlers say of the rows, Isolation the data of other users. Limits/Page has
-- the form of the dashboard submit to the backend, and Limits/Dashboard runs the page against the
-- server's tables.
--
-- Texts are lists of UTF-16 units. `decimal` recurs on fuel, the number itself plus one, which
-- bounds its digits. Common has the names that all modules share.
--
-- The backend joins strings, compares them, cuts them at ASCII characters and, of a password,
-- counts the bytes, so that units stand for its bytes, too (`byte_length` counts them).
--
-- The number inputs of the pages give whole numbers: fractions, which `min`, `max` and the clamps
-- of the pages let through, are left out. Whether the backend decodes a body, which it refuses over
-- 4096 bytes and with numbers that do not fit an `int`, is an argument of what sends one.
--
-- Not modelled: `fetch`, JSON and the browser's storage beyond the token's entry; markup, styles
-- and dates; the landing pages but for their links, since they are fixed markup; of the Go backend
-- the health routes, CORS, the log and the connection to its databases; monitoring.
pub mod Common
pub mod Simulator
pub mod Demo
pub mod Backend
pub mod Client
pub mod Tests
