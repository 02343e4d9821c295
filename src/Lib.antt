-- ===== src/Lib.antt =====
-- A verification library of ooblivion, a server that records every HTTP request it gets, saves
-- and reports those that match rules, and has a password-protected console. The parts, and the
-- files that model them:
--
--     Server (cmd/ooblivion/main.go): the root handler, which sends a request to the health
--     probe, to the console or to the capture. Server/Hosts and Server/Routes have the dispatch,
--     Server/Captures a whole captured request, Server/Setup the first password.
--     Capture (internal/capture/capture.go: readBody, Store) and Capture/Classify (classify.go:
--     applyScope, applyNotifications, buildAlert). Store inserts the row and counts it; Classify
--     then saves it under the first scope that matches and offers one alert for each rule that
--     matches. Proofs: Capture/Bodies, Storing, Scopes, Saving, Alerts, Entities (how a reader
--     takes an alert).
--     Matcher (internal/matcher/matcher.go): one rule against one request; Matcher/Headers has
--     the order of the headers.
--     Telegram (internal/telegram/telegram.go): the escaping, with a reader of MarkdownV2 in
--     Telegram/Markdown, the queue and its worker in Telegram/Sender, and whole queues in
--     Telegram/Worker.
--     Scheduler (internal/scheduler/scheduler.go): the settings in Scheduler/Settings, the flush
--     and the pruning; Scheduler/Flushing, Scheduler/Retention and Scheduler/Pruning have what is
--     deleted and what stays.
--     Auth (internal/auth/auth.go): Auth/RateLimiter, with calls of Allow that follow one another
--     in its Window and calls that overlap in its Overlap (the code has no lock; a login is a
--     single step elsewhere), Auth/Denylist, Auth/Passwords, Auth/Tokens.
--     Admin (internal/admin): Admin/Sessions (the middleware; login, logout and change of the
--     password in its Accounts), Admin/Rules with Scopes and Notifications (handlers_rules.go),
--     Admin/Requests, Admin/Query, Admin/Pagination and Admin/Display (handlers_requests.go),
--     Admin/Flags and Admin/Functions (funcs.go), Admin/Sizes (humanBytes), Admin/Settings
--     (handlers_settings.go), Admin/Forms (formAware and readJSONOrForm of admin.go),
--     Admin/Viewing with Requests, Audit and Rules (the handlers that only read, in
--     handlers_requests.go, handlers_settings.go and handlers_rules.go; Admin/Pages has what they
--     give to the templates), Admin/Routes (the table of admin.go, with what a request without a
--     session and a GET request can change in Mediation and Reading). Admin/Requests/Inbox has
--     the commands on requests against a list of identifiers and flags.
--     Program (main of cmd/ooblivion/main.go): the parts put together; Program/Launch has main
--     from the configuration to the server. A step of a run is the start of the process, a
--     request through the root handler, a round of the worker, a run of the scheduler or the end
--     of the process; `Reach` has the states of all runs. Consistency has the condition of the
--     tables, with a file for each group of statements and handlers, and Runs for whole runs.
--     Interleaving: code step by step, one statement each, with other goroutines in between.
--     Interleaving/Flushes has the calls of Flush with their lock and the steps of others
--     (Locking, Ending, Keeping, Safety; Overlap has the steps of the whole program in between,
--     Refusal the worker), Interleaving/Logins a login with others between its check and its
--     token, Interleaving/Captures a capture with others between Store and Classify.
--     Config (internal/config/config.go), Version (internal/version/version.go), Logx
--     (internal/logx/logx.go: the levels), Models (internal/models/models.go), Http (what is read
--     of a request; Http/ClientIp has both functions that find the visitor's address,
--     Http/Headers the headers that withCORS, withSecurityHeaders and a download set; the
--     handlers themselves answer a status and a body).
--     Db (internal/db/migrations/001_init.sql): the tables as lists of rows, with the foreign
--     keys. World has the tables and the memory that the components share: the channel of alerts,
--     the flush lock, the time of the last flush, the attempts of the login limiter. Db/Keeping
--     has the rules by which a handler keeps an invariant of the tables, Db/Keys the foreign
--     keys, Db/Migrations the runner of internal/db/db.go, Db/Opening its Open.
--     Exec: code that reads and writes a state and may return early, with what was written before
--     kept. Shared: lists, texts as lists of bytes, integers of 64 bits, decimals.
--
-- Functions keep their Go names in lower case with underscores. A handler is a function from a
-- world to its answer and the world afterwards; an SQL statement is a function on the tables,
-- applied by `exec`, `query` or `query_row`. A statement can fail for reasons outside the
-- program: `faults` says which ones do, in the order of execution, and a theorem that speaks of a
-- world without faults empties that list. A handler reads the clock once; the source reads it at
-- each use, within the same call.
--
-- Outside the repository, and so parameters: the case tables and package regexp (TextLib), the
-- Unicode spaces, package time (Clock, with the order of its texts as IsOrdered), JSON, base64,
-- Argon2id and random bytes (PasswordLib, IsSound), JWT (TokenLib, IsReadable), the Bot API, and
-- the decoding of a body into a payload. Those that a listed theorem has hypotheses about have a
-- concrete instance in Tests.
--
-- Bounds: `int` and `int64` are integers with the wrap-around written out where an operation can
-- reach it (the retention, durations, the token version, the body limit); row identifiers and
-- counters are natural numbers. The only fuel is that of `digits_onto`, which prints a number
-- with the number itself plus one, enough since each round divides by ten. All other loops are
-- recursion on a list.
--
-- Not modelled: what an SQL script does to the schema, the HTML of the templates and the static
-- files (internal/web), the content types of answers, what package log writes, the listening
-- socket and the shutdown, interleavings of statements other than those of Flush, of calls of
-- Allow, and of one login or one capture with others at the point named, and which pattern
-- package net/http chooses for a request. Rows that break off in the middle of a loop are
-- modelled only where the code looks at rows.Err. The search LIKE '%q%' and a column's reading of
-- a text as an integer are parameters too (QueryLib); LIKE with an escape is written out on
-- bytes, where the program's patterns hold no unescaped `_`.
pub mod Shared
pub mod Models
pub mod Matcher
pub mod Telegram
pub mod Exec
pub mod Db
pub mod Http
pub mod Auth
pub mod Scheduler
pub mod Capture
pub mod Config
pub mod Version
pub mod Logx
pub mod Admin
pub mod Server
pub mod Program
pub mod Interleaving
pub mod Consistency
mod Tests
