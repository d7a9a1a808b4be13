-- ===== src/Lib.antt =====
-- Trackdown: an error tracker that speaks Sentry's protocol. SDKs post envelopes to the ingest
-- endpoint (internal/ingest), which parses them (internal/protocol), groups each event by a
-- fingerprint (internal/grouping), saves it with its issue in SQLite (internal/store) and starts an
-- alert (internal/alert) for new and regressed issues. Alerts whose delivery failed wait in an
-- outbox that a loop of cmd/trackdown/main.go reads. A token bucket per client (internal/ratelimit)
-- guards the endpoint, and HTTP Basic authentication (internal/auth) the management endpoints and
-- the web UI (internal/server), which shows issues and events, with the original positions of stack
-- frames from uploaded source maps (internal/symbolicate). internal/config says whom alerts go to.
--
-- The files and what they model:
--   Prelude          texts, lists as tables, integers over the native numbers, and their laws
--   Protocol         envelope.go (Types, Envelope) and event.go (Types, Json, Decode, Encode): structs,
--                    ParseEnvelope, ParseEvent and the decoders of the JSON forms SDKs disagree on
--   Grouping         fingerprint.go: Fingerprint and Title
--   Store            store.go: the rows of the schema (Types), statements and transactions (Query),
--                    SaveEvent and the events (Events), and Projects, Issues, Outbox and Releases by
--                    the tables; Open, Close and BackupTo (Opening); Lifecycle joins events and
--                    issues, Events/Tracker is the abstract specification of SaveEvent, and Kept
--                    is what a property wants of all writes
--   Ratelimit        limiter.go: Allow and its sweep
--   Auth             internal/auth/auth.go: FromEnv and Require
--   Alert            alert.go: Notifier and MultiNotifier; smtp.go (Smtp) and webhook.go (Webhook)
--   Config           config.go: Load and BuildNotifier
--   Symbolicate      sourcemap.go: decodeVLQ (Vlq), decodeMappings (Mappings), Parse and Resolve
--   WebUi            internal/server: handlers.go, and the routes of server.go (Routes); viewmodel.go
--                    and the render of templates.go (Pages); the loading of templates.go
--                    (Templates); symbolication.go (Symbolication)
--   Ingest           ingest.go: ServeEnvelope and notifyAsync, what is read of a request (Body), the
--                    management endpoints (Manage); releases.go (Upload)
--   Retry            cmd/trackdown/main.go: a tick of runAlertRetryLoop
--   Command          cmd/trackdown/main.go: retention and gc; the endpoints of serve and which of them
--                    are guarded (Routes); the running program as a step relation (System); main and
--                    the start of serve (Start), and serve, gc and backup around the store (Main)
--   Service          cmd/trackdown/service_windows.go: the service's control loop; and
--                    service_manage_windows.go (Manage)
--   Calls            programs of calls that may fail, and the handles that they hold
--   Examples         concrete inputs
--
-- How state is modelled. The database is a record of tables, a list of rows each; an SQL statement
-- is a function on it, and a session says which of the next statements fail. A transaction rolls
-- back on an error. A time is a number of nanoseconds since 1970, and CURRENT_TIMESTAMP has no
-- fraction of a second; the clock stands still within one call. DeleteOldEvents alone writes a local
-- time: how far the zone of the process is ahead of UTC at each instant is an argument, and may be
-- any function in each run. Go texts are lists of bytes. The
-- limiter counts units, a fixed number to a token, where the source
-- has a float64. A numeric timestamp of an event is read in whole nanoseconds, and instants
-- before 1970 are left out. A handler maps the server's state to a response and the next state;
-- notifications wait in a list until their goroutine runs. The calls to a mail server are a trace,
-- and what each returns is a function of the trace before it. A handler of the web UI gives a page to
-- a template, whose execution is a parameter. Calls of database/sql that open, configure, copy or
-- close a database, and calls of the service manager, are recorded with the error that each returned,
-- which may be any. In the step relation of Command/System a request, a delivery or a tick runs to
-- its end before the next step.
--
-- Parameters, for code that is not the repository's: encoding/json, SHA-256, gzip, the regular
-- expression of the authentication header, net.SplitHostPort, strconv, time.Parse and the formats of
-- times, the %q of fmt, HMAC-SHA256, net/smtp, crypto/tls, time.Local, the HTTP client and the multiplexer of
-- net/http, html/template, the file system, database/sql, the service manager, and the size from
-- which `make` panics.
--
-- Fuel. The loop of ParseEnvelope takes as many rounds as there are bytes left, which
-- Protocol/Envelope/Fuel shows to be enough, and the values of a segment in decodeMappings as many as
-- the segment has bytes, which Symbolicate/Mappings/Fuel shows to be enough. sort.Search has as many
-- rounds as the line has segments, of which it halves what is left in each. All else is structural
-- recursion.
--
-- Not modelled: SQLite's own behaviour beyond the statements used, white space beyond ASCII, foreign
-- keys, logging, the matching of routes, most headers of responses, timeouts, the text of the
-- templates and the static files, the parsing of flags, signals, what is printed, and the tools.
pub mod Prelude
pub mod Protocol
pub mod Calls
pub mod Store
pub mod Alert
pub mod Config
pub mod Service
pub mod Command
pub mod Auth
pub mod Retry
pub mod Grouping
pub mod Ratelimit
pub mod Ingest
pub mod Examples
pub mod Symbolicate
pub mod WebUi
