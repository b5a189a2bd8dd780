-- ===== src/Lib.antt =====
-- Antigravity Webhook Hub: a server that takes webhooks in, stores each as an event with a task in
-- SQLite, executes the tasks, and triggers tasks on schedules.
--
-- hub/server.py reads requests from connections and finds the handlers for them. A webhook passes
-- the checks of hub/security.py; hub/routes/webhook.py stores it; hub/db.py keeps the events, the
-- tasks and the schedules; the dispatcher (hub/dispatcher.py) executes queued tasks, sweeps for
-- those that were interrupted and takes the tasks that the scheduler (hub/scheduler.py) inserts;
-- hub/broker.py sends what happens to the subscribers of event streams; hub/alert_filter.py
-- decides which alerts reach a person. hub/antigravity/watchdog.py wakes agent sessions that
-- stalled, over tables of its own in hub/db.py.
--
-- Prelude, Text: lists, signed integers, and texts as lists of code points with what Python does
--   on them (strip, lower, int, str, encode).
-- Models: hub/models.py, the statuses of tasks, the request and the result of a check.
-- Security: hub/security.py. Security.Hmac is verify_hmac_signature in three steps (headers,
--   window, signature), Security.Bearer verify_bearer_token, Security.Ingress
--   validate_request_security, Security.Dashboard verify_dashboard_auth. The HMAC digest and the
--   decoding of tokens are parameters.
-- Store: hub/db.py. Store.Rows has the tables and what SQLite checks, Store.Events and
--   Store.Tasks one function per method, Store.Intake insert_event_and_task, Store.Rehydrate and
--   Store.Sweep the recovery of events and tasks. A method is a function from the store to its
--   result and the next store; one that can raise ends in returns or raises, both with a store.
--   json.loads and uuid4 are parameters. A database has, or has not, the trigger on tasks that
--   register_sse_routes (hub/routes/sse.py) makes.
-- Broker: hub/broker.py, with the queues as numbered objects in a store; its backlogs stand with
--   the tables that they read (Store.Logs, Store.Events), publish_log and publish_status in
--   Streams.
-- AlertFilter: hub/alert_filter.py. Floats and the answers of the service are parameters. The
--   loop over the attempts is structural on the two attempts.
-- Dispatcher: the queue of hub/dispatcher.py and the steps of its workers, as a relation;
--   Dispatcher.Start is execute_task up to the transition to running, Dispatcher.Execute the rest,
--   with the action as a parameter; Dispatcher.Boot is sweep_unprocessed_tasks and start.
-- Schedule: Schedule.Rows is the table scheduled_tasks in hub/db.py, Schedule.Engine the
--   scheduler. Schedule.Create is create_schedule. The next run of a cron expression is the
--   parameter next_run there; Schedule.Planning puts compute_next_cron_run in its place.
-- Cron: parse_cron_field and compute_next_cron_run. Cron.Calendar is the part of datetime that
--   they use, Cron.Search the code; Cron.Fair has the search minute by minute that it is compared
--   with.
-- Ingress: hub/routes/webhook.py. Ingress.Payload and Ingress.Check are handle_webhook before it
--   reads the database, Ingress.Handle (with Ingress.Scheduled) the rest, on a hub of a store, the
--   schedules and the dispatcher (Schedule.Engine.Hub). json.loads, SHA-256, the triage of Slack
--   messages and the parsing of times are parameters.
-- TaskRoutes: hub/routes/tasks.py, POST /tasks and POST /tasks/{id}/rerun, on the same hub.
--   TaskRoutes.Create is about the first, TaskRoutes.Rerun about the second.
-- Streams: hub/routes/sse.py, GET /tasks/{task_id}/stream, over Store.Logs (execution_logs of
--   hub/db.py, _record_log of hub/dispatcher.py, get_task_backlog of hub/broker.py) and Broker. A
--   frame is the arguments of format_sse_frame. Ids of rows are unbounded numbers; a query with an
--   id that SQLite does not take gives nothing.
-- Watchdog: hub/antigravity/watchdog.py. Watchdog.Ledger and Watchdog.Schedules are its tables
--   in hub/db.py, Watchdog.Quota parse_quota_reset_seconds, Watchdog.Prompts the choice of a
--   prompt, Watchdog.Eligibility _evaluate_resuscitation_eligibility, Watchdog.Resuscitate
--   resuscitate_session with _execute_resuscitation, as two steps about the await of send_message,
--   Watchdog.Concurrent calls that overlap, as a relation, Watchdog.Tick
--   resuscitate_stalled_sessions, Watchdog.Lifecycle check_language_server_lifecycle and
--   Watchdog.Cooldowns check_and_clear_quota_cooldowns. The prompts are a data type, without their
--   wording; what the code reads from transcripts and files is an observation that a call takes,
--   and what the agent answers a parameter. Delays are in milliseconds, rounded up, times of the
--   ledger whole seconds.
-- Http: hub/server.py. Http.Reader is the part of asyncio.StreamReader that it uses, with the
--   limit of 64 KiB; a connection is the bytes that come in time, and whether it is closed or
--   silent behind them. Http.Head reads the head of a request, Http.Hex and Http.Chunks a body in
--   chunks (and write one), Http.Routes has add_route, RoutePattern (for characters that stand for
--   themselves, and placeholders) and _resolve_route, Http.Connection _handle_client with
--   _write_response. The method is passed beside the request. Middlewares and handlers on the
--   state of the hub, the parts of an URL, json.dumps and the date are parameters.
-- Samples: concrete inputs on which the theorems are applied.
--
-- Every loop is a structural recursion. Printing a number uses fuel: n + 1 digits are enough for
-- n; the search for a cron time has the code's own bound of 366 * 1440 rounds; the loops over the
-- requests and over the chunks of a connection have one round more than there are bytes, and each
-- round takes a byte. Times are seconds, or texts where SQLite compares them as texts.
--
-- Not modelled: what an action does (processes, streams, HTTP calls) and its cancellation, the
-- start and the end of the HTTP server and its relief of memory, the other routes, which shape
-- rows into JSON and into pages, the command line, most of the configuration, the dashboard; the
-- rest of hub/antigravity, hub/contact_review and hub/notion, which talk to outside services; of
-- the watchdog the scan of the transcripts, the network probes, the Slack watcher, the relief of
-- memory and the events it publishes, none of which the modelled steps read back; in hub/db.py the
-- columns that no modelled code reads back, the executions, the statistics and the other agent
-- tables.
pub mod Prelude
pub mod Text
pub mod Models
pub mod Security
pub mod Store
pub mod Broker
pub mod AlertFilter
pub mod Dispatcher
pub mod Cron
pub mod Schedule
pub mod Ingress
pub mod TaskRoutes
pub mod Streams
pub mod Watchdog
pub mod Http
pub mod Samples
