-- ===== src/Lib.antt =====
-- api-ops watches an API gateway: it collects health and cost figures from the gateway's logs, pushes
-- them to browsers over WebSockets, raises alerts, and exports statements. This library models its core.
--
-- Realtime/Limiter.antt is internal/realtime/limiter.go: the four tables as association lists, time in
-- nanoseconds as an argument, and the methods on the tables. Limiter/Shared.antt puts Redis in front
-- of them, as AllowConn, AllowMsg and ReleaseConn do; Redis is a record of its three commands, and
-- `Counting` says what a Redis that answers does. Limiter/Gc, Conns, Messages, Traces, Unbounded and
-- Shared/Degraded prove: the collector, the connection limit, the message limit, histories of calls.
--
-- Realtime/Hub.antt is internal/realtime/hub.go: the hub with its clients in a heap, the three cases of
-- the Run loop, sendRaw in its two halves and the broadcasts. Hub/Serve.antt is the handler and the
-- pumps of internal/realtime/server.go. A Go channel with the senders that wait at it is a list; only
-- the buffer of `send`, which is used without waiting, is counted. `json.Marshal` and the outcome of
-- the WebSocket upgrade are arguments. Hub/Sending has sendRaw and closeOnce in single steps with
-- the client's mutex. Hub/Index, Delivery, Steps and Race prove: the topic index, who
-- gets a frame, all interleavings, and two that the locks leave open. The hub uses the limiter's local
-- tables here.
--
-- Billing/Export.antt (data in Export/Types.antt) is internal/billing/export_worker.go over the task
-- table of internal/dal/ops_repo.go and ops_models.go: EnqueueExportTask, the two workers, the users'
-- semaphores and the cancellation. A database statement may fail, and each event says whether it does;
-- what a generator makes of a task is an argument, and so is which tasks are old when the daily prune
-- runs. Export/Enqueue, Slots, Rows, Cancel and Drain prove
-- the answers, the semaphores, the rows and that the queue is served.
--
-- Billing/Upstream.antt is internal/billing/upstream_cost.go: Upstream/Amounts.antt has CalcLogCost and
-- CalcProfitMargin over a record of float64 operations, Upstream/Statements.antt CalcUpstreamStatement with
-- the loop over the rows of the logs, Upstream/Models.antt IsImageGenerationModel. The listings of the
-- mappings and the query are arguments, each of which may fail; an int64 is its residue modulo 2 ^ 64.
-- Upstream/Grouping has sums over groups of rows, Groups, Counts, Answers and Search the proofs. The
-- search in a text has fuel for every index of the text and one more.
--
-- Discount.antt is internal/discount/discount.go: Discount/Pattern.antt is the regular expression as the
-- deterministic matcher that it amounts to, Discount/Parse.antt the two functions; float64 is the record
-- of Discount/Floats.antt. Discount/Matching, Leftmost, Answers and Range prove that the leftmost match
-- is found and what is made of it.
--
-- Audit.antt is internal/audit: Audit/Requests.antt is the middleware (middleware.go) and the explicit
-- logger (logger.go), Audit/Paths.antt the names taken from a path, Audit/Numbers.antt the logger's own
-- printing. The handlers behind the middleware are a function; a map's entries come in the order in
-- which a range gives them. _itoa has fuel for twenty rounds: nineteen digits and one to end.
--
-- Monitor/Conditions.antt is parseThreshold and hit of internal/monitor/alert_engine.go, on bytes; float64
-- with ParseFloat is a record. Monitor/Alerts.antt is shouldSuppress, markSuppressed, fireAlert and
-- evalBalanceLow: the keys in Redis, the rows of the alert tables, and whether each call succeeds.
-- Monitor/Lifecycle.antt is resolveFiredAlerts with its checks, AcknowledgeAlert and ResolveAlert.
--
-- Summary.antt is internal/sync/sync_logs_summary.go with the tables of internal/dal/cache_logs_summary.go
-- and cache_logs_summary_by_model.go: Summary/Rows.antt the aggregations, as functions of the rows of
-- `logs`, Summary/Sync.antt the sync with its ticks and the prune, which the program never runs.
-- Percentiles and float64 are the record Figures.
-- Summary/Minutes and Ticks prove what the table of minutes holds. Monitor/Health.antt (rows in
-- Health/Rows.antt) is internal/monitor/health.go, which reads that table or the logs, and the monitor's
-- tick of internal/scheduler/scheduler.go. Health/Counts, Window and Writes prove what is counted and
-- which rows a tick can change.
--
-- Billing/Cached.antt is internal/billing/upstream_cache.go and upstream_summary_tick.go with
-- internal/dal/cache_upstream_summary.go: Cached/Rows.antt the table, Ticks.antt the loop and the tick over
-- all vendors, Overview.antt the overview with its sort and the cached statement. Cached/Rounds, Freshness
-- and Sorting prove the round robin, how long rows serve, and the sort, which has fuel for its length.
--
-- Notifier.antt is internal/notifier/feishu.go: Notifier/Cards.antt the card of an alert,
-- Notifier/Sending.antt the configuration, the attempts and SendForAlert. Notifier/Attempts and Delivery
-- prove how the attempts end and what a second push does.
--
-- Monitor/Evaluation (internal/monitor/alert_engine.go): Durations is extractDuration, the module itself
-- the evaluators and the loop of EvaluateRules, Defaults the rules that come with the program. The answers
-- of the queries are a record for each rule, float64 with its arithmetic two records.
--
-- Accounts (internal/auth, internal/api/handlers_auth.go, handlers_admin_users.go, authMiddleware and
-- requireRole of internal/api/server.go, cmd/server/seed_admin.go): Users has the table and the tokens,
-- Access the middlewares, Handlers the handlers that write the table, Gate who passes a route, Login and
-- Revocation how a token fares. JWT and bcrypt are functions of a record.
--
-- Common.antt and its children hold what is shared: tests on numbers, lists, texts, Go maps and sets.
-- Other loops are recursions on lists.
--
-- Not modelled: the scheduler's AI jobs, the SQL text, HTML and XLSX rendering, the HTTP routes, the language
-- model services and the gateway's client.
pub mod Common
pub mod Realtime
pub mod Billing
pub mod Discount
pub mod Audit
pub mod Monitor
pub mod Summary
pub mod Notifier
pub mod Accounts
