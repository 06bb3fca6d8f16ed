-- ===== src/Lib.antt =====
-- notip-data-consumer: a Go service that consumes encrypted telemetry from NATS JetStream, stores it
-- in TimescaleDB, and tracks which gateways are alive, to raise an alert when one falls silent.
--
-- The parts, from the outside in, and the file that models each:
--
-- * internal/adapter/driving/nats_telemetry_consumer.go takes a message, reads the tenant off its
--   subject (Subject), decodes it, tells the tracker, and buffers a row; a loop writes the rows in
--   batches and acknowledges each message (TelemetryConsumer). The steps of the callback and of the
--   loop, with the channel between them, are TelemetryConsumer/Channel. nats_decommission_consumer.go
--   tells the tracker that a gateway is gone, heartbeat_tick_timer.go calls its `Tick`
--   (Decommission).
-- * internal/service/heartbeat_tracker.go is the core (Tracker): `HandleTelemetry` is
--   `handle_telemetry`, `HandleDecommission` is `handle_decommission`, `Tick` is `tick`. Its channel
--   of status updates, with `dispatchStatusUpdate`, `dispatchWorker` and `Close`, is Dispatcher.
-- * cmd/consumer/main.go puts these together: Startup has its `run`, step by step, with what it defers;
--   Service has the path of a message from the stream to the statement in the database.
-- * internal/adapter/driven/ holds what the tracker calls: alert_config_cache.go (AlertCache) gives a
--   gateway's timeout, nats_rr_client.go (RrClient) asks the management API, with retries; the thin
--   adapters around them and the writer of rows are Adapters.
-- * internal/config/config.go reads the environment (Config, with Strconv for its numbers) and makes
--   the address of the database (Config/Dsn, with Text for `strings.TrimSpace` and NetUrl for
--   `net/url`), internal/metrics/metrics.go registers the metrics and counts (Metrics),
--   migrations/embed.go applies the SQL scripts (Migrations), internal/domain/model/model.go holds
--   the shared data (Model, with Json for `encoding/json` on strings).
--
-- How state corresponds. A struct is a record with the fields that the operations use; loggers are
-- left out, and so are metrics that no statement is about. A method takes the record and returns
-- the new one. Some records also keep what has happened so far, for which the code has no field:
-- the batches handed to the writer and the verdicts on messages (FlushState), the messages that the
-- callback was called for (ConsumerRun), the updates that were attempted. What the code calls
-- through an interface (clock, ports, database, NATS, and encoding/json for envelopes and replies)
-- is an argument: a function, or a record of functions. A panic is the outcome `panics`. A critical
-- section of the tracker is one step; Tracker/Interleaving has the steps of `Tick` one by one, so
-- that other sections may come between them, and the order in which Go yields a map's entries is
-- free (Tracker/Snapshot, Tracker/AnyOrder).
--
-- Numbers. A `time.Time` is the integer count of nanoseconds, a `time.Duration` and an `int64` an
-- integer; products of `int64` wrap around by `int64` (Prelude/Int). Counters are natural numbers.
-- A Go string is its list of bytes.
--
-- Loops. The loops over collections recur on the list. `requestWithRetry` and `fetchWithBackoff` recur
-- on the number of attempts left, which is what bounds them in the code; the worker's steps in `close`
-- are two for each job and two more, and Dispatcher/Drain shows that this is enough; the digits of a
-- number recur on fuel above the number, and Strconv/Format shows that this is enough. The loop of
-- `flushLoop` runs on the list of events that its `select` receives; TelemetryConsumer/Channel has it
-- beside the callback, one step at a time, and Channel/Refines relates the two.
--
-- Not modelled: logging, the help texts and buckets of the metrics, what libraries do with the
-- settings that cmd/consumer/main.go gives them, and of encoding/json whatever is not a string.
-- Startup lists the goroutines that `run` starts; how they interleave with its end is not in it. The
-- time that passes within an operation is seen only through the readings of the clock that are its
-- arguments.
pub mod Prelude
pub mod Model
pub mod Dispatcher
pub mod Tracker
pub mod AlertCache
pub mod RrClient
pub mod Config
pub mod Json
pub mod Metrics
pub mod Migrations
pub mod Startup
pub mod Strconv
pub mod NetUrl
pub mod Text
pub mod Subject
pub mod TelemetryConsumer
pub mod Decommission
pub mod Adapters
pub mod Service
mod Examples
