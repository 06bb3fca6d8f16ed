-- ===== src/Service.antt =====
-- The path of a telemetry message through the service, as cmd/consumer/main.go wires it: the
-- callback of `Run` in nats_telemetry_consumer.go with the tracker as its handler, the loop that
-- buffers, and the writer of rows in front of the database.
pub mod Delivery
pub mod Returns
pub mod Stored
use notip_data_consumer.Prelude.{ℕ, Option, none, some, List, [], ◌∷◌}
use notip_data_consumer.Prelude.Bytes.{Bytes}
use notip_data_consumer.Prelude.Outcome.{Outcome, returns, panics, ◌>>=◌, Result, ok, err}
use notip_data_consumer.Model.{Time, TelemetryEnvelope, TelemetryRow}
use notip_data_consumer.Tracker.{Tracker, handle_telemetry}
use notip_data_consumer.TelemetryConsumer.{
  PendingMsg, process_message, Writer, FlushState, FlushEvent, arrives, ctx_done, ticks, flush_loop,
  start_flushing,
}
use notip_data_consumer.Adapters.{write_batch}

-- A message of the stream, with its number.
pub record RawMsg : Type 0 where
  pub number : ℕ
  pub subject : Bytes
  pub content : Bytes

-- `HandleTelemetry` as the port of the consumer: its error is always nil.
unfoldable pub tracker_handler :
    Time → Bytes → TelemetryEnvelope → Tracker → Outcome (Tracker × Option Bytes)
tracker_handler now tenant_id env t = do
  t' ← handle_telemetry now tenant_id env t
  returns (t', none)

-- The callback of `Run`, up to `enqueuePending`.
unfoldable pub receive_msg :
    (Bytes → Result Bytes TelemetryEnvelope)
    → Time
    → RawMsg
    → Tracker
    → Outcome (Tracker × PendingMsg)
receive_msg unmarshal now raw t = do
  (t', row) ← process_message (tracker_handler now) unmarshal raw.subject raw.content t
  returns (t', record { msg = raw.number; row = row })

-- What the two goroutines of `Run` meet: a message at a reading of the clock, the ticker, and the
-- end of the context.
pub data Incoming : Type 0 where
  message : Time → RawMsg → Incoming
  interval stop : Incoming

-- The events that the loop receives; a message is queued as soon as its callback is through. The
-- callback may still run after the end of the context, when the loop reads nothing more.
unfoldable pub queue_all :
    (Bytes → Result Bytes TelemetryEnvelope)
    → List Incoming
    → Tracker
    → Outcome (Tracker × List FlushEvent)
queue_all unmarshal [] t = returns (t, [])
queue_all unmarshal (message now raw ∷ incoming) t = do
  (t', pm) ← receive_msg unmarshal now raw t
  (t'', events) ← queue_all unmarshal incoming t'
  returns (t'', arrives pm ∷ events)
queue_all unmarshal (interval ∷ incoming) t = do
  (t', events) ← queue_all unmarshal incoming t
  returns (t', ticks ∷ events)
queue_all unmarshal (stop ∷ incoming) t = do
  (t', events) ← queue_all unmarshal incoming t
  returns (t', ctx_done ∷ events)

-- What the database answers: for each batch, and each statement of it.
abbrev pub Database : Type 0
Database = ℕ → ℕ → Option Bytes

abbrev error_of : Option (ℕ × Bytes) → Option Bytes
error_of none = none
error_of (some (_, e)) = some e

-- The writer of rows as the port of the consumer.
unfoldable pub row_writer : Database → Writer
row_writer db n rows = error_of (write_batch (db n) rows).failure

-- `Run`
unfoldable pub run_consumer :
    (Bytes → Result Bytes TelemetryEnvelope)
    → ℕ
    → Database
    → List Incoming
    → Tracker
    → Outcome (Tracker × FlushState)
run_consumer unmarshal batch_size db incoming t = do
  (t', events) ← queue_all unmarshal incoming t
  returns (t', flush_loop batch_size (row_writer db) events start_flushing)
