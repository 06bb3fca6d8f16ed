-- ===== src/TelemetryConsumer.antt =====
-- internal/adapter/driving/nats_telemetry_consumer.go: from a message to a row, the buffer of rows,
-- and the acknowledgement of each message. A message is known by a number; what the handler, the
-- decoder and the database do are arguments.
pub mod Acks
pub mod Channel
pub mod Flush
pub mod Handed
pub mod Message
pub mod Persisted
use notip_data_consumer.Prelude.{
  ℕ, zero, suc, ◌+◌, Bool, true, false, Option, none, some, List, [], ◌∷◌, ◌++◌, length, leb, eqb,
  if◌then◌else◌,
}
use notip_data_consumer.Prelude.Bytes.{Bytes}
use notip_data_consumer.Prelude.Outcome.{Outcome, returns, panics, Result, ok, err}
use notip_data_consumer.Model.{TelemetryEnvelope, TelemetryRow}
use notip_data_consumer.Subject.{extract_tenant_id}

-- A `permanentError` around its cause, and the error of the handler.
pub data ProcessError : Type 0 where
  permanent : Bytes → ProcessError
  handler_failed : Bytes → ProcessError

-- The message's number, and the row or the error of `processMessage`.
pub record PendingMsg : Type 0 where
  pub msg : ℕ
  pub row : Result ProcessError TelemetryRow

-- `Ack`, `NakWithDelay(5 * time.Second)` and `Term`
pub data Ack : Type 0 where
  ack nak term : Ack

pub record ConsumerMetrics : Type 0 where
  pub message_parsing_errors : ℕ
  pub messages_written : ℕ
  pub write_errors : ℕ
  -- the observations of `BatchSize`
  pub batch_sizes : List ℕ

unfoldable pub build_row : Bytes → TelemetryEnvelope → TelemetryRow
build_row tenant_id env = record {
  time = env.timestamp;
  tenant_id = tenant_id;
  gateway_id = env.gateway_id;
  sensor_id = env.sensor_id;
  sensor_type = env.sensor_type;
  encrypted_data = env.encrypted_data;
  iv = env.iv;
  auth_tag = env.auth_tag;
  key_version = env.key_version;
}

module _ {S : Type 0} (handler : Bytes → TelemetryEnvelope → S → Outcome (S × Option Bytes)) where
  handled :
      Bytes
      → TelemetryEnvelope
      → Outcome (S × Option Bytes)
      → Outcome (S × Result ProcessError TelemetryRow)
  unfolding build_row
  handled tenant_id env (returns (s, none)) = returns (s, ok (build_row tenant_id env))
  handled tenant_id env (returns (s, some e)) = returns (s, err (handler_failed e))
  handled tenant_id env panics = panics

  decoded :
      Bytes → Result Bytes TelemetryEnvelope → S → Outcome (S × Result ProcessError TelemetryRow)
  unfolding handled
  decoded tenant_id (err e) s = returns (s, err (permanent e))
  decoded tenant_id (ok env) s = handled tenant_id env (handler tenant_id env s)

  addressed :
      (Bytes → Result Bytes TelemetryEnvelope)
      → Bytes
      → Option Bytes
      → Bytes
      → S
      → Outcome (S × Result ProcessError TelemetryRow)
  unfolding decoded
  addressed unmarshal subject none content s = returns (s, err (permanent subject))
  addressed unmarshal subject (some tenant_id) content s = decoded tenant_id (unmarshal content) s

  -- `processMessage`: `S` is the state of the handler.
  unfoldable pub process_message :
      (Bytes → Result Bytes TelemetryEnvelope)
      → Bytes
      → Bytes
      → S
      → Outcome (S × Result ProcessError TelemetryRow)
  unfolding addressed
  process_message unmarshal subject content s =
      addressed unmarshal subject (extract_tenant_id subject) content s

-- `enqueuePending`, where the context ends before the message can be queued
unfoldable pub give_up : PendingMsg → Ack
give_up pm = elim pm.row [ err (permanent _) ↦ term | err (handler_failed _) ↦ nak | ok _ ↦ nak ]

-- The rows of a batch's valid messages.
unfoldable pub valid_rows : List PendingMsg → List TelemetryRow
valid_rows [] = []
valid_rows (pm ∷ batch) = elim pm.row [ ok row ↦ row ∷ valid_rows batch | err _ ↦ valid_rows batch ]

-- `writer.WriteBatch`, for the batch with a given number
abbrev pub Writer : Type 0
Writer = ℕ → List TelemetryRow → Option Bytes

-- The state of the loop of `flushLoop`: the buffer, the number of writes so far, and the metrics; and
-- what it has done so far, oldest first: the rows handed to the writer, with the number of the write,
-- and the acknowledgements.
pub record FlushState : Type 0 where
  pub buf : List PendingMsg
  pub writes : ℕ
  pub handed : List (ℕ × List TelemetryRow)
  pub metrics : ConsumerMetrics
  pub acks : List (ℕ × Ack)

pub write_rows : Writer → ℕ → List TelemetryRow → Option Bytes
write_rows writer n [] = none
write_rows writer n (row ∷ rows) = writer n (row ∷ rows)

-- The body of the loop of `writeBatch` over the batch: what is done with one message, and counted.
pub settle_msg :
    Option Bytes → Result ProcessError TelemetryRow → Ack × (ConsumerMetrics → ConsumerMetrics)
settle_msg failure (err _) =
    (term, λ m. record m { message_parsing_errors = m.message_parsing_errors + 1 })
settle_msg (some _) (ok _) = (nak, λ m. record m { write_errors = m.write_errors + 1 })
settle_msg none (ok _) = (ack, λ m. record m { messages_written = m.messages_written + 1 })

pub settle_all : Option Bytes → List PendingMsg → ConsumerMetrics → ConsumerMetrics × List (ℕ × Ack)
unfolding settle_msg
settle_all failure [] m = (m, [])
settle_all failure (pm ∷ batch) m =
    let (verdict, count) = settle_msg failure pm.row in
    let (m', later) = settle_all failure batch (count m) in (m', (pm.msg, verdict) ∷ later)

-- `writeBatch`
unfoldable pub write_batch : Writer → List PendingMsg → FlushState → FlushState
unfolding write_rows settle_all valid_rows
write_batch writer batch s =
    let rows = valid_rows batch in
    let failure = write_rows writer s.writes rows in
    let observed = record (s.metrics) { batch_sizes = s.metrics.batch_sizes ++ length rows ∷ [] } in
    let (m, acks) = settle_all failure batch observed in
    record s {
      metrics = m;
      acks = s.acks ++ acks;
      writes = if eqb (length rows) 0 then s.writes else s.writes + 1;
      handed = if eqb (length rows) 0 then s.handed else s.handed ++ (s.writes, rows) ∷ [];
    }

-- `flush`: nothing for an empty buffer
pub flush : Writer → List PendingMsg → FlushState → FlushState
unfolding write_batch
flush writer [] s = s
flush writer (pm ∷ batch) s = record (write_batch writer (pm ∷ batch) s) { buf = [] }

-- What the `select` of `flushLoop` receives.
pub data FlushEvent : Type 0 where
  arrives : PendingMsg → FlushEvent
  ctx_done ticks : FlushEvent

-- One round of the loop, and whether it goes on.
unfoldable pub flush_round : ℕ → Writer → FlushEvent → FlushState → FlushState × Bool
unfolding flush
flush_round batch_size writer (arrives pm) s =
    let s' = record s { buf = s.buf ++ pm ∷ [] } in
    (if leb batch_size (length s'.buf) then flush writer s'.buf s' else s', true)
flush_round batch_size writer ctx_done s = (flush writer s.buf s, false)
flush_round batch_size writer ticks s = (flush writer s.buf s, true)

-- `flushLoop`, on the events that it receives; it reads none after the end of the context.
unfoldable pub flush_loop : ℕ → Writer → List FlushEvent → FlushState → FlushState
flush_loop batch_size writer [] s = s
flush_loop batch_size writer (event ∷ events) s =
    let (s', goes_on) = flush_round batch_size writer event s in
    let rest = flush_loop batch_size writer events s' in if goes_on then rest else s'

abbrev pub start_flushing : FlushState
start_flushing = record {
  buf = [];
  writes = 0;
  handed = [];
  metrics = record {
    message_parsing_errors = 0;
    messages_written = 0;
    write_errors = 0;
    batch_sizes = [];
  };
  acks = [];
}
