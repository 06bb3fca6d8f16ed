-- ===== src/Examples/ConsumerRuns.antt =====
-- Three messages, two of them without a row, in batches of two.
use notip_data_consumer.Prelude.{◌≡◌, refl, some, none, [], ◌∷◌, List, arith}
use notip_data_consumer.Prelude.Bytes.{lit}
use notip_data_consumer.Prelude.Int.{pos}
use notip_data_consumer.Prelude.Outcome.{ok, err}
use notip_data_consumer.Model.{TelemetryRow}
use notip_data_consumer.Subject.{split, extract_tenant_id}
use notip_data_consumer.TelemetryConsumer.{
  PendingMsg, permanent, handler_failed, ack, term, Writer, start_flushing, FlushEvent, arrives,
  ctx_done, ticks, valid_rows, write_batch, flush_round, flush_loop,
}
use notip_data_consumer.TelemetryConsumer.Acks.{Settled, write_batch-Settled}
use notip_data_consumer.TelemetryConsumer.Flush.{IsBounded, flush_loop-IsBounded}

abbrev pub row : TelemetryRow
row = record {
  time = pos 5;
  tenant_id = lit "t1";
  gateway_id = lit "g1";
  sensor_id = lit "s1";
  sensor_type = lit "humidity";
  encrypted_data = record { value = lit "YQ==" };
  iv = record { value = lit "aXY=" };
  auth_tag = record { value = lit "dGFn" };
  key_version = pos 1;
}

abbrev pub good : PendingMsg
good = record { msg = 1; row = ok row }

abbrev bad : PendingMsg
bad = record { msg = 2; row = err (permanent (lit "no json")) }

abbrev pub unlucky : PendingMsg
unlucky = record { msg = 3; row = err (handler_failed (lit "later")) }

-- The database takes every batch.
abbrev pub writer : Writer
writer n rows = none

abbrev pub events : List FlushEvent
events = arrives good ∷ arrives bad ∷ ticks ∷ arrives unlucky ∷ ctx_done ∷ arrives good ∷ []

all_settled :
    (flush_loop 2 writer events start_flushing).acks ≡ (1, ack) ∷ (2, term) ∷ (3, term) ∷ []
unfolding flush_loop flush_round write_batch valid_rows
all_settled = refl

write_batch-Settled_example :
    Settled writer
      (good ∷ bad ∷ [])
      start_flushing
      (write_batch writer (good ∷ bad ∷ []) start_flushing)
write_batch-Settled_example = write_batch-Settled writer (good ∷ bad ∷ []) start_flushing

flush_loop-IsBounded_example : IsBounded 2 (flush_loop 2 writer events start_flushing)
flush_loop-IsBounded_example =
    flush_loop-IsBounded 2 writer events start_flushing (omega arith)
      (record { short = omega arith; small = tt })

telemetry_subject : extract_tenant_id (lit "telemetry.data.t1.g1") ≡ some (lit "t1")
unfolding extract_tenant_id split
telemetry_subject = refl

short_subject : extract_tenant_id (lit "telemetry.data.t1") ≡ none
unfolding extract_tenant_id split
short_subject = refl
