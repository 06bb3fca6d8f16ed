-- ===== src/Examples/AdapterRuns.antt =====
-- A decommission, a batch whose second row fails, an alert, and a paused gateway.
use notip_data_consumer.Prelude.{
  ℕ, List, ◌+◌, ◌++◌, ◌≡◌, ◌⊎◌, refl, Option, none, some, [], ◌∷◌, arith, eqb, if◌then◌else◌,
}
use notip_data_consumer.Prelude.Bytes.{Bytes, bytes_eqb, lit}
use notip_data_consumer.Prelude.Int.{pos, int64, ◌+ℤ◌, ◌*ℤ◌}
use notip_data_consumer.Prelude.Outcome.{Outcome, returns, Result, ok, err}
use notip_data_consumer.Model.{TelemetryEnvelope, AlertPayload, lifecycle_paused, milliseconds}
use notip_data_consumer.RrClient.{new_nats_rr_client, RrError}
use notip_data_consumer.RrClient.Lifecycle.{Confirmed}
use notip_data_consumer.Tracker.{Tracker, Ports, HeartbeatEntry, paused, examine, fresh_entry}
use notip_data_consumer.TelemetryConsumer.{Ack, process_message}
use notip_data_consumer.TelemetryConsumer.Message.{Processed, process_message-Processed}
use notip_data_consumer.Decommission.{run_decommissions}
use notip_data_consumer.Decommission.Session.{Session, run_decommissions-Session}
use notip_data_consumer.Adapters.{AdapterMetrics, write_batch, publish_alert, provide_lifecycle}
use notip_data_consumer.Adapters.Alerts.{Published, publish_alert-Published}
use notip_data_consumer.Adapters.Gate.{as_port, paused-Confirmed}
use notip_data_consumer.Examples.TrackerRuns.{gateway, heard_tracker, envelope}
use notip_data_consumer.Examples.ConsumerRuns.{row}
use notip_data_consumer.Examples.ClientRuns.{json, network, paused_reply}

abbrev goodbyes : List Bytes
goodbyes = lit "gateway.decommissioned.t1.g1" ∷ lit "gateway.decommissioned" ∷ []

run_decommissions-Session_example :
    ((e : Bytes) × (◌≡◌ {A = Option Bytes} none (some e))
      × (run_decommissions none goodbyes heard_tracker
          ≡ err (lit "subscribe gateway.decommissioned.>: " ++ e)))
    ⊎ ((t' : Tracker) × (acks : List Ack) × (◌≡◌ {A = Option Bytes} none none)
        × (run_decommissions none goodbyes heard_tracker ≡ ok (t', acks))
        × Session goodbyes heard_tracker t' acks)
run_decommissions-Session_example = run_decommissions-Session none goodbyes heard_tracker

abbrev second_fails : ℕ → Option Bytes
second_fails i = if eqb i 1 then some (lit "duplicate key") else none

second_reported :
    (write_batch second_fails (row ∷ row ∷ row ∷ [])).failure ≡ some (1, lit "duplicate key")
unfolding write_batch
second_reported = refl

abbrev metrics : AdapterMetrics
metrics = record {
  lifecycle_query_errors = 0;
  status_update_errors = 0;
  alerts_published = 0;
  alert_publish_errors = 0;
}

abbrev payload : AlertPayload
payload = record {
  gateway_id = lit "g1";
  last_seen = pos 10;
  timeout_ms = pos 1;
  timestamp = pos 20;
}

abbrev encode : AlertPayload → Result Bytes Bytes
encode p = ok (lit "{}")

abbrev accept : Bytes → Bytes → Option Bytes
accept subject content = none

publish_alert-Published_example :
    Published encode accept
      (lit "t1")
      payload
      metrics
      (publish_alert encode accept (lit "t1") payload metrics)
publish_alert-Published_example =
    publish_alert-Published encode accept (lit "t1") payload metrics (ground arith)

abbrev text : RrError → Bytes
text e = lit "error"

abbrev gate_ports : Ports
gate_ports = record {
  timeout_for = λ tenant_id gateway_id. pos 1;
  lifecycle = λ tenant_id gateway_id. ok lifecycle_paused;
  publish = λ tenant_id p. none;
}

abbrev entry : HeartbeatEntry
entry = fresh_entry gateway (pos 10)

passed_over : (examine gate_ports (pos 2000000) entry).0 ≡ paused
unfolding examine milliseconds int64 ◌*ℤ◌ ◌+ℤ◌ bytes_eqb
passed_over = refl

wired : ok lifecycle_paused ≡ as_port text (provide_lifecycle (ok lifecycle_paused) metrics).0
unfolding provide_lifecycle
wired = refl

paused-Confirmed_example :
    Confirmed json new_nats_rr_client network (lit "t1") (lit "g1") lifecycle_paused
paused-Confirmed_example =
    paused-Confirmed json new_nats_rr_client network text metrics gate_ports (pos 2000000) entry
      (ok lifecycle_paused) paused_reply wired passed_over

-- A handler that keeps the number of the envelopes it took.
abbrev handler : Bytes → TelemetryEnvelope → ℕ → Outcome (ℕ × Option Bytes)
handler tenant_id env n = returns (n + 1, none)

abbrev unmarshal : Bytes → Result Bytes TelemetryEnvelope
unmarshal content = ok envelope

process_message-Processed_example :
    Processed handler unmarshal
      (lit "telemetry.data.t1.g1")
      []
      0
      (process_message handler unmarshal (lit "telemetry.data.t1.g1") [] 0)
process_message-Processed_example =
    process_message-Processed handler unmarshal (lit "telemetry.data.t1.g1") [] 0
