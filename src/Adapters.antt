-- ===== src/Adapters.antt =====
-- The thin adapters of internal/adapter/driven/: nats_gateway_lifecycle_provider.go,
-- nats_gateway_status_updater.go, nats_alert_publisher.go and postgres_telemetry_writer.go. The
-- clients that they call, encoding/json and the database are arguments.
pub mod Rows
pub mod Alerts
pub mod Gate
use notip_data_consumer.Prelude.{ℕ, zero, suc, ◌+◌, Option, none, some, List, [], ◌∷◌, ◌++◌, map}
use notip_data_consumer.Prelude.Bytes.{Bytes, lit}
use notip_data_consumer.Prelude.Int.{ℤ}
use notip_data_consumer.Prelude.Outcome.{Result, ok, err}
use notip_data_consumer.Model.{
  Time, TelemetryRow, AlertPayload, GatewayLifecycleState, lifecycle_unknown,
}

-- The counters of the adapters.
pub record AdapterMetrics : Type 0 where
  pub lifecycle_query_errors : ℕ
  pub status_update_errors : ℕ
  pub alerts_published : ℕ
  pub alert_publish_errors : ℕ

-- `NATSGatewayLifecycleProvider.GetGatewayLifecycle`, on what the client returned: the state, which
-- is `unknown` beside an error, and the error.
unfoldable pub provide_lifecycle {ℓ} :
    {E : Type ℓ}
    → Result E GatewayLifecycleState
    → AdapterMetrics
    → (GatewayLifecycleState × Option E) × AdapterMetrics
provide_lifecycle (ok state) m = ((state, none), m)
provide_lifecycle (err e) m = (
  (lifecycle_unknown, some e),
  record m { lifecycle_query_errors = m.lifecycle_query_errors + 1 },
)

-- `NATSGatewayStatusUpdater.UpdateStatus`, on what the client returned
unfoldable pub update_status {ℓ} :
    {E : Type ℓ} → Result E (Unit {0}) → AdapterMetrics → Option E × AdapterMetrics
update_status (ok done) m = (none, m)
update_status (err e) m = (some e, record m { status_update_errors = m.status_update_errors + 1 })

-- The errors of `Publish`, by the `fmt.Errorf` that makes them.
pub data PublishError : Type 0 where
  unencodable : Bytes → PublishError
  unpublished : Bytes → Bytes → PublishError

-- `fmt.Sprintf("alert.%s.gw_offline", tenantID)`
unfoldable pub alert_subject : Bytes → Bytes
alert_subject tenant_id = lit "alert." ++ (tenant_id ++ lit ".gw_offline")

-- After the request to JetStream, of which the argument is the error.
publish_end : Bytes → Option Bytes → AdapterMetrics → Option PublishError × AdapterMetrics
publish_end subject none m = (none, record m { alerts_published = m.alerts_published + 1 })
publish_end subject (some e) m =
    (some (unpublished subject e), record m { alert_publish_errors = m.alert_publish_errors + 1 })

-- `NATSAlertPublisher.Publish`; `publish` is the `Publish` of JetStream.
unfoldable pub publish_alert :
    (AlertPayload → Result Bytes Bytes)
    → (Bytes → Bytes → Option Bytes)
    → Bytes
    → AlertPayload
    → AdapterMetrics
    → Option PublishError × AdapterMetrics
unfolding alert_subject publish_end
publish_alert encode publish tenant_id payload m = elim (encode payload) [
  | err e ↦ (some (unencodable e), m)
  | ok content ↦
      let subject = alert_subject tenant_id in publish_end subject (publish subject content) m
]

-- The arguments of `insertTelemetry`, in their order.
pub record InsertArgs : Type 0 where
  pub time : Time
  pub tenant_id : Bytes
  pub gateway_id : Bytes
  pub sensor_id : Bytes
  pub sensor_type : Bytes
  pub encrypted_data : Bytes
  pub iv : Bytes
  pub auth_tag : Bytes
  pub key_version : ℤ

unfoldable pub insert_args : TelemetryRow → InsertArgs
insert_args row = record {
  time = row.time;
  tenant_id = row.tenant_id;
  gateway_id = row.gateway_id;
  sensor_id = row.sensor_id;
  sensor_type = row.sensor_type;
  encrypted_data = row.encrypted_data.value;
  iv = row.iv.value;
  auth_tag = row.auth_tag.value;
  key_version = row.key_version;
}

-- `PostgresTelemetryWriter.Write`; `exec` is the `Exec` of the pool.
unfoldable pub write : (InsertArgs → Option Bytes) → TelemetryRow → Option Bytes
unfolding insert_args
write exec row = exec (insert_args row)

-- The statements of the batch, and the first error with the number of its row.
pub record BatchEnd : Type 0 where
  pub queued : List InsertArgs
  pub failure : Option (ℕ × Bytes)

-- The loop that reads the results; `i` is the number of the next one.
unfoldable pub read_results : (ℕ → Option Bytes) → List TelemetryRow → ℕ → Option (ℕ × Bytes)
read_results result [] i = none
read_results result (row ∷ rows) i = elim (result i) [
  | some e ↦ some (i, e)
  | none ↦ read_results result rows (i + 1)
]

-- `PostgresTelemetryWriter.WriteBatch`; `result` is what `br.Exec` returns for each statement, and
-- the error of `br.Close` is dropped.
unfoldable pub write_batch : (ℕ → Option Bytes) → List TelemetryRow → BatchEnd
unfolding read_results insert_args
write_batch result [] = record { queued = []; failure = none }
write_batch result (row ∷ rows) = record {
  queued = map insert_args (row ∷ rows);
  failure = read_results result (row ∷ rows) 0;
}
