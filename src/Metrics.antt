-- ===== src/Metrics.antt =====
-- internal/metrics/metrics.go: the metrics, their registration, and the methods that move them. The
-- registry is Prometheus's, an argument; a `float64` is of a type that is left open.
pub mod Registered
use notip_data_consumer.Prelude.{
  ℕ, ◌+◌, Bool, true, false, Option, none, some, List, [], ◌∷◌, ◌++◌, if◌then◌else◌,
}
use notip_data_consumer.Prelude.Bytes.{Bytes, lit}
use notip_data_consumer.Prelude.Outcome.{Outcome, returns, panics, ◌>>=◌}
use notip_data_consumer.Model.{Duration}

-- The fields of `Metrics`
pub data Metric : Type 0 where
  messages_received message_parsing_errors messages_written write_errors write_latency : Metric
  batch_size alerts_published alert_publish_errors heartbeat_map_size : Metric
  heartbeat_tick_duration status_update_errors status_update_dropped : Metric
  dispatch_queue_length alert_cache_refresh_errors alert_cache_last_success : Metric
  nats_reconnects lifecycle_query_errors : Metric

-- Their names, as `New` gives them.
abbrev pub name : Metric → Bytes
name messages_received = lit "notip_consumer_messages_received_total"
name message_parsing_errors = lit "notip_consumer_message_parsing_errors_total"
name messages_written = lit "notip_consumer_messages_written_total"
name write_errors = lit "notip_consumer_write_errors_total"
name write_latency = lit "notip_consumer_write_duration_seconds"
name batch_size = lit "notip_consumer_batch_size"
name alerts_published = lit "notip_consumer_alerts_published_total"
name alert_publish_errors = lit "notip_consumer_alert_publish_errors_total"
name heartbeat_map_size = lit "notip_consumer_heartbeat_map_size"
name heartbeat_tick_duration = lit "notip_consumer_heartbeat_tick_duration_seconds"
name status_update_errors = lit "notip_consumer_status_update_errors_total"
name status_update_dropped = lit "notip_consumer_status_update_dropped_total"
name dispatch_queue_length = lit "notip_consumer_dispatch_queue_length"
name alert_cache_refresh_errors = lit "notip_consumer_alert_cache_refresh_errors_total"
name alert_cache_last_success = lit "notip_consumer_alert_cache_last_success_timestamp"
name nats_reconnects = lit "notip_consumer_nats_reconnects_total"
name lifecycle_query_errors = lit "notip_consumer_lifecycle_query_errors_total"

-- In the order in which `New` registers them.
abbrev pub all_metrics : List Metric
all_metrics =
    messages_received ∷ message_parsing_errors ∷ messages_written ∷ write_errors ∷ write_latency
    ∷ batch_size ∷ alerts_published ∷ alert_publish_errors ∷ heartbeat_map_size
    ∷ heartbeat_tick_duration ∷ status_update_errors ∷ status_update_dropped ∷ dispatch_queue_length
    ∷ alert_cache_refresh_errors ∷ alert_cache_last_success ∷ nats_reconnects
    ∷ lifecycle_query_errors ∷ []

-- `prometheus.Registerer`, as far as `New` uses it: `Register` takes a metric by its name, or refuses it.
module _ {R : Type 0} (register : Bytes → R → Option R) where
  registered : Option R → (R → Outcome R) → Outcome R
  registered none rest = panics
  registered (some r) rest = rest r

  -- `MustRegister` panics at the first metric that is refused.
  unfoldable pub must_register : List Metric → R → Outcome R
  unfolding registered
  must_register [] r = returns r
  must_register (m ∷ ms) r = registered (register (name m) r) (must_register ms)

  -- `New`, by what it makes of the registry
  unfoldable pub new_metrics : R → Outcome R
  unfolding must_register
  new_metrics r = must_register all_metrics r

-- `Metrics`, by what its handles have been told: how often a counter was incremented, what a gauge was
-- set to, and the observations of a histogram, oldest first. `F` stands for `float64`.
pub record Metrics (F : Type 0) : Type 0 where
  pub messages_received : ℕ
  pub message_parsing_errors : ℕ
  pub messages_written : ℕ
  pub write_errors : ℕ
  pub write_latency : List F
  pub batch_size : List F
  pub alerts_published : ℕ
  pub alert_publish_errors : ℕ
  pub heartbeat_map_size : Option F
  pub heartbeat_tick_duration : List F
  pub status_update_errors : ℕ
  pub status_update_dropped : ℕ
  pub dispatch_queue_length : Option F
  pub alert_cache_refresh_errors : ℕ
  pub alert_cache_last_success : Option F
  pub nats_reconnects : ℕ
  pub lifecycle_query_errors : ℕ

-- The calls of the methods.
pub data MetricCall (F : Type 0) : Type 0 where
  inc_messages_received : MetricCall F
  inc_message_parsing_errors : MetricCall F
  inc_messages_written : MetricCall F
  inc_write_errors : MetricCall F
  observe_write_latency : Duration → MetricCall F
  observe_batch_size : F → MetricCall F
  inc_alerts_published : MetricCall F
  inc_alert_publish_errors : MetricCall F
  set_heartbeat_map_size : F → MetricCall F
  observe_heartbeat_tick_duration : Duration → MetricCall F
  inc_status_update_errors : MetricCall F
  inc_status_update_dropped : MetricCall F
  set_dispatch_queue_length : F → MetricCall F
  inc_alert_cache_refresh_errors : MetricCall F
  set_alert_cache_last_success : F → MetricCall F
  inc_nats_reconnects : MetricCall F
  inc_lifecycle_query_errors : MetricCall F

-- The methods, by their calls; `to_seconds` stands for `Duration.Seconds`.
unfoldable pub perform : {F : Type 0} → (Duration → F) → MetricCall F → Metrics F → Metrics F
perform to_seconds inc_messages_received m = record m {
  messages_received = m.messages_received + 1;
}
perform to_seconds inc_message_parsing_errors m = record m {
  message_parsing_errors = m.message_parsing_errors + 1;
}
perform to_seconds inc_messages_written m = record m { messages_written = m.messages_written + 1 }
perform to_seconds inc_write_errors m = record m { write_errors = m.write_errors + 1 }
perform to_seconds (observe_write_latency d) m = record m {
  write_latency = m.write_latency ++ to_seconds d ∷ [];
}
perform to_seconds (observe_batch_size v) m = record m { batch_size = m.batch_size ++ v ∷ [] }
perform to_seconds inc_alerts_published m = record m { alerts_published = m.alerts_published + 1 }
perform to_seconds inc_alert_publish_errors m = record m {
  alert_publish_errors = m.alert_publish_errors + 1;
}
perform to_seconds (set_heartbeat_map_size v) m = record m { heartbeat_map_size = some v }
perform to_seconds (observe_heartbeat_tick_duration d) m = record m {
  heartbeat_tick_duration = m.heartbeat_tick_duration ++ to_seconds d ∷ [];
}
perform to_seconds inc_status_update_errors m = record m {
  status_update_errors = m.status_update_errors + 1;
}
perform to_seconds inc_status_update_dropped m = record m {
  status_update_dropped = m.status_update_dropped + 1;
}
perform to_seconds (set_dispatch_queue_length v) m = record m { dispatch_queue_length = some v }
perform to_seconds inc_alert_cache_refresh_errors m = record m {
  alert_cache_refresh_errors = m.alert_cache_refresh_errors + 1;
}
perform to_seconds (set_alert_cache_last_success v) m = record m {
  alert_cache_last_success = some v;
}
perform to_seconds inc_nats_reconnects m = record m { nats_reconnects = m.nats_reconnects + 1 }
perform to_seconds inc_lifecycle_query_errors m = record m {
  lifecycle_query_errors = m.lifecycle_query_errors + 1;
}
