-- ===== src/Examples/TrackerRuns.antt =====
-- One gateway is heard of, and found silent.
use notip_data_consumer.Prelude.{◌≡◌, ◌↔◌, refl, true, some, [], ◌∷◌}
use notip_data_consumer.Prelude.Bytes.{Bytes, lit, bytes_eqb}
use notip_data_consumer.Prelude.GoMap.{lookup, insert}
use notip_data_consumer.Prelude.Int.{pos}
use notip_data_consumer.Prelude.Outcome.{returns, panics}
use notip_data_consumer.Model.{TelemetryEnvelope, online}
use notip_data_consumer.Dispatcher.{start, dispatch_status_update}
use notip_data_consumer.Tracker.{
  GatewayKey, key_eq, Tracker, fresh_entry, online_update, handle_telemetry, new_heartbeat_tracker,
}
use notip_data_consumer.Tracker.Invariant.{IsWellFormed, new_heartbeat_tracker-IsWellFormed}
use notip_data_consumer.Tracker.Telemetry.{
  Heard, is_news, handle_telemetry-Heard, handle_telemetry-panics_iff,
}
use notip_data_consumer.Tracker.Interleaving.{World, Reach, here, next, hear, initial, idle}
use notip_data_consumer.Tracker.Interleaving.Reached.{online_was_reported, reached-IsWellFormed}
use notip_data_consumer.Tracker.Interleaving.Truth.{last_status}

abbrev pub gateway : GatewayKey
gateway = record { tenant_id = lit "t1"; gateway_id = lit "g1" }

abbrev pub envelope : TelemetryEnvelope
envelope = record {
  gateway_id = lit "g1";
  sensor_id = lit "s1";
  sensor_type = lit "humidity";
  timestamp = pos 5;
  key_version = pos 1;
  encrypted_data = record { value = lit "YQ==" };
  iv = record { value = lit "aXY=" };
  auth_tag = record { value = lit "dGFn" };
}

abbrev pub heard_tracker : Tracker
heard_tracker = record {
  start_time = pos 0;
  grace_period = pos 0;
  beats = (gateway, fresh_entry gateway (pos 10)) ∷ [];
  dispatcher = record (start 4) {
    queue = online_update (lit "g1") (pos 10) ∷ [];
    attempted = online_update (lit "g1") (pos 10) ∷ [];
  };
  map_size = 1;
}

first_heard :
    handle_telemetry (pos 10) (lit "t1") envelope (new_heartbeat_tracker (pos 0) (pos 0) 4)
    ≡ returns heard_tracker
unfolding handle_telemetry new_heartbeat_tracker lookup insert dispatch_status_update start
first_heard = refl

handle_telemetry-Heard_example :
    Heard gateway (pos 10) (new_heartbeat_tracker (pos 0) (pos 0) 4) heard_tracker
handle_telemetry-Heard_example =
    handle_telemetry-Heard (pos 10) (lit "t1") envelope (new_heartbeat_tracker (pos 0) (pos 0) 4)
      heard_tracker (new_heartbeat_tracker-IsWellFormed (pos 0) (pos 0) 4) first_heard

handle_telemetry-panics_iff_example :
    (handle_telemetry (pos 10) (lit "t1") envelope heard_tracker ≡ panics) ↔ (
      (heard_tracker.dispatcher.closed ≡ true)
      × (is_news (lookup gateway heard_tracker.beats) ≡ true))
handle_telemetry-panics_iff_example =
    handle_telemetry-panics_iff (pos 10) (lit "t1") envelope heard_tracker

abbrev one_tenant : Bytes → Bytes
one_tenant _ = lit "t1"

abbrev heard_world : World
heard_world = record { tracker = heard_tracker; phase = idle }

heard-Reach : Reach one_tenant (initial (pos 0) (pos 0) 4) heard_world
heard-Reach = next here (hear (pos 10) (lit "t1") envelope heard_tracker refl first_heard refl)

found : lookup gateway heard_tracker.beats ≡ some (fresh_entry gateway (pos 10))
unfolding lookup bytes_eqb
found = refl

online_was_reported_example :
    last_status (lit "g1") heard_tracker.dispatcher.attempted ≡ some online
online_was_reported_example =
    online_was_reported one_tenant (pos 0) (pos 0) 4 heard_world gateway
      (fresh_entry gateway (pos 10)) heard-Reach found refl refl

pub heard_tracker-IsWellFormed : IsWellFormed heard_tracker
heard_tracker-IsWellFormed =
    reached-IsWellFormed one_tenant (pos 0) (pos 0) 4 heard_world heard-Reach

reached-IsWellFormed_example : IsWellFormed heard_tracker
reached-IsWellFormed_example =
    reached-IsWellFormed one_tenant (pos 0) (pos 0) 4 heard_world heard-Reach
