-- ===== src/Examples/TickRuns.antt =====
-- A gateway that was heard of once is silent for longer than its timeout of a millisecond.
use notip_data_consumer.Prelude.{◌≡◌, ◌≢◌, ◌↔◌, refl, true, none, [], ◌∷◌, List, keep, All}
use notip_data_consumer.Prelude.Bytes.{lit, bytes_eqb}
use notip_data_consumer.Prelude.GoMap.{lookup, insert}
use notip_data_consumer.Prelude.Int.{pos, int64, ◌*ℤ◌, ◌+ℤ◌}
use notip_data_consumer.Prelude.Outcome.{returns, panics, ok}
use notip_data_consumer.Model.{milliseconds, offline, lifecycle_online}
use notip_data_consumer.Dispatcher.{start, dispatch_status_update, close_channel}
use notip_data_consumer.Tracker.{
  HeartbeatEntry, Tracker, Ports, fresh_entry, offline_update, alert_payload, online_update, Call,
  query, alert, dispatch, mark_offline, examine, tick,
}
use notip_data_consumer.Tracker.Snapshot.{find_entry, IsSnapshot, values-IsSnapshot}
use notip_data_consumer.Tracker.Body.{falls, alerts}
use notip_data_consumer.Tracker.Repeat.{alert_key, alerted_once}
use notip_data_consumer.Tracker.Tick.{Ticked, tick-Ticked}
use notip_data_consumer.Tracker.Shutdown.{tick-panics_iff}
use notip_data_consumer.Examples.TrackerRuns.{gateway, heard_tracker, heard_tracker-IsWellFormed}

abbrev ports : Ports
ports = record {
  timeout_for = λ tenant_id gateway_id. pos 1;
  lifecycle = λ tenant_id gateway_id. ok lifecycle_online;
  publish = λ tenant_id payload. none;
}

abbrev entry : HeartbeatEntry
entry = fresh_entry gateway (pos 10)

abbrev late_tracker : Tracker
late_tracker = record heard_tracker {
  beats = (gateway, record entry { known_status = offline }) ∷ [];
  dispatcher = record (start 4) {
    queue = online_update (lit "g1") (pos 10) ∷ offline_update entry ∷ [];
    attempted = online_update (lit "g1") (pos 10) ∷ offline_update entry ∷ [];
  };
}

abbrev late_calls : List Call
late_calls = query gateway ∷ alert (lit "t1") (alert_payload ports (pos 2000000) entry) ∷ []

ticked :
    tick ports (pos 2000000) (pos 2000000) (entry ∷ []) heard_tracker
    ≡ returns (late_tracker, late_calls)
unfolding tick examine milliseconds int64 ◌*ℤ◌ ◌+ℤ◌ lookup insert bytes_eqb dispatch
    dispatch_status_update start mark_offline
ticked = refl

snapshot : IsSnapshot (entry ∷ []) heard_tracker.beats
snapshot =
    values-IsSnapshot heard_tracker.beats heard_tracker-IsWellFormed.distinct
      heard_tracker-IsWellFormed.keyed

tick-Ticked_example : Ticked ports (pos 2000000) (entry ∷ []) heard_tracker late_tracker late_calls
unfolding ◌+ℤ◌
tick-Ticked_example =
    tick-Ticked ports (pos 2000000) (pos 2000000) (entry ∷ []) heard_tracker late_tracker late_calls
      snapshot refl ticked

abbrev closed_tracker : Tracker
closed_tracker = record heard_tracker { dispatcher = close_channel heard_tracker.dispatcher }

tick-panics_iff_example :
    (tick ports (pos 2000000) (pos 2000000) (entry ∷ []) closed_tracker ≡ panics)
    ↔ (keep (falls ports (pos 2000000)) (entry ∷ []) ≢ [])
unfolding ◌+ℤ◌ close_channel
tick-panics_iff_example =
    tick-panics_iff ports (pos 2000000) (pos 2000000) (entry ∷ []) closed_tracker refl refl

late_snapshot : IsSnapshot (record entry { known_status = offline } ∷ []) late_tracker.beats
unfolding find_entry lookup
late_snapshot = record { distinct = (refl, tt); complete = λ k. refl }

ticked_again :
    tick ports
      (pos 4000000)
      (pos 4000000)
      (record entry { known_status = offline } ∷ [])
      late_tracker
    ≡ returns (late_tracker, [])
unfolding tick examine ◌+ℤ◌
ticked_again = refl

entry-falls : falls ports (pos 2000000) entry ≡ true
unfolding falls milliseconds int64 ◌*ℤ◌ ◌+ℤ◌ bytes_eqb
entry-falls = refl

alerted_once_example : All (λ a. alert_key a ≢ gateway) (alerts [])
unfolding ◌+ℤ◌ lookup bytes_eqb
alerted_once_example =
    alerted_once ports ports (pos 2000000) (pos 2000000) (pos 4000000) (pos 4000000) (entry ∷ [])
      (record entry { known_status = offline } ∷ []) heard_tracker late_tracker late_tracker
      late_calls [] gateway entry snapshot refl ticked refl entry-falls late_snapshot refl
      ticked_again
