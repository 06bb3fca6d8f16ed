-- ===== src/Tracker.antt =====
-- internal/service/heartbeat_tracker.go: the state and the operations of `HeartbeatTracker`. The
-- readings of the clock are arguments; the other ports are functions, fixed for one call of `Tick`.
-- A method's critical section is one step: the lock is not a part of the state.
pub mod Invariant
pub mod Telemetry
pub mod Snapshot
pub mod Body
pub mod Tick
pub mod AnyOrder
pub mod Repeat
pub mod Shutdown
pub mod Interleaving
use notip_data_consumer.Prelude.{
  ℕ, Bool, true, false, ◌&&◌, ◌↔◌, ◌≡◌, Option, none, some, List, [], ◌∷◌, ◌++◌, length,
  if◌then◌else◌, Comparable, ◌==◌, arith,
}
use notip_data_consumer.Prelude.Bytes.{Bytes, bytes_eq, bytes_eqb, bytes_eqb_iff}
use notip_data_consumer.Prelude.GoMap.{GoMap, lookup, insert, delete}
use notip_data_consumer.Prelude.Int.{ℤ}
use notip_data_consumer.Prelude.Outcome.{Outcome, returns, panics, Result, ok, err, ◌>>=◌}
use notip_data_consumer.Model.{
  Time, Duration, before, add_duration, milliseconds, TelemetryEnvelope, AlertPayload,
  GatewayStatus, offline, online, GatewayStatusUpdate, GatewayLifecycleState, lifecycle_paused,
}
use notip_data_consumer.Dispatcher.{Dispatcher, start, dispatch_status_update}

pub record GatewayKey : Type 0 where
  pub tenant_id : Bytes
  pub gateway_id : Bytes

abbrev pub key_eqb : GatewayKey → GatewayKey → Bool
key_eqb a b = bytes_eqb a.tenant_id b.tenant_id && bytes_eqb a.gateway_id b.gateway_id

pub key_eqb_iff : (a b : GatewayKey) → (key_eqb a b ≡ true) ↔ (a ≡ b)
key_eqb_iff a b =
    ground (arith, bytes_eqb_iff a.tenant_id b.tenant_id, bytes_eqb_iff a.gateway_id b.gateway_id)

-- The equality of Go's struct keys.
instance abbrev pub key_eq : Comparable GatewayKey
key_eq = record { same = key_eqb; same_iff = key_eqb_iff }

pub record HeartbeatEntry : Type 0 where
  pub tenant_id : Bytes
  pub gateway_id : Bytes
  pub last_seen : Time
  pub known_status : GatewayStatus

pub record Tracker : Type 0 where
  pub start_time : Time
  pub grace_period : Duration
  pub beats : GoMap GatewayKey HeartbeatEntry
  pub dispatcher : Dispatcher
  -- the gauge `HeartbeatMapSize`
  pub map_size : ℕ

-- The ports that `Tick` calls. `publish` returns the error, if there is one.
pub record Ports : Type 0 where
  pub timeout_for : Bytes → Bytes → ℤ
  pub lifecycle : Bytes → Bytes → Result Bytes GatewayLifecycleState
  pub publish : Bytes → AlertPayload → Option Bytes

-- `NewHeartbeatTracker`, from a reading of the clock, `GracePeriod` and `StatusUpdateBufSize`
unfoldable pub new_heartbeat_tracker : Time → Duration → ℕ → Tracker
new_heartbeat_tracker now grace_period buf_size = record {
  start_time = now;
  grace_period = grace_period;
  beats = [];
  dispatcher = start buf_size;
  map_size = 0;
}

abbrev pub key_of : HeartbeatEntry → GatewayKey
key_of e = record { tenant_id = e.tenant_id; gateway_id = e.gateway_id }

abbrev pub is_offline : GatewayStatus → Bool
is_offline offline = true
is_offline online = false

-- `t.dispatchStatusUpdate(update)`
unfoldable pub dispatch : GatewayStatusUpdate → Tracker → Outcome Tracker
dispatch update t = do
  d ← dispatch_status_update update t.dispatcher
  returns (record t { dispatcher = d })

abbrev pub online_update : Bytes → Time → GatewayStatusUpdate
online_update gateway_id now = record {
  gateway_id = gateway_id;
  status = online;
  last_seen_at = now;
}

abbrev pub offline_update : HeartbeatEntry → GatewayStatusUpdate
offline_update e = record {
  gateway_id = e.gateway_id;
  status = offline;
  last_seen_at = e.last_seen;
}

-- An entry as a heartbeat at `now` leaves it.
abbrev pub fresh_entry : GatewayKey → Time → HeartbeatEntry
fresh_entry key now = record {
  tenant_id = key.tenant_id;
  gateway_id = key.gateway_id;
  last_seen = now;
  known_status = online;
}

-- The branch of `HandleTelemetry` for a gateway that is not in the map.
register : GatewayKey → Time → Tracker → Outcome Tracker
unfolding dispatch
register key now t =
    let beats = insert key (fresh_entry key now) t.beats in
    dispatch (online_update key.gateway_id now)
      (record t { beats = beats; map_size = length beats })

-- The rest of it, for a gateway with an entry.
refresh : GatewayKey → Time → HeartbeatEntry → Tracker → Outcome Tracker
unfolding dispatch
refresh key now entry t =
    if is_offline entry.known_status
    then dispatch (online_update key.gateway_id now) (record t {
      beats = insert key (record entry { last_seen = now; known_status = online }) t.beats;
    })
    else returns (record t { beats = insert key (record entry { last_seen = now }) t.beats })

handle_found : Option HeartbeatEntry → GatewayKey → Time → Tracker → Outcome Tracker
unfolding register refresh
handle_found none key now t = register key now t
handle_found (some entry) key now t = refresh key now entry t

-- `HandleTelemetry`, at the reading `now` of the clock; the error that it returns is always nil.
unfoldable pub handle_telemetry : Time → Bytes → TelemetryEnvelope → Tracker → Outcome Tracker
unfolding handle_found
handle_telemetry now tenant_id env t =
    let key : GatewayKey = record { tenant_id = tenant_id; gateway_id = env.gateway_id } in
    handle_found (lookup key t.beats) key now t

-- `HandleDecommission`
unfoldable pub handle_decommission : Bytes → Bytes → Tracker → Tracker
handle_decommission tenant_id gateway_id t =
    let key : GatewayKey = record { tenant_id = tenant_id; gateway_id = gateway_id } in
    let beats = delete key t.beats in record t { beats = beats; map_size = length beats }

-- What `Tick` finds about one entry of its snapshot.
pub data Verdict : Type 0 where
  already_offline alive paused publish_failed went_offline : Verdict

-- The calls of a `Tick` to the lifecycle provider and to the alert publisher.
pub data Call : Type 0 where
  query : GatewayKey → Call
  alert : Bytes → AlertPayload → Call

abbrev pub alert_payload : Ports → Time → HeartbeatEntry → AlertPayload
alert_payload ports now e = record {
  gateway_id = e.gateway_id;
  last_seen = e.last_seen;
  timeout_ms = ports.timeout_for e.tenant_id e.gateway_id;
  timestamp = now;
}

abbrev pub deadline : Ports → HeartbeatEntry → Time
deadline ports e =
    add_duration e.last_seen (milliseconds (ports.timeout_for e.tenant_id e.gateway_id))

publish_verdict : Option Bytes → Verdict
publish_verdict none = went_offline
publish_verdict (some _) = publish_failed

publish_alert : Ports → Time → HeartbeatEntry → Verdict × List Call
unfolding publish_verdict
publish_alert ports now e =
    let payload = alert_payload ports now e in
    (
      publish_verdict (ports.publish e.tenant_id payload),
      query (key_of e) ∷ alert e.tenant_id payload ∷ [],
    )

-- The lifecycle gate: open on an error, shut on `paused` alone.
lifecycle_gate :
    Result Bytes GatewayLifecycleState → Ports → Time → HeartbeatEntry → Verdict × List Call
unfolding publish_alert
lifecycle_gate (err _) ports now e = publish_alert ports now e
lifecycle_gate (ok state) ports now e =
    if state == lifecycle_paused then (paused, query (key_of e) ∷ []) else publish_alert ports now e

-- The body of the loop of `Tick`, up to the publication.
unfoldable pub examine : Ports → Time → HeartbeatEntry → Verdict × List Call
unfolding lifecycle_gate
examine ports now e =
    if is_offline e.known_status
    then (already_offline, [])
    else if before now (deadline ports e)
    then (alive, [])
    else lifecycle_gate (ports.lifecycle e.tenant_id e.gateway_id) ports now e

mark_found : Option HeartbeatEntry → GatewayKey → Tracker → Tracker
mark_found none key t = t
mark_found (some real) key t = record t {
  beats = insert key (record real { known_status = offline }) t.beats;
}

-- Phase 3 of `Tick`: the entry, if it is still there, is marked offline.
unfoldable pub mark_offline : GatewayKey → Tracker → Tracker
unfolding mark_found
mark_offline key t = mark_found (lookup key t.beats) key t

-- The rest of the body of the loop.
pub act : Verdict → HeartbeatEntry → Tracker → Outcome Tracker
act went_offline e t = do t' ← dispatch (offline_update e) t; returns (mark_offline (key_of e) t')
act _ e t = returns t

pub tick_loop : Ports → Time → List HeartbeatEntry → Tracker → Outcome (Tracker × List Call)
unfolding act
tick_loop ports now [] t = returns (t, [])
tick_loop ports now (e ∷ rest) t =
    let (verdict, calls) = examine ports now e in
    do
      t' ← act verdict e t
      (t'', later) ← tick_loop ports now rest t'
      returns (t'', calls ++ later)

-- `Tick`, when nothing else runs: the clock reads `now` for the test of the grace period and `now'`
-- for the rest, and `snapshot` holds the entries in the order in which the map yields them.
unfoldable pub tick :
    Ports → Time → Time → List HeartbeatEntry → Tracker → Outcome (Tracker × List Call)
unfolding tick_loop
tick ports now now' snapshot t =
    if before now (add_duration t.start_time t.grace_period)
    then returns (t, [])
    else tick_loop ports now' snapshot t
