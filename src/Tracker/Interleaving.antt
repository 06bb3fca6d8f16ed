-- ===== src/Tracker/Interleaving.antt =====
-- A `Tick` among heartbeats, decommissions and the worker: its I/O runs outside the lock, so other
-- critical sections may come between the steps of its loop.
pub mod Truth
pub mod TickTruth
pub mod Reached
use notip_data_consumer.Prelude.{ℕ, false, ◌≡◌, ◌≢◌, Option, List, [], ◌∷◌}
use notip_data_consumer.Prelude.Bytes.{Bytes}
use notip_data_consumer.Prelude.Outcome.{returns}
use notip_data_consumer.Model.{Time, Duration, TelemetryEnvelope, add_duration, before}
use notip_data_consumer.Dispatcher.{worker_step, close_channel}
use notip_data_consumer.Tracker.{
  HeartbeatEntry, Tracker, Ports, key_of, offline_update, went_offline, examine, dispatch,
  mark_offline, new_heartbeat_tracker, handle_telemetry, handle_decommission,
}
use notip_data_consumer.Tracker.Snapshot.{IsSnapshot}

-- Where the goroutine of the timer stands: outside of `Tick`; before an entry of the snapshot;
-- after the publication of an alert, before `dispatchStatusUpdate`; after that, before phase 3.
pub data Phase : Type 0 where
  idle : Phase
  scanning : Time → List HeartbeatEntry → Phase
  alerted reported : Time → HeartbeatEntry → List HeartbeatEntry → Phase

pub record World : Type 0 where
  pub tracker : Tracker
  pub phase : Phase

abbrev pub with_tracker : World → Tracker → World
with_tracker w t = record w { tracker = t }

-- `owner g` is the tenant of the gateway `g`: the messages to the management API name a gateway
-- with no tenant, so a gateway's identifier has to be one tenant's.
pub data Step (owner : Bytes → Bytes) (w : World) (w' : World) : Type 0 where
  hear :
      (now : Time) (tenant_id : Bytes) (env : TelemetryEnvelope) (t : Tracker)
      → owner env.gateway_id ≡ tenant_id
      → handle_telemetry now tenant_id env w.tracker ≡ returns t
      → w' ≡ with_tracker w t
      → Step owner w w'
  decommission :
      (tenant_id gateway_id : Bytes)
      → w' ≡ with_tracker w (handle_decommission tenant_id gateway_id w.tracker)
      → Step owner w w'
  begin :
      (now now' : Time) (es : List HeartbeatEntry)
      → w.phase ≡ idle
      → before now (add_duration w.tracker.start_time w.tracker.grace_period) ≡ false
      → IsSnapshot es w.tracker.beats
      → w' ≡ record w { phase = scanning now' es }
      → Step owner w w'
  publish :
      (ports : Ports) (now : Time) (e : HeartbeatEntry) (es : List HeartbeatEntry)
      → w.phase ≡ scanning now (e ∷ es)
      → (examine ports now e).0 ≡ went_offline
      → w' ≡ record w { phase = alerted now e es }
      → Step owner w w'
  pass :
      (ports : Ports) (now : Time) (e : HeartbeatEntry) (es : List HeartbeatEntry)
      → w.phase ≡ scanning now (e ∷ es)
      → (examine ports now e).0 ≢ went_offline
      → w' ≡ record w { phase = scanning now es }
      → Step owner w w'
  report :
      (now : Time) (e : HeartbeatEntry) (es : List HeartbeatEntry) (t : Tracker)
      → w.phase ≡ alerted now e es
      → dispatch (offline_update e) w.tracker ≡ returns t
      → w' ≡ record w { tracker = t; phase = reported now e es }
      → Step owner w w'
  mark :
      (now : Time) (e : HeartbeatEntry) (es : List HeartbeatEntry)
      → w.phase ≡ reported now e es
      → w' ≡ record w { tracker = mark_offline (key_of e) w.tracker; phase = scanning now es }
      → Step owner w w'
  finish :
      (now : Time) → w.phase ≡ scanning now [] → w' ≡ record w { phase = idle } → Step owner w w'
  work :
      w' ≡ with_tracker w (record (w.tracker) { dispatcher = worker_step w.tracker.dispatcher })
      → Step owner w w'
  shut :
      w' ≡ with_tracker w (record (w.tracker) { dispatcher = close_channel w.tracker.dispatcher })
      → Step owner w w'

pub data Reach (owner : Bytes → Bytes) (w : World) : World → Type 0 where
  here : Reach owner w w
  next : {u v : World} → Reach owner w u → Step owner u v → Reach owner w v

abbrev pub initial : Time → Duration → ℕ → World
initial now grace n = record { tracker = new_heartbeat_tracker now grace n; phase = idle }
