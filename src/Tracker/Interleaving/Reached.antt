-- ===== src/Tracker/Interleaving/Reached.antt =====
-- The tracker never believes a gateway online of which it told the management API that it is offline,
-- in any order of the operations of internal/service/heartbeat_tracker.go.
use notip_data_consumer.Prelude.{ℕ, false, ◌≡◌, refl, sym, ap, subst, ◌∙◌, some, All}
use notip_data_consumer.Prelude.Bytes.{Bytes, bytes_eq}
use notip_data_consumer.Prelude.GoMap.{lookup}
use notip_data_consumer.Model.{Time, Duration, online}
use notip_data_consumer.Dispatcher.{close_channel}
use notip_data_consumer.Dispatcher.Accounting.{worker_step-IsAccounted, close_channel-IsAccounted}
use notip_data_consumer.Dispatcher.Attempts.{attempted-worker_step}
use notip_data_consumer.Tracker.{GatewayKey, key_eq, HeartbeatEntry, key_of, new_heartbeat_tracker}
use notip_data_consumer.Tracker.Invariant.{
  IsWellFormed, new_heartbeat_tracker-IsWellFormed, handle_telemetry-IsWellFormed,
}
use notip_data_consumer.Tracker.Telemetry.{handle_telemetry-Heard}
use notip_data_consumer.Tracker.Interleaving.{
  idle, scanning, alerted, World, Step, hear, decommission, begin, publish, pass, report, mark,
  finish, work, shut, Reach, here, next, initial,
}
use notip_data_consumer.Tracker.Interleaving.Truth.{
  last_status, is_pending, on_the_way, IsOwned, IsTruthful, hear-IsTruthful,
  decommission-IsTruthful, dispatcher-IsTruthful,
}
use notip_data_consumer.Tracker.Interleaving.TickTruth.{
  snapshot-IsOwned, rephased-IsTruthful, reported-IsTruthful, marked-IsTruthful, passed-IsOwned,
}

module _ (owner : Bytes → Bytes) where
  Step-IsTruthful : (w w' : World) → Step owner w w' → IsTruthful owner w → IsTruthful owner w'
  Step-IsTruthful w w' (hear now tenant_id env t own heard r) h = rw r (
      hear-IsTruthful owner w _ now t own
        (handle_telemetry-Heard now tenant_id env w.tracker t h.well_formed heard)
        (handle_telemetry-IsWellFormed now tenant_id env w.tracker t heard h.well_formed) h)
  Step-IsTruthful w w' (decommission tenant_id gateway_id r) h =
      rw r (decommission-IsTruthful owner w tenant_id gateway_id h)
  Step-IsTruthful w w' (begin now now' es at late snap r) h = rw r (
      rephased-IsTruthful owner w (scanning now' es) (λ k. ap (λ p. is_pending p k) at)
        (snapshot-IsOwned owner es snap.distinct
          (λ k e found. h.owned k e (sym (snap.complete k) ∙ found)))
        h)
  Step-IsTruthful w w' (publish ports now e es at gone r) h = rw r (
      rephased-IsTruthful owner w (alerted now e es) (λ k. ap (λ p. is_pending p k) at)
        (subst (λ p. All (λ x. IsOwned owner (key_of x)) (on_the_way p)) at h.owned_snapshot) h)
  Step-IsTruthful w w' (pass ports now e es at stays r) h = rw r (
      rephased-IsTruthful owner w (scanning now es) (λ k. ap (λ p. is_pending p k) at)
        (passed-IsOwned owner e es
          (subst (λ p. All (λ x. IsOwned owner (key_of x)) (on_the_way p)) at h.owned_snapshot))
        h)
  Step-IsTruthful w w' (report now e es t at sent r) h =
      rw r (reported-IsTruthful owner w now e es t at sent h)
  Step-IsTruthful w w' (mark now e es at r) h = rw r (marked-IsTruthful owner w now e es at h)
  Step-IsTruthful w w' (finish now at r) h =
      rw r (rephased-IsTruthful owner w idle (λ k. ap (λ p. is_pending p k) at) tt h)
  Step-IsTruthful w w' (work r) h = rw r (
      dispatcher-IsTruthful owner w _ (worker_step-IsAccounted _ h.well_formed.accounted)
        (attempted-worker_step w.tracker.dispatcher) h)
  Step-IsTruthful w w' (shut r) h = rw r (
      dispatcher-IsTruthful owner w _ (close_channel-IsAccounted _ h.well_formed.accounted)
        (unfold close_channel in refl) h)

  initial-IsTruthful :
      (now : Time) (grace : Duration) (n : ℕ) → IsTruthful owner (initial now grace n)
  unfolding new_heartbeat_tracker lookup
  initial-IsTruthful now grace n = record {
    well_formed = new_heartbeat_tracker-IsWellFormed now grace n;
    owned = λ k e found. cc;
    owned_snapshot = tt;
    truthful = λ k e found on quiet. cc;
  }

  Reach-IsTruthful : (w w' : World) → IsTruthful owner w → Reach owner w w' → IsTruthful owner w'
  Reach-IsTruthful w w' h here = h
  Reach-IsTruthful w w' h (next {u} r st) = Step-IsTruthful u w' st (Reach-IsTruthful w u h r)

-- If every gateway's identifier belongs to one tenant, then in whatever order heartbeats,
-- decommissions, the steps of `Tick`, those of the worker and `Close` follow one another: a gateway
-- that the tracker takes to be online is one of which the last update handed to the dispatcher says
-- that it is online, but while a `Tick` stands between the report and the marking of that gateway.
pub online_was_reported :
    (owner : Bytes → Bytes) (now : Time) (grace : Duration) (n : ℕ) (w : World) (k : GatewayKey)
    (e : HeartbeatEntry)
    → Reach owner (initial now grace n) w
    → lookup k w.tracker.beats ≡ some e
    → e.known_status ≡ online
    → is_pending w.phase k ≡ false
    → last_status k.gateway_id w.tracker.dispatcher.attempted ≡ some online
online_was_reported owner now grace n w k e r =
    (Reach-IsTruthful owner (initial now grace n) w (initial-IsTruthful owner now grace n)
        r).truthful
      k e

-- In the same conditions the tracker stays well formed: no key stands twice in the map and each
-- entry names its key, the gauge of the map's size is right, and the accounts of the dispatcher hold.
pub reached-IsWellFormed :
    (owner : Bytes → Bytes) (now : Time) (grace : Duration) (n : ℕ) (w : World)
    → Reach owner (initial now grace n) w
    → IsWellFormed w.tracker
reached-IsWellFormed owner now grace n w r =
    (Reach-IsTruthful owner (initial now grace n) w (initial-IsTruthful owner now grace n)
      r).well_formed
