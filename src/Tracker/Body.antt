-- ===== src/Tracker/Body.antt =====
-- What the body of the loop of `Tick` does for one entry of the snapshot.
use notip_data_consumer.Prelude.{
  Bool, true, false, not, ◌&&◌, ◌≡◌, refl, ap, subst, Option, none, some, List, [], ◌∷◌, ◌++◌,
  if◌then◌else◌, ◌==◌, arith,
}
use notip_data_consumer.Prelude.Bytes.{Bytes, bytes_eq, bytes_eqb_iff}
use notip_data_consumer.Prelude.GoMap.{lookup, lookup-insert}
use notip_data_consumer.Prelude.Int.{pos, ◌+ℤ◌, ◌*ℤ◌, int64, ltb_ℤ}
use notip_data_consumer.Prelude.Outcome.{returns, Result, ok, err, >>=-returns}
use notip_data_consumer.Model.{
  Time, AlertPayload, offline, GatewayLifecycleState, lifecycle_paused, milliseconds,
}
use notip_data_consumer.Dispatcher.Attempts.{attempted-dispatch}
use notip_data_consumer.Tracker.{
  GatewayKey, key_eq, key_eqb_iff, HeartbeatEntry, Tracker, Ports, key_of, is_offline,
  offline_update, Verdict, already_offline, alive, paused, publish_failed, went_offline, Call,
  query, alert, examine, dispatch, act, mark_found, mark_offline,
}
use notip_data_consumer.Tracker.Invariant.{dispatch_returns}

abbrev pub is_paused : Result Bytes GatewayLifecycleState → Bool
is_paused (ok state) = state == lifecycle_paused
is_paused (err _) = false

abbrev pub is_delivered : Option Bytes → Bool
is_delivered none = true
is_delivered (some _) = false

-- When the gateway's timeout, so many milliseconds as nanoseconds of an `int64`, has run since its last
-- message.
abbrev pub expiry : Ports → HeartbeatEntry → Time
expiry ports e = e.last_seen +ℤ int64 (ports.timeout_for e.tenant_id e.gateway_id *ℤ pos 1000000)

-- What the alert about a gateway must say.
abbrev pub offline_alert : Ports → Time → HeartbeatEntry → AlertPayload
offline_alert ports now e = record {
  gateway_id = e.gateway_id;
  last_seen = e.last_seen;
  timeout_ms = ports.timeout_for e.tenant_id e.gateway_id;
  timestamp = now;
}

-- The rule of the service: an alert is due for a gateway that is not known to be offline, whose
-- timeout has run, and of which the management API does not say that it is paused.
unfoldable pub is_due : Ports → Time → HeartbeatEntry → Bool
is_due ports now e =
    not (is_offline e.known_status)
    && (not (ltb_ℤ now (expiry ports e))
        && not (is_paused (ports.lifecycle e.tenant_id e.gateway_id)))

-- It falls offline if moreover the alert could be published.
unfoldable pub falls : Ports → Time → HeartbeatEntry → Bool
unfolding is_due
falls ports now e =
    is_due ports now e && is_delivered (ports.publish e.tenant_id (offline_alert ports now e))

abbrev pub settle : Ports → Time → HeartbeatEntry → HeartbeatEntry
settle ports now e = if falls ports now e then record e { known_status = offline } else e

-- The alerts among the calls.
abbrev pub alerts : List Call → List (Bytes × AlertPayload)
alerts [] = []
alerts (query _ ∷ calls) = alerts calls
alerts (alert tenant payload ∷ calls) = (tenant, payload) ∷ alerts calls

abbrev pub alert_of : Ports → Time → HeartbeatEntry → Bytes × AlertPayload
alert_of ports now e = (e.tenant_id, offline_alert ports now e)

abbrev pub is_went_offline : Verdict → Bool
is_went_offline went_offline = true
is_went_offline _ = false

pub falls-examine :
    (ports : Ports) (now : Time) (e : HeartbeatEntry)
    → is_went_offline (examine ports now e).0 ≡ falls ports now e
unfolding examine falls milliseconds
falls-examine ports now e = ground arith

pub alerts-examine :
    (ports : Ports) (now : Time) (e : HeartbeatEntry)
    → alerts (examine ports now e).1
      ≡ (if is_due ports now e then alert_of ports now e ∷ [] else [])
unfolding examine is_due milliseconds
alerts-examine ports now e = ground arith

abbrev pub set_offline : Option HeartbeatEntry → Option HeartbeatEntry
set_offline none = none
set_offline (some e) = some (record e { known_status = offline })

lookup-mark_found :
    (o : Option HeartbeatEntry) (k j : GatewayKey) (t : Tracker)
    → lookup k t.beats ≡ o
    → lookup j (mark_found o k t).beats
      ≡ (if k == j then set_offline (lookup j t.beats) else lookup j t.beats)
unfolding mark_found
lookup-mark_found none k j t found = ground (arith, key_eqb_iff k j)
lookup-mark_found (some e) k j t found =
    ground (arith, key_eqb_iff k j, lookup-insert k j (record e { known_status = offline }) t.beats)

pub lookup-mark_offline :
    (k j : GatewayKey) (t : Tracker)
    → lookup j (mark_offline k t).beats
      ≡ (if k == j then set_offline (lookup j t.beats) else lookup j t.beats)
unfolding mark_offline
lookup-mark_offline k j t = lookup-mark_found _ k j t refl

pub dispatcher-mark_offline :
    (k : GatewayKey) (t : Tracker) → (mark_offline k t).dispatcher ≡ t.dispatcher
unfolding mark_offline mark_found
dispatcher-mark_offline k t = ground arith

-- What the loop's body does after the verdict.
pub record Acted (b : Bool) (e : HeartbeatEntry) (t t' : Tracker) : Type 0 where
  pub entries :
      (k : GatewayKey)
      → lookup k t'.beats
        ≡ (if b && key_of e == k then set_offline (lookup k t.beats) else lookup k t.beats)
  pub reported :
      t'.dispatcher.attempted
      ≡ (if b then t.dispatcher.attempted ++ offline_update e ∷ [] else t.dispatcher.attempted)

still-Acted : (e : HeartbeatEntry) (t : Tracker) → Acted false e t t
still-Acted e t = record { entries = λ k. refl; reported = refl }

marked-Acted :
    (e : HeartbeatEntry) (t s : Tracker)
    → dispatch (offline_update e) t ≡ returns s
    → Acted true e t (mark_offline (key_of e) s)
marked-Acted e t s sent =
    let (d, there, same) = dispatch_returns (offline_update e) t s sent in
    record {
      entries = λ k. rw same (lookup-mark_offline (key_of e) k (record t { dispatcher = d }));
      reported =
          rw (same, dispatcher-mark_offline (key_of e) (record t { dispatcher = d }))
            (attempted-dispatch (offline_update e) t.dispatcher d there);
    }

pub act-Acted :
    (v : Verdict) (e : HeartbeatEntry) (t t' : Tracker)
    → act v e t ≡ returns t'
    → Acted (is_went_offline v) e t t'
unfolding act
act-Acted went_offline e t t' h =
    let (s, sent, rest) = >>=-returns (dispatch (offline_update e) t) _ h in
    let same : mark_offline (key_of e) s ≡ t' = ground arith in
    subst (Acted true e t) same (marked-Acted e t s sent)
act-Acted already_offline e t t' h = subst (Acted false e t) (ground arith) (still-Acted e t)
act-Acted alive e t t' h = subst (Acted false e t) (ground arith) (still-Acted e t)
act-Acted paused e t t' h = subst (Acted false e t) (ground arith) (still-Acted e t)
act-Acted publish_failed e t t' h = subst (Acted false e t) (ground arith) (still-Acted e t)

paused-examine :
    (ports : Ports) (now : Time) (e : HeartbeatEntry)
    → (examine ports now e).0 ≡ paused
    → is_paused (ports.lifecycle e.tenant_id e.gateway_id) ≡ true
unfolding examine
paused-examine ports now e h = ground arith

state_paused :
    (r : Result Bytes GatewayLifecycleState) → is_paused r ≡ true → r ≡ ok lifecycle_paused
state_paused (ok state) h = ap ok ((bytes_eqb_iff state lifecycle_paused).0 h)
state_paused (err e) h = cc

-- A gateway is passed over as paused only on the word of the lifecycle provider.
pub paused_by_port :
    (ports : Ports) (now : Time) (e : HeartbeatEntry)
    → (examine ports now e).0 ≡ paused
    → ports.lifecycle e.tenant_id e.gateway_id ≡ ok lifecycle_paused
paused_by_port ports now e h = state_paused _ (paused-examine ports now e h)
