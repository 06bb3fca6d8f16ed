-- ===== src/Tracker/Invariant.antt =====
-- What holds of a tracker between two critical sections.
use notip_data_consumer.Prelude.{
  ℕ, ◌≡◌, refl, ◌∙◌, subst, inl, inr, Option, none, some, length, arith, Bool-cases,
}
use notip_data_consumer.Prelude.Bytes.{Bytes}
use notip_data_consumer.Prelude.GoMap.{
  GoMap, lookup, insert, delete, lookup-insert, lookup-delete, HasDistinctKeys,
  insert-HasDistinctKeys, delete-HasDistinctKeys, length-insert,
}
use notip_data_consumer.Prelude.Outcome.{Outcome, returns, panics}
use notip_data_consumer.Model.{Time, Duration, TelemetryEnvelope, online, GatewayStatusUpdate}
use notip_data_consumer.Dispatcher.{Dispatcher, dispatch_status_update}
use notip_data_consumer.Dispatcher.Accounting.{
  IsAccounted, start-IsAccounted, dispatch_status_update-IsAccounted,
}
use notip_data_consumer.Tracker.{
  GatewayKey, key_eq, key_eqb_iff, HeartbeatEntry, Tracker, new_heartbeat_tracker, key_of,
  is_offline, fresh_entry, dispatch, register, refresh, handle_found, handle_telemetry,
  handle_decommission, mark_found, mark_offline,
}

-- The entry at a key names that key.
pub record IsKeyed (beats : GoMap GatewayKey HeartbeatEntry) : Type 0 where
  pub at_key : (k : GatewayKey) (e : HeartbeatEntry) → lookup k beats ≡ some e → key_of e ≡ k

pub record IsWellFormed (t : Tracker) : Type 0 where
  pub distinct : HasDistinctKeys t.beats
  pub keyed : IsKeyed t.beats
  pub gauged : t.map_size ≡ length t.beats
  pub accounted : IsAccounted t.dispatcher

pub new_heartbeat_tracker-IsWellFormed :
    (now : Time) (grace : Duration) (n : ℕ) → IsWellFormed (new_heartbeat_tracker now grace n)
unfolding new_heartbeat_tracker lookup
new_heartbeat_tracker-IsWellFormed now grace n = record {
  distinct = tt;
  keyed = record { at_key = λ k e h. cc };
  gauged = refl;
  accounted = start-IsAccounted n;
}

insert-IsKeyed :
    (k : GatewayKey) (e : HeartbeatEntry) (beats : GoMap GatewayKey HeartbeatEntry)
    → key_of e ≡ k
    → IsKeyed beats
    → IsKeyed (insert k e beats)
insert-IsKeyed k e beats own h = record {
  at_key = λ j f found. ground (arith, lookup-insert k j e beats, key_eqb_iff k j, h.at_key j f);
}

delete-IsKeyed :
    (k : GatewayKey) (beats : GoMap GatewayKey HeartbeatEntry)
    → IsKeyed beats
    → IsKeyed (delete k beats)
delete-IsKeyed k beats h = record {
  at_key = λ j f found. ground (arith, lookup-delete k j beats, h.at_key j f);
}

-- A dispatch that returns changes the dispatcher alone.
pub dispatch_returns :
    (u : GatewayStatusUpdate) (t t' : Tracker)
    → dispatch u t ≡ returns t'
    → (d : Dispatcher) × (dispatch_status_update u t.dispatcher ≡ returns d)
      × (t' ≡ record t { dispatcher = d })
unfolding dispatch
dispatch_returns u t t' h = go (dispatch_status_update u t.dispatcher) refl
  where
    go :
        (o : Outcome Dispatcher)
        → dispatch_status_update u t.dispatcher ≡ o
        → (d : Dispatcher) × (dispatch_status_update u t.dispatcher ≡ returns d)
          × (t' ≡ record t { dispatcher = d })
    go (returns d) e = (d, e, ground arith)
    go panics e = absurd (ground arith)

redispatched-IsWellFormed :
    (t : Tracker) (d : Dispatcher)
    → IsAccounted d
    → IsWellFormed t
    → IsWellFormed (record t { dispatcher = d })
redispatched-IsWellFormed t d a h = record {
  distinct = h.distinct;
  keyed = h.keyed;
  gauged = h.gauged;
  accounted = a;
}

pub dispatch-IsWellFormed :
    (u : GatewayStatusUpdate) (t t' : Tracker)
    → dispatch u t ≡ returns t'
    → IsWellFormed t
    → IsWellFormed t'
dispatch-IsWellFormed u t t' e h =
    let (d, sent, same) = dispatch_returns u t t' e in
    rw same (
      redispatched-IsWellFormed t d
        (dispatch_status_update-IsAccounted u t.dispatcher d sent h.accounted) h)

registered-IsWellFormed :
    (k : GatewayKey) (e : HeartbeatEntry) (t : Tracker)
    → key_of e ≡ k
    → IsWellFormed t
    → IsWellFormed (record t { beats = insert k e t.beats; map_size = length (insert k e t.beats) })
registered-IsWellFormed k e t own h = record {
  distinct = insert-HasDistinctKeys k e t.beats h.distinct;
  keyed = insert-IsKeyed k e t.beats own h.keyed;
  gauged = refl;
  accounted = h.accounted;
}

-- A new value at a key of the map leaves the size as it is.
pub updated-IsWellFormed :
    (k : GatewayKey) (e old : HeartbeatEntry) (t : Tracker)
    → lookup k t.beats ≡ some old
    → key_of e ≡ key_of old
    → IsWellFormed t
    → IsWellFormed (record t { beats = insert k e t.beats })
updated-IsWellFormed k e old t found own h = record {
  distinct = insert-HasDistinctKeys k e t.beats h.distinct;
  keyed = insert-IsKeyed k e t.beats (own ∙ h.keyed.at_key k old found) h.keyed;
  gauged = ground (arith, h.gauged, length-insert k e t.beats);
  accounted = h.accounted;
}

handle_found-IsWellFormed :
    (o : Option HeartbeatEntry) (k : GatewayKey) (now : Time) (t t' : Tracker)
    → lookup k t.beats ≡ o
    → handle_found o k now t ≡ returns t'
    → IsWellFormed t
    → IsWellFormed t'
unfolding handle_found register refresh
handle_found-IsWellFormed none k now t t' found e h =
    dispatch-IsWellFormed _ _ t' e (registered-IsWellFormed k (fresh_entry k now) t refl h)
handle_found-IsWellFormed (some old) k now t t' found e h =
    elim (Bool-cases (is_offline old.known_status)) [
      | inl off ↦ dispatch-IsWellFormed _ _ t' (rw off at e) (
          updated-IsWellFormed k (record old { last_seen = now; known_status = online }) old t found
            refl h)
      | inr on ↦
          let same : record t { beats = insert k (record old { last_seen = now }) t.beats } ≡ t' =
            ground arith in
          subst IsWellFormed same (updated-IsWellFormed k _ old t found refl h)
    ]

-- `HandleTelemetry` keeps a tracker well formed.
pub handle_telemetry-IsWellFormed :
    (now : Time) (tenant_id : Bytes) (env : TelemetryEnvelope) (t t' : Tracker)
    → handle_telemetry now tenant_id env t ≡ returns t'
    → IsWellFormed t
    → IsWellFormed t'
unfolding handle_telemetry
handle_telemetry-IsWellFormed now tenant_id env t t' e h =
    handle_found-IsWellFormed _ _ now t t' refl e h

-- So does `HandleDecommission`.
pub handle_decommission-IsWellFormed :
    (tenant_id gateway_id : Bytes) (t : Tracker)
    → IsWellFormed t
    → IsWellFormed (handle_decommission tenant_id gateway_id t)
unfolding handle_decommission
handle_decommission-IsWellFormed tenant_id gateway_id t h = record {
  distinct = delete-HasDistinctKeys _ t.beats h.distinct;
  keyed = delete-IsKeyed _ t.beats h.keyed;
  gauged = refl;
  accounted = h.accounted;
}

mark_found-IsWellFormed :
    (o : Option HeartbeatEntry) (k : GatewayKey) (t : Tracker)
    → lookup k t.beats ≡ o
    → IsWellFormed t
    → IsWellFormed (mark_found o k t)
unfolding mark_found
mark_found-IsWellFormed none k t found h = h
mark_found-IsWellFormed (some old) k t found h = updated-IsWellFormed k _ old t found refl h

pub mark_offline-IsWellFormed :
    (k : GatewayKey) (t : Tracker) → IsWellFormed t → IsWellFormed (mark_offline k t)
unfolding mark_offline
mark_offline-IsWellFormed k t h = mark_found-IsWellFormed _ k t refl h
