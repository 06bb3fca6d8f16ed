-- ===== src/Tracker/Telemetry.antt =====
-- What `HandleTelemetry` does to the map and what it hands to the dispatcher.
use notip_data_consumer.Prelude.{
  Bool, true, false, ◌≡◌, ◌↔◌, ◌⊎◌, refl, ap, subst, ◌∙◌, inl, inr, Option, none, some, [], ◌∷◌,
  ◌++◌, if◌then◌else◌, ◌==◌, arith, Bool-cases,
}
use notip_data_consumer.Prelude.Bytes.{Bytes}
use notip_data_consumer.Prelude.GoMap.{lookup, insert, lookup-insert}
use notip_data_consumer.Prelude.Outcome.{returns, panics}
use notip_data_consumer.Model.{Time, TelemetryEnvelope, GatewayStatusUpdate, online}
use notip_data_consumer.Dispatcher.{Dispatcher}
use notip_data_consumer.Dispatcher.Attempts.{attempted-dispatch, dispatch-closed, dispatch-opened}
use notip_data_consumer.Tracker.{
  GatewayKey, key_eq, HeartbeatEntry, Tracker, key_of, is_offline, online_update, fresh_entry,
  dispatch, register, refresh, handle_found, handle_telemetry,
}
use notip_data_consumer.Tracker.Invariant.{IsWellFormed, dispatch_returns}

-- A heartbeat is news of a gateway that has no entry, or is known to be offline.
abbrev pub is_news : Option HeartbeatEntry → Bool
is_news none = true
is_news (some e) = is_offline e.known_status

-- What a heartbeat of the gateway `k` at `now` makes of the tracker `t`.
pub record Heard (k : GatewayKey) (now : Time) (t : Tracker) (t' : Tracker) : Type 0 where
  pub entries :
      (j : GatewayKey)
      → lookup j t'.beats ≡ (if k == j then some (fresh_entry k now) else lookup j t.beats)
  pub announced : t'.dispatcher.attempted ≡ (
      if is_news (lookup k t.beats)
      then t.dispatcher.attempted ++ online_update k.gateway_id now ∷ []
      else t.dispatcher.attempted)

announcing-Heard :
    (k : GatewayKey) (e : HeartbeatEntry) (now : Time) (t s t' : Tracker)
    → is_news (lookup k t.beats) ≡ true
    → e ≡ fresh_entry k now
    → s.beats ≡ insert k e t.beats
    → s.dispatcher ≡ t.dispatcher
    → dispatch (online_update k.gateway_id now) s ≡ returns t'
    → Heard k now t t'
announcing-Heard k e now t s t' news own stored idle sent =
    let (d, there, same) = dispatch_returns (online_update k.gateway_id now) s t' sent in
    record {
      entries = λ j. rw (same, stored, own) (lookup-insert k j (fresh_entry k now) t.beats);
      announced =
          rw (same, news)
            (attempted-dispatch (online_update k.gateway_id now) s.dispatcher d there
              ∙ ap (λ (x : Dispatcher). x.attempted ++ online_update k.gateway_id now ∷ []) idle);
    }

-- An entry under its own key, with a new time and the status online, is a fresh one.
refreshed_entry :
    (k : GatewayKey) (now : Time) (old : HeartbeatEntry)
    → key_of old ≡ k
    → record old { last_seen = now; known_status = online } ≡ fresh_entry k now
refreshed_entry k now old own = ground arith

known_online :
    (old : HeartbeatEntry) → is_offline old.known_status ≡ false → old.known_status ≡ online
known_online old h = ground arith

quiet-Heard :
    (k : GatewayKey) (old : HeartbeatEntry) (now : Time) (t : Tracker)
    → lookup k t.beats ≡ some old
    → key_of old ≡ k
    → is_offline old.known_status ≡ false
    → Heard k now t (record t { beats = insert k (record old { last_seen = now }) t.beats })
quiet-Heard k old now t found own on =
    let same : record old { last_seen = now } ≡ fresh_entry k now =
      ground (arith, known_online old) in
    record {
      entries = λ j. rw same (lookup-insert k j (fresh_entry k now) t.beats);
      announced = rw (found, on) refl;
    }

handle_found-Heard :
    (o : Option HeartbeatEntry) (k : GatewayKey) (now : Time) (t t' : Tracker)
    → lookup k t.beats ≡ o
    → IsWellFormed t
    → handle_found o k now t ≡ returns t'
    → Heard k now t t'
unfolding handle_found register refresh
handle_found-Heard none k now t t' found h e =
    announcing-Heard k (fresh_entry k now) now t _ t' (rw found) refl refl refl e
handle_found-Heard (some old) k now t t' found h e =
    elim (Bool-cases (is_offline old.known_status)) [
      | inl off ↦
          announcing-Heard k _ now t _ t' (rw (found, off))
            (refreshed_entry k now old (h.keyed.at_key k old found)) refl refl (rw off at e)
      | inr on ↦
          let same : record t { beats = insert k (record old { last_seen = now }) t.beats } ≡ t' =
            ground arith in
          subst (Heard k now t) same (quiet-Heard k old now t found (h.keyed.at_key k old found) on)
    ]

-- A call of `HandleTelemetry` on a well-formed tracker that returns leaves the gateway online with
-- the time of the call as its last sign of life, and every other gateway's entry, or its absence,
-- as it was; it hands one update to the dispatcher, that the gateway is online, if the gateway had
-- no entry or a known status offline, and otherwise none.
pub handle_telemetry-Heard :
    (now : Time) (tenant_id : Bytes) (env : TelemetryEnvelope) (t t' : Tracker)
    → IsWellFormed t
    → handle_telemetry now tenant_id env t ≡ returns t'
    → Heard (record { tenant_id = tenant_id; gateway_id = env.gateway_id }) now t t'
unfolding handle_telemetry
handle_telemetry-Heard now tenant_id env t t' h e = handle_found-Heard _ _ now t t' refl h e

dispatch_panics :
    (u : GatewayStatusUpdate) (t : Tracker) → t.dispatcher.closed ≡ true → dispatch u t ≡ panics
unfolding dispatch
dispatch_panics u t h = rw (dispatch-closed u t.dispatcher h)

dispatch_goes_on :
    (u : GatewayStatusUpdate) (t : Tracker)
    → t.dispatcher.closed ≡ false
    → (t' : Tracker) × (dispatch u t ≡ returns t')
unfolding dispatch
dispatch_goes_on u t h =
    let (d, e, _) = dispatch-opened u t.dispatcher h in (record t { dispatcher = d }, rw e)

handle_found_returns :
    (o : Option HeartbeatEntry) (k : GatewayKey) (now : Time) (t : Tracker)
    → (t.dispatcher.closed ≡ false) ⊎ (is_news o ≡ false)
    → (t' : Tracker) × (handle_found o k now t ≡ returns t')
unfolding handle_found register refresh
handle_found_returns none k now t (inl opened) = dispatch_goes_on _ _ opened
handle_found_returns none k now t (inr old_news) = absurd (ground arith)
handle_found_returns (some old) k now t h = elim (Bool-cases (is_offline old.known_status)) [
  | inl off ↦ rw off (dispatch_goes_on _ _ (ground arith))
  | inr on ↦ rw on (record t { beats = insert k (record old { last_seen = now }) t.beats }, refl)
]

handle_found_panics :
    (o : Option HeartbeatEntry) (k : GatewayKey) (now : Time) (t : Tracker)
    → t.dispatcher.closed ≡ true
    → is_news o ≡ true
    → handle_found o k now t ≡ panics
unfolding handle_found register refresh
handle_found_panics none k now t shut news = dispatch_panics _ _ shut
handle_found_panics (some old) k now t shut news = rw news (dispatch_panics _ _ shut)

-- On an open channel `HandleTelemetry` returns, whatever the gateway's state.
pub handle_telemetry_returns :
    (now : Time) (tenant_id : Bytes) (env : TelemetryEnvelope) (t : Tracker)
    → t.dispatcher.closed ≡ false
    → (t' : Tracker) × (handle_telemetry now tenant_id env t ≡ returns t')
unfolding handle_telemetry
handle_telemetry_returns now tenant_id env t opened = handle_found_returns _ _ now t (inl opened)

dispatch_stays_open :
    (u : GatewayStatusUpdate) (t : Tracker)
    → t.dispatcher.closed ≡ false
    → (t' : Tracker) × (dispatch u t ≡ returns t') × (t'.dispatcher.closed ≡ false)
unfolding dispatch
dispatch_stays_open u t h =
    let (d, e, opened) = dispatch-opened u t.dispatcher h in
    (record t { dispatcher = d }, rw e refl, opened)

handle_found_stays_open :
    (o : Option HeartbeatEntry) (k : GatewayKey) (now : Time) (t : Tracker)
    → t.dispatcher.closed ≡ false
    → (t' : Tracker) × (handle_found o k now t ≡ returns t') × (t'.dispatcher.closed ≡ false)
unfolding handle_found register refresh
handle_found_stays_open none k now t opened = dispatch_stays_open _ _ opened
handle_found_stays_open (some old) k now t opened =
    elim (Bool-cases (is_offline old.known_status)) [
      | inl off ↦ rw off (dispatch_stays_open _ _ opened)
      | inr on ↦
          rw on
            (record t { beats = insert k (record old { last_seen = now }) t.beats }, refl, opened)
    ]

-- The channel stays open under `HandleTelemetry`.
pub handle_telemetry_stays_open :
    (now : Time) (tenant_id : Bytes) (env : TelemetryEnvelope) (t : Tracker)
    → t.dispatcher.closed ≡ false
    → (t' : Tracker) × (handle_telemetry now tenant_id env t ≡ returns t')
      × (t'.dispatcher.closed ≡ false)
unfolding handle_telemetry
handle_telemetry_stays_open now tenant_id env t opened = handle_found_stays_open _ _ now t opened

-- `HandleTelemetry` panics exactly if the channel is closed, as it is from `Close` on, and the
-- heartbeat is news: the gateway has no entry, or its known status is offline.
pub handle_telemetry-panics_iff :
    (now : Time) (tenant_id : Bytes) (env : TelemetryEnvelope) (t : Tracker)
    → (handle_telemetry now tenant_id env t ≡ panics) ↔ (
        (t.dispatcher.closed ≡ true)
        × (is_news (lookup (record { tenant_id = tenant_id; gateway_id = env.gateway_id }) t.beats)
            ≡ true))
unfolding handle_telemetry
handle_telemetry-panics_iff now tenant_id env t = (
  (λ e. (
    elim (Bool-cases t.dispatcher.closed) [
      | inl shut ↦ shut
      | inr opened ↦ cc (e, (handle_found_returns _ _ now t (inl opened)).1)
    ],
    elim (Bool-cases (is_news (lookup _ t.beats))) [
      | inl news ↦ news
      | inr old_news ↦ cc (e, (handle_found_returns _ _ now t (inr old_news)).1)
    ],
  )),
  (λ h. handle_found_panics _ _ now t h.0 h.1),
)
