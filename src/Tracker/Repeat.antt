-- ===== src/Tracker/Repeat.antt =====
-- A gateway that one `Tick` took to be offline is not alerted again by the next.
use notip_data_consumer.Prelude.{
  true, false, ◌≡◌, ◌≢◌, refl, ap, sym, ◌∙◌, subst, Option, none, some, List, [], ◌∷◌, map, ◌==◌,
  arith, Bool-cases, inl, inr, keep, All,
}
use mathlib.Core.Option
use notip_data_consumer.Prelude.Bytes.{Bytes}
use notip_data_consumer.Prelude.GoMap.{lookup}
use notip_data_consumer.Prelude.Outcome.{returns}
use notip_data_consumer.Model.{Time, AlertPayload, offline, add_duration, before}
use notip_data_consumer.Tracker.{
  GatewayKey, key_eq, key_eqb_iff, HeartbeatEntry, Tracker, Ports, key_of, Call, tick,
}
use notip_data_consumer.Tracker.Snapshot.{find_entry, AreDistinct, IsSnapshot}
use notip_data_consumer.Tracker.Body.{is_due, falls, settle, alerts, alert_of}
use notip_data_consumer.Tracker.Tick.{tick-Ticked}

-- The gateway that an alert is about.
abbrev pub alert_key : Bytes × AlertPayload → GatewayKey
alert_key a = record { tenant_id = a.0; gateway_id = a.1.gateway_id }

-- An entry, if there is one, that is known to be offline.
abbrev IsKnownOffline : Option HeartbeatEntry → Type 0
IsKnownOffline none = Unit {0}
IsKnownOffline (some e) = e.known_status ≡ offline

settled_offline :
    (ports : Ports) (now : Time) (e : HeartbeatEntry)
    → falls ports now e ≡ true
    → (settle ports now e).known_status ≡ offline
settled_offline ports now e fell = rw fell refl

module _ (ports : Ports) (now : Time) (k : GatewayKey) where
  not_due : (e : HeartbeatEntry) → e.known_status ≡ offline → is_due ports now e ≡ false
  unfolding is_due
  not_due e off = ground (arith, off)

  abbrev due_alerts : List HeartbeatEntry → List (Bytes × AlertPayload)
  due_alerts es = map (alert_of ports now) (keep (is_due ports now) es)

  due_alerts_others :
      (es : List HeartbeatEntry)
      → AreDistinct es
      → IsKnownOffline (find_entry k es)
      → All (λ a. alert_key a ≢ k) (due_alerts es)
  unfolding find_entry
  due_alerts_others [] d off = tt
  due_alerts_others (e ∷ es) d off = elim (Bool-cases (key_of e == k)) [
    | inl here ↦
        let own : key_of e ≡ k = (key_eqb_iff (key_of e) k).0 here in
        let gone : find_entry k es ≡ none = rw (← own) d.0 in
        let idle : is_due ports now e ≡ false = not_due e (rw here at off) in
        rw idle (due_alerts_others es d.1 (subst IsKnownOffline (sym gone) tt))
    | inr there ↦
        let rest = due_alerts_others es d.1 (rw there at off) in
        let other : key_of e ≢ k = ground (arith, there, key_eqb_iff (key_of e) k) in
        elim (Bool-cases (is_due ports now e)) [
          | inl due ↦ rw due (other, rest)
          | inr idle ↦ rw idle rest
        ]
  ]

-- If a gateway falls offline in a `Tick` after the grace period that returns, then the next such
-- `Tick`, with no other operation before it or during it, asks for no alert about that gateway,
-- whatever the time and whatever the ports answer by then.
pub alerted_once :
    (ports ports' : Ports) (now late soon later : Time) (es es' : List HeartbeatEntry)
    (t t' t'' : Tracker) (calls calls' : List Call) (k : GatewayKey) (e : HeartbeatEntry)
    → IsSnapshot es t.beats
    → before now (add_duration t.start_time t.grace_period) ≡ false
    → tick ports now late es t ≡ returns (t', calls)
    → lookup k t.beats ≡ some e
    → falls ports late e ≡ true
    → IsSnapshot es' t'.beats
    → before soon (add_duration t'.start_time t'.grace_period) ≡ false
    → tick ports' soon later es' t' ≡ returns (t'', calls')
    → All (λ a. alert_key a ≢ k) (alerts calls')
alerted_once ports ports' now late soon later es es' t t' t'' calls calls' k e snap ready ticked
      found fell snap' ready' ticked' =
    let one = tick-Ticked ports now late es t t' calls snap ready ticked in
    let two = tick-Ticked ports' soon later es' t' t'' calls' snap' ready' ticked' in
    let known : find_entry k es' ≡ some (settle ports late e) =
      snap'.complete k ∙ (one.entries k ∙ ap (Option.map (settle ports late)) found) in
    subst (All (λ a. alert_key a ≢ k)) (sym two.alerted) (
      due_alerts_others ports' later k es' snap'.distinct
        (subst IsKnownOffline (sym known) (settled_offline ports late e fell)))
