-- ===== src/Tracker/Tick.antt =====
-- What an undisturbed `Tick` does.
use notip_data_consumer.Prelude.{
  false, ◌&&◌, ◌≡◌, refl, ap, subst, ◌∙◌, Option, none, some, List, [], ◌∷◌, ◌++◌, map,
  if◌then◌else◌, ◌==◌, arith, Bool-cases, inl, inr, keep, append_assoc, append-nil,
}
use mathlib.Core.Option
use notip_data_consumer.Prelude.GoMap.{lookup}
use notip_data_consumer.Prelude.Outcome.{returns, >>=-returns}
use notip_data_consumer.Model.{Time, add_duration, before}
use notip_data_consumer.Tracker.{
  GatewayKey, key_eq, key_eqb_iff, HeartbeatEntry, Tracker, Ports, key_of, offline_update, Call,
  query, alert, examine, act, tick_loop, tick,
}
use notip_data_consumer.Tracker.Snapshot.{find_entry, AreDistinct, IsSnapshot}
use notip_data_consumer.Tracker.Body.{
  is_due, falls, settle, alerts, alert_of, set_offline, falls-examine, alerts-examine, Acted,
  act-Acted,
}

-- A map's value at a key, after the loop has met the snapshot's entry of that key.
abbrev sweep : Ports → Time → Option HeartbeatEntry → Option HeartbeatEntry → Option HeartbeatEntry
sweep ports now none o = o
sweep ports now (some e) o = if falls ports now e then set_offline o else o

record Swept (ports : Ports) (now : Time) (es : List HeartbeatEntry) (t t' : Tracker)
    (calls : List Call) : Type 0 where
  entries :
      (k : GatewayKey) → lookup k t'.beats ≡ sweep ports now (find_entry k es) (lookup k t.beats)
  reported :
      t'.dispatcher.attempted
      ≡ t.dispatcher.attempted ++ map offline_update (keep (falls ports now) es)
  alerted : alerts calls ≡ map (alert_of ports now) (keep (is_due ports now) es)

alerts-append : (xs ys : List Call) → alerts (xs ++ ys) ≡ alerts xs ++ alerts ys
alerts-append [] ys = refl
alerts-append (query _ ∷ xs) ys = alerts-append xs ys
alerts-append (alert tenant payload ∷ xs) ys = ap (◌∷◌ (tenant, payload)) (alerts-append xs ys)

module _ (ports : Ports) (now : Time) where
  swept_entries :
      (e : HeartbeatEntry) (es : List HeartbeatEntry) (k : GatewayKey)
      (o o' o'' : Option HeartbeatEntry)
      → find_entry (key_of e) es ≡ none
      → o' ≡ (if falls ports now e && key_of e == k then set_offline o else o)
      → o'' ≡ sweep ports now (find_entry k es) o'
      → o'' ≡ sweep ports now (find_entry k (e ∷ es)) o
  unfolding find_entry
  swept_entries e es k o o' o'' fresh first rest = elim (Bool-cases (key_of e == k)) [
    | inl here ↦
        let own : key_of e ≡ k = (key_eqb_iff (key_of e) k).0 here in
        let gone : find_entry k es ≡ none = rw (← own) fresh in ground arith
    | inr there ↦ ground arith
  ]

  first_entry :
      (e : HeartbeatEntry) (es : List HeartbeatEntry) (calls later : List Call) (t t' t'' : Tracker)
      → find_entry (key_of e) es ≡ none
      → alerts calls ≡ (if is_due ports now e then alert_of ports now e ∷ [] else [])
      → Acted (falls ports now e) e t t'
      → Swept ports now es t' t'' later
      → Swept ports now (e ∷ es) t t'' (calls ++ later)
  first_entry e es calls later t t' t'' fresh asked a w = record {
    entries = λ k.
        swept_entries e es k (lookup k t.beats) (lookup k t'.beats) (lookup k t''.beats) fresh
          (a.entries k) (w.entries k);
    reported = ground (
      arith,
      w.reported,
      a.reported,
      append_assoc t.dispatcher.attempted (offline_update e ∷ [])
          (map offline_update (keep (falls ports now) es)),
    );
    alerted = ground (arith, alerts-append calls later, asked, w.alerted);
  }

  tick_loop-Swept :
      (es : List HeartbeatEntry) (t t' : Tracker) (calls : List Call)
      → AreDistinct es
      → tick_loop ports now es t ≡ returns (t', calls)
      → Swept ports now es t t' calls
  unfolding tick_loop find_entry
  tick_loop-Swept [] t t' calls d h = record {
    entries = λ k. ground arith;
    reported = ground (arith, append-nil t.dispatcher.attempted);
    alerted = ground arith;
  }
  tick_loop-Swept (e ∷ es) t t' calls d h =
      let (s, acted, rest) = >>=-returns (act (examine ports now e).0 e t) _ h in
      let ((s', later), swept, last) = >>=-returns (tick_loop ports now es s) _ rest in
      let same : ◌≡◌ {A = Tracker × List Call} (s', (examine ports now e).1 ++ later) (t', calls) =
        cc last in
      subst (λ (p : Tracker × List Call). Swept ports now (e ∷ es) t p.0 p.1) same
        (first_entry e es (examine ports now e).1 later t s s' d.0 (alerts-examine ports now e)
          (subst (λ b. Acted b e t s) (falls-examine ports now e)
            (act-Acted (examine ports now e).0 e t s acted))
          (tick_loop-Swept es s s' later d.1 swept))

-- What a whole `Tick` at `now` makes of the tracker `t`, whose calls were `calls`.
pub record Ticked (ports : Ports) (now : Time) (es : List HeartbeatEntry) (t t' : Tracker)
    (calls : List Call) : Type 0 where
  pub entries :
      (k : GatewayKey) → lookup k t'.beats ≡ Option.map (settle ports now) (lookup k t.beats)
  pub reported :
      t'.dispatcher.attempted
      ≡ t.dispatcher.attempted ++ map offline_update (keep (falls ports now) es)
  pub alerted : alerts calls ≡ map (alert_of ports now) (keep (is_due ports now) es)

swept_all :
    (ports : Ports) (now : Time) (o : Option HeartbeatEntry)
    → sweep ports now o o ≡ Option.map (settle ports now) o
swept_all ports now none = refl
swept_all ports now (some e) = ground arith

-- A `Tick` after the grace period that returns, with no other operation in between and the entries
-- taken in any order, changes nothing of the map but the known status of the gateways that fall
-- offline: those not known to be offline, past their deadline, not paused by what the management
-- API answers, and whose alert could be published. It asks for one alert for each gateway for which
-- one is due, published or not, in the order of the entries, and hands one update to the dispatcher
-- for each gateway that falls offline.
pub tick-Ticked :
    (ports : Ports) (now now' : Time) (es : List HeartbeatEntry) (t t' : Tracker)
    (calls : List Call)
    → IsSnapshot es t.beats
    → before now (add_duration t.start_time t.grace_period) ≡ false
    → tick ports now now' es t ≡ returns (t', calls)
    → Ticked ports now' es t t' calls
unfolding tick
tick-Ticked ports now now' es t t' calls snap late h =
    let w = tick_loop-Swept ports now' es t t' calls snap.distinct (rw late at h) in
    record {
      entries = λ k. w.entries k ∙ rw (snap.complete k) (swept_all ports now' (lookup k t.beats));
      reported = w.reported;
      alerted = w.alerted;
    }
