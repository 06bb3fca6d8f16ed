-- ===== src/Tracker/Shutdown.antt =====
-- When a `Tick` returns and when it panics: a send on the closed channel.
use notip_data_consumer.Prelude.{
  true, false, ◌≡◌, ◌≢◌, ◌↔◌, refl, ◌∙◌, List, [], ◌∷◌, ◌++◌, arith, Bool-cases, inl, inr, keep,
}
use notip_data_consumer.Prelude.Outcome.{returns, panics}
use notip_data_consumer.Model.{Time, add_duration, before}
use notip_data_consumer.Dispatcher.Attempts.{dispatch-closed, dispatch-opened}
use notip_data_consumer.Tracker.{
  HeartbeatEntry, Tracker, Ports, key_of, offline_update, Call, Verdict, already_offline, alive,
  paused, publish_failed, went_offline, examine, dispatch, act, mark_offline, tick_loop, tick,
}
use notip_data_consumer.Tracker.Body.{
  falls, is_went_offline, falls-examine, dispatcher-mark_offline,
}

act_returns :
    (v : Verdict) (e : HeartbeatEntry) (t : Tracker)
    → t.dispatcher.closed ≡ false
    → (t' : Tracker) × (act v e t ≡ returns t') × (t'.dispatcher.closed ≡ false)
unfolding act dispatch
act_returns went_offline e t opened =
    let (d, sent, still) = dispatch-opened (offline_update e) t.dispatcher opened in
    let s = record t { dispatcher = d } in
    (mark_offline (key_of e) s, rw sent, rw (dispatcher-mark_offline (key_of e) s) still)
act_returns already_offline e t opened = (t, refl, opened)
act_returns alive e t opened = (t, refl, opened)
act_returns paused e t opened = (t, refl, opened)
act_returns publish_failed e t opened = (t, refl, opened)

act_idle :
    (v : Verdict) (e : HeartbeatEntry) (t : Tracker)
    → is_went_offline v ≡ false
    → act v e t ≡ returns t
unfolding act
act_idle v e t h = ground arith

act_panics :
    (v : Verdict) (e : HeartbeatEntry) (t : Tracker)
    → t.dispatcher.closed ≡ true
    → is_went_offline v ≡ true
    → act v e t ≡ panics
unfolding act dispatch
act_panics v e t shut h = ground (arith, dispatch-closed (offline_update e) t.dispatcher shut)

module _ (ports : Ports) (now : Time) where
  tick_loop_returns :
      (es : List HeartbeatEntry) (t : Tracker)
      → t.dispatcher.closed ≡ false
      → (r : Tracker × List Call) × (tick_loop ports now es t ≡ returns r)
  unfolding tick_loop
  tick_loop_returns [] t opened = ((t, []), refl)
  tick_loop_returns (e ∷ es) t opened =
      let (s, acted, still) = act_returns (examine ports now e).0 e t opened in
      let ((s', later), swept) = tick_loop_returns es s still in
      ((s', (examine ports now e).1 ++ later), rw (acted, swept))

  tick_loop_idle :
      (es : List HeartbeatEntry) (t : Tracker)
      → keep (falls ports now) es ≡ []
      → (calls : List Call) × (tick_loop ports now es t ≡ returns (t, calls))
  unfolding tick_loop
  tick_loop_idle [] t h = ([], refl)
  tick_loop_idle (e ∷ es) t h =
      let stays : falls ports now e ≡ false = ground arith in
      let (later, swept) = tick_loop_idle es t (ground arith) in
      (
        (examine ports now e).1 ++ later,
        rw (act_idle (examine ports now e).0 e t (falls-examine ports now e ∙ stays), swept),
      )

  tick_loop_panics :
      (es : List HeartbeatEntry) (t : Tracker)
      → t.dispatcher.closed ≡ true
      → keep (falls ports now) es ≢ []
      → tick_loop ports now es t ≡ panics
  unfolding tick_loop
  tick_loop_panics [] t shut h = absurd (h refl)
  tick_loop_panics (e ∷ es) t shut h = elim (Bool-cases (falls ports now e)) [
    | inl gone ↦ rw (act_panics (examine ports now e).0 e t shut (falls-examine ports now e ∙ gone))
    | inr stays ↦
        rw (act_idle (examine ports now e).0 e t (falls-examine ports now e ∙ stays))
          (rw (tick_loop_panics es t shut (λ none_left. h (ground arith))))
  ]

-- On an open channel a `Tick` returns, whatever the ports answer.
pub tick_returns :
    (ports : Ports) (now now' : Time) (es : List HeartbeatEntry) (t : Tracker)
    → t.dispatcher.closed ≡ false
    → (r : Tracker × List Call) × (tick ports now now' es t ≡ returns r)
unfolding tick
tick_returns ports now now' es t opened =
    elim (Bool-cases (before now (add_duration t.start_time t.grace_period))) [
      | inl early ↦ ((t, []), rw early)
      | inr late ↦ rw late (tick_loop_returns ports now' es t opened)
    ]

-- After the grace period, once `Close` has shut the channel, a `Tick` panics exactly if some
-- gateway of the snapshot falls offline.
pub tick-panics_iff :
    (ports : Ports) (now now' : Time) (es : List HeartbeatEntry) (t : Tracker)
    → before now (add_duration t.start_time t.grace_period) ≡ false
    → t.dispatcher.closed ≡ true
    → (tick ports now now' es t ≡ panics) ↔ (keep (falls ports now') es ≢ [])
unfolding tick
tick-panics_iff ports now now' es t late shut = rw late (
  (λ p nothing. cc (p, (tick_loop_idle ports now' es t nothing).1)),
  tick_loop_panics ports now' es t shut,
)
