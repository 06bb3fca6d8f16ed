-- ===== src/Decommission.antt =====
-- internal/adapter/driving/nats_decommission_consumer.go: a message that a gateway is gone, and
-- heartbeat_tick_timer.go: the goroutine that calls `Tick`.
pub mod Forgets
pub mod Session
use notip_data_consumer.Prelude.{ℕ, ◌+◌, Option, none, some, List, [], ◌∷◌, ◌++◌}
use notip_data_consumer.Prelude.Bytes.{Bytes, lit}
use notip_data_consumer.Prelude.Outcome.{Outcome, returns, panics, ◌>>=◌, Result, ok, err}
use notip_data_consumer.Subject.{extract_ids}
use notip_data_consumer.Tracker.{Tracker, handle_decommission}
use notip_data_consumer.TelemetryConsumer.{Ack, ack, term}

handle_ids : Option (Bytes × Bytes) → Tracker → Tracker × Ack
handle_ids none t = (t, term)
handle_ids (some (tenant_id, gateway_id)) t = (handle_decommission tenant_id gateway_id t, ack)

-- `handleMsg`, on the message's subject, with the tracker as its handler
unfoldable pub handle_msg : Bytes → Tracker → Tracker × Ack
unfolding handle_ids
handle_msg subject t = handle_ids (extract_ids subject) t

-- The calls of `handleMsg` for the messages of the subscription, one at a time.
unfoldable pub handle_all : List Bytes → Tracker → Tracker × List Ack
unfolding handle_msg
handle_all [] t = (t, [])
handle_all (subject ∷ subjects) t =
    let (t', verdict) = handle_msg subject t in
    let (t'', later) = handle_all subjects t' in (t'', verdict ∷ later)

-- `NATSDecommissionConsumer.Run`, by the error of `Subscribe` and the messages that come until the
-- subscription is drained.
unfoldable pub run_decommissions :
    Option Bytes → List Bytes → Tracker → Result Bytes (Tracker × List Ack)
unfolding handle_all
run_decommissions (some e) subjects t = err (lit "subscribe gateway.decommissioned.>: " ++ e)
run_decommissions none subjects t = ok (handle_all subjects t)

-- What the `select` of the timer's `Run` receives.
pub data TimerEvent : Type 0 where
  interval_over context_over : TimerEvent

-- `HeartbeatTickTimer.Run`, on the events that it receives, and the number of durations observed;
-- `S` is the state of the port that it drives.
unfoldable pub run_timer :
    {S : Type 0} → (S → Outcome S) → List TimerEvent → S × ℕ → Outcome (S × ℕ)
run_timer tick [] s = returns s
run_timer tick (context_over ∷ events) s = returns s
run_timer tick (interval_over ∷ events) (s, observed) = do
  s' ← tick s
  run_timer tick events (s', observed + 1)
