-- ===== src/Service/Returns.antt =====
-- The consumer's run comes back as long as the dispatcher's channel is open.
use notip_data_consumer.Prelude.{ℕ, ◌≡◌, refl, ap, false, none, List, [], ◌∷◌, arith}
use notip_data_consumer.Prelude.Bytes.{Bytes}
use notip_data_consumer.Prelude.Outcome.{Outcome, returns, ◌>>=◌, Result}
use notip_data_consumer.Model.{Time, TelemetryEnvelope, TelemetryRow}
use notip_data_consumer.Tracker.{Tracker}
use notip_data_consumer.Tracker.Telemetry.{handle_telemetry_stays_open}
use notip_data_consumer.TelemetryConsumer.{
  ProcessError, arrives, ticks, ctx_done, flush_loop, start_flushing,
}
use notip_data_consumer.TelemetryConsumer.Message.{
  Processed, bad_subject, bad_content, broke, refused, accepted, process_message-Processed,
}
use notip_data_consumer.Service.{
  RawMsg, tracker_handler, receive_msg, Incoming, message, interval, stop, queue_all, Database,
  row_writer, run_consumer,
}

-- The call returns, and the channel of the tracker that it leaves is open.
abbrev pub ReturnsOpen : {A : Type 0} → Outcome (Tracker × A) → Type 0
ReturnsOpen {A} m = (r : Tracker × A) × (m ≡ returns r) × (r.0.dispatcher.closed ≡ false)

handler-ReturnsOpen :
    (now : Time) (tenant_id : Bytes) (env : TelemetryEnvelope) (t : Tracker)
    → t.dispatcher.closed ≡ false
    → (t' : Tracker) × (tracker_handler now tenant_id env t ≡ returns (t', none))
      × (t'.dispatcher.closed ≡ false)
unfolding tracker_handler
handler-ReturnsOpen now tenant_id env t opened =
    let (t', e, still) = handle_telemetry_stays_open now tenant_id env t opened in
    (t', rw e refl, still)

processed-ReturnsOpen :
    (now : Time) (unmarshal : Bytes → Result Bytes TelemetryEnvelope) (subject content : Bytes)
    (t : Tracker) (out : Outcome (Tracker × Result ProcessError TelemetryRow))
    → t.dispatcher.closed ≡ false
    → Processed (tracker_handler now) unmarshal subject content t out
    → ReturnsOpen out
processed-ReturnsOpen now unmarshal subject content t _ opened (bad_subject _) = (_, refl, opened)
processed-ReturnsOpen now unmarshal subject content t _ opened (bad_content _ _ _ _) =
    (_, refl, opened)
processed-ReturnsOpen now unmarshal subject content t _ opened (broke tenant_id env _ _ panicked) =
    absurd (cc (panicked, (handler-ReturnsOpen now tenant_id env t opened).1))
processed-ReturnsOpen now unmarshal subject content t _ opened
      (refused tenant_id env e s' _ _ called) =
    let (t', run, still) = handler-ReturnsOpen now tenant_id env t opened in
    absurd (ground (arith, run, called))
processed-ReturnsOpen now unmarshal subject content t _ opened
      (accepted tenant_id env s' row _ _ called _) =
    let (t', run, still) = handler-ReturnsOpen now tenant_id env t opened in
    (_, refl, ground (arith, run, called, still))

receive_msg-ReturnsOpen :
    (unmarshal : Bytes → Result Bytes TelemetryEnvelope) (now : Time) (raw : RawMsg) (t : Tracker)
    → t.dispatcher.closed ≡ false
    → ReturnsOpen (receive_msg unmarshal now raw t)
unfolding receive_msg
receive_msg-ReturnsOpen unmarshal now raw t opened =
    let (r, e, still) =
      processed-ReturnsOpen now unmarshal raw.subject raw.content t _ opened
        (process_message-Processed (tracker_handler now) unmarshal raw.subject raw.content t) in
    (_, ap (λ m. m >>= λ x. returns (x.0, record { msg = raw.number; row = x.1 })) e, still)

queue_all-ReturnsOpen :
    (unmarshal : Bytes → Result Bytes TelemetryEnvelope) (incoming : List Incoming) (t : Tracker)
    → t.dispatcher.closed ≡ false
    → ReturnsOpen (queue_all unmarshal incoming t)
unfolding queue_all
queue_all-ReturnsOpen unmarshal [] t opened = (_, refl, opened)
queue_all-ReturnsOpen unmarshal (message now raw ∷ incoming) t opened =
    let (r, e, still) = receive_msg-ReturnsOpen unmarshal now raw t opened in
    let (q, f, last) = queue_all-ReturnsOpen unmarshal incoming r.0 still in
    ((q.0, arrives r.1 ∷ q.1), rw e (rw f refl), last)
queue_all-ReturnsOpen unmarshal (interval ∷ incoming) t opened =
    let (q, f, last) = queue_all-ReturnsOpen unmarshal incoming t opened in
    ((q.0, ticks ∷ q.1), rw f refl, last)
queue_all-ReturnsOpen unmarshal (stop ∷ incoming) t opened =
    let (q, f, last) = queue_all-ReturnsOpen unmarshal incoming t opened in
    ((q.0, ctx_done ∷ q.1), rw f refl, last)

-- As long as the dispatcher's channel is open, the consumer gets through whatever comes in, malformed
-- messages included, without a panic, and leaves the channel open.
pub run_consumer-ReturnsOpen :
    (unmarshal : Bytes → Result Bytes TelemetryEnvelope) (batch_size : ℕ) (db : Database)
    (incoming : List Incoming) (t : Tracker)
    → t.dispatcher.closed ≡ false
    → ReturnsOpen (run_consumer unmarshal batch_size db incoming t)
unfolding run_consumer
run_consumer-ReturnsOpen unmarshal batch_size db incoming t opened =
    let (q, f, last) = queue_all-ReturnsOpen unmarshal incoming t opened in
    ((q.0, flush_loop batch_size (row_writer db) q.1 start_flushing), rw f refl, last)
