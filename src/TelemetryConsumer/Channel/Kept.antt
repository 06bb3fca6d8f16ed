-- ===== src/TelemetryConsumer/Channel/Kept.antt =====
-- The steps of the callback, of the loop and of the context, and where the messages are after them.
use notip_data_consumer.Prelude.{
  ℕ, ◌*◌, ◌≡◌, ◌≢◌, refl, sym, ap, ◌∙◌, subst, Bool, true, false, inl, inr, Option, none, some,
  List, [], ◌∷◌, ◌++◌, length, append_assoc, arith, ltb, Bool-cases,
}
use notip_data_consumer.TelemetryConsumer.{
  PendingMsg, ack, Writer, arrives, flush, flush_round, give_up,
}
use notip_data_consumer.TelemetryConsumer.Flush.{
  handled, arrival-handled, flushed-handled, handled-flush,
}
use notip_data_consumer.TelemetryConsumer.Channel.Accounts.{
  msgs, queued, IsKept, start_run-IsKept, called-IsKept, sent-IsKept, given-IsKept, looped-IsKept,
}
use notip_data_consumer.TelemetryConsumer.Channel.{
  ConsumerRun, start_run, ConsumerEvent, callback, sends, gives_up, takes, interval, ends, cancel,
  consumer_step, RunsTo, stays, then_step, call_back, send_pending, give_up_pending, take_pending,
  tick_flush, end_loop,
}

carried :
    (batch_size : ℕ) {s t : ConsumerRun}
    → some s ≡ some t
    → IsKept batch_size s
    → IsKept batch_size t
carried batch_size {s} {t} e h = let same : s ≡ t = ground arith in subst (IsKept batch_size) same h

call_back-IsKept :
    (batch_size : ℕ) (pm : PendingMsg) (r t : ConsumerRun) (o : Option PendingMsg)
    → IsKept batch_size r
    → r.in_hand ≡ o
    → call_back pm r o ≡ some t
    → IsKept batch_size t
unfolding call_back
call_back-IsKept batch_size pm r t none h e stepped =
    carried batch_size stepped (called-IsKept batch_size pm r h e)
call_back-IsKept batch_size pm r t (some _) h e stepped = cc

send_pending-IsKept :
    (batch_size : ℕ) (r t : ConsumerRun) (o : Option PendingMsg)
    → IsKept batch_size r
    → r.in_hand ≡ o
    → send_pending batch_size r o ≡ some t
    → IsKept batch_size t
unfolding send_pending
send_pending-IsKept batch_size r t none h e stepped = cc
send_pending-IsKept batch_size r t (some pm) h e stepped =
    elim (Bool-cases (ltb (length r.pending) (batch_size * 2))) [
      | inl room ↦
          carried batch_size (ground arith) (sent-IsKept batch_size pm r h e (ground arith))
      | inr full ↦ ground arith
    ]

give_up_no_ack : (pm : PendingMsg) → give_up pm ≢ ack
unfolding give_up
give_up_no_ack pm = ground arith

give_up_pending-IsKept :
    (batch_size : ℕ) (r t : ConsumerRun) (late : Bool) (o : Option PendingMsg)
    → IsKept batch_size r
    → r.in_hand ≡ o
    → r.cancelled ≡ late
    → give_up_pending r late o ≡ some t
    → IsKept batch_size t
unfolding give_up_pending
give_up_pending-IsKept batch_size r t true (some pm) h e l stepped =
    carried batch_size stepped (given-IsKept batch_size pm (give_up pm) r h e l (give_up_no_ack pm))
give_up_pending-IsKept batch_size r t true none h e l stepped = cc
give_up_pending-IsKept batch_size r t false none h e l stepped = cc
give_up_pending-IsKept batch_size r t false (some _) h e l stepped = cc

taken-queued :
    (batch_size : ℕ) (writer : Writer) (pm : PendingMsg) (rest : List PendingMsg) (r : ConsumerRun)
    → r.pending ≡ pm ∷ rest
    → handled (flush_round batch_size writer (arrives pm) r.flushing).0 ++ msgs rest ≡ queued r
taken-queued batch_size writer pm rest r q =
    ap (λ (xs : List ℕ). xs ++ msgs rest) (arrival-handled batch_size writer pm r.flushing)
    ∙ append_assoc (handled r.flushing) (pm.msg ∷ []) (msgs rest)
    ∙ ap (λ queue. handled r.flushing ++ msgs queue) (sym q)

take_pending-IsKept :
    (batch_size : ℕ) (writer : Writer) (r t : ConsumerRun) (ended : Bool) (queue : List PendingMsg)
    → IsKept batch_size r
    → r.loop_ended ≡ ended
    → r.pending ≡ queue
    → take_pending batch_size writer r ended queue ≡ some t
    → IsKept batch_size t
unfolding take_pending
take_pending-IsKept batch_size writer r t false (pm ∷ rest) h l q stepped =
    carried batch_size stepped (
      looped-IsKept batch_size rest (flush_round batch_size writer (arrives pm) r.flushing).0
        r.loop_ended r h (taken-queued batch_size writer pm rest r q) (omega (arith, ap length q))
        (inl l))
take_pending-IsKept batch_size writer r t true queue h l q stepped = cc
take_pending-IsKept batch_size writer r t false [] h l q stepped = cc

tick_flush-IsKept :
    (batch_size : ℕ) (writer : Writer) (r t : ConsumerRun) (ended : Bool)
    → IsKept batch_size r
    → r.loop_ended ≡ ended
    → tick_flush batch_size writer r ended ≡ some t
    → IsKept batch_size t
unfolding tick_flush flush_round
tick_flush-IsKept batch_size writer r t false h l stepped = carried batch_size stepped (
    looped-IsKept batch_size r.pending (flush writer r.flushing.buf r.flushing) r.loop_ended r h
      (ap (λ (xs : List ℕ). xs ++ msgs r.pending) (flushed-handled writer r.flushing)) (omega arith)
      (inl l))
tick_flush-IsKept batch_size writer r t true h l stepped = cc

end_loop-IsKept :
    (batch_size : ℕ) (writer : Writer) (r t : ConsumerRun) (ended late : Bool)
    → IsKept batch_size r
    → r.cancelled ≡ late
    → end_loop batch_size writer r ended late ≡ some t
    → IsKept batch_size t
unfolding end_loop flush_round
end_loop-IsKept batch_size writer r t false true h c stepped = carried batch_size stepped (
    looped-IsKept batch_size r.pending (flush writer r.flushing.buf r.flushing) true r h
      (ap (λ (xs : List ℕ). xs ++ msgs r.pending) (flushed-handled writer r.flushing)) (omega arith)
      (inr (c, (handled-flush writer r.flushing.buf r.flushing refl).1)))
end_loop-IsKept batch_size writer r t true late h c stepped = cc
end_loop-IsKept batch_size writer r t false false h c stepped = cc

step-IsKept :
    (batch_size : ℕ) (writer : Writer) (event : ConsumerEvent) (r t : ConsumerRun)
    → IsKept batch_size r
    → consumer_step batch_size writer event r ≡ some t
    → IsKept batch_size t
unfolding consumer_step
step-IsKept batch_size writer (callback pm) r t h e =
    call_back-IsKept batch_size pm r t r.in_hand h refl e
step-IsKept batch_size writer sends r t h e = send_pending-IsKept batch_size r t r.in_hand h refl e
step-IsKept batch_size writer gives_up r t h e =
    give_up_pending-IsKept batch_size r t r.cancelled r.in_hand h refl refl e
step-IsKept batch_size writer takes r t h e =
    take_pending-IsKept batch_size writer r t r.loop_ended r.pending h refl refl e
step-IsKept batch_size writer interval r t h e =
    tick_flush-IsKept batch_size writer r t r.loop_ended h refl e
step-IsKept batch_size writer ends r t h e =
    end_loop-IsKept batch_size writer r t r.loop_ended r.cancelled h refl e
step-IsKept batch_size writer cancel r t h e = carried batch_size e (record {
  through = h.through;
  received = h.received;
  kept = h.kept;
  counted = h.counted;
  bounded = h.bounded;
  given_late = inr refl;
  never_acked = h.never_acked;
  ended_late = elim h.ended_late [ inl going ↦ inl going | inr over ↦ inr (refl, over.1) ];
})

-- However the callback, the loop, the ticker and the end of the context follow one another, of the
-- messages that the callback has been called for, which the metric counts, the last may still be in
-- hand; each of the others stands exactly once either among those settled by the loop, in its buffer
-- or in the channel, or among those that `enqueuePending` answered itself, both in the order in which
-- they came. The channel holds at most twice the size of a batch. None is given up, and the loop
-- does not return, before the end of the context, none is acknowledged by `enqueuePending`, and when
-- the loop has returned its buffer is empty.
pub run-IsKept :
    (batch_size : ℕ) (writer : Writer) {r : ConsumerRun}
    → RunsTo batch_size writer start_run r
    → IsKept batch_size r
run-IsKept batch_size writer stays = start_run-IsKept batch_size
run-IsKept batch_size writer (then_step event run e) =
    step-IsKept batch_size writer event _ _ (run-IsKept batch_size writer run) e
