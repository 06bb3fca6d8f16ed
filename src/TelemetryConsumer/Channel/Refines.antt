-- ===== src/TelemetryConsumer/Channel/Refines.antt =====
-- The loop beside the callback, and `flushLoop` by itself.
use notip_data_consumer.Prelude.{
  ℕ, ◌≡◌, refl, sym, ap, subst, ◌∙◌, Bool, true, false, Option, none, some, List, [], ◌∷◌, ◌++◌,
  length, ◌*◌, arith, ltb, Bool-cases, inl, inr, Interleaved,
}
use notip_data_consumer.TelemetryConsumer.{
  PendingMsg, Writer, FlushState, FlushEvent, arrives, ctx_done, ticks, flush_round, flush_loop,
  start_flushing,
}
use notip_data_consumer.TelemetryConsumer.Flush.{
  handled, received_msgs, is_ended, flush_loop-Conserved,
}
use notip_data_consumer.TelemetryConsumer.Channel.{
  ConsumerRun, start_run, ConsumerEvent, callback, sends, gives_up, takes, interval, ends, cancel,
  consumer_step, RunsTo, stays, then_step, call_back, send_pending, give_up_pending, take_pending,
  tick_flush, end_loop,
}
use notip_data_consumer.TelemetryConsumer.Channel.Accounts.{msgs, held, refused}
use notip_data_consumer.TelemetryConsumer.Channel.Kept.{run-IsKept}

-- One more event at the end of a run of the loop that has not ended.
flush_loop-snoc :
    (batch_size : ℕ) (writer : Writer) (events : List FlushEvent) (event : FlushEvent)
    (s : FlushState)
    → is_ended events ≡ false
    → flush_loop batch_size writer (events ++ event ∷ []) s
      ≡ (flush_round batch_size writer event (flush_loop batch_size writer events s)).0
unfolding flush_loop flush_round
flush_loop-snoc batch_size writer [] (arrives pm) s h = refl
flush_loop-snoc batch_size writer [] ctx_done s h = refl
flush_loop-snoc batch_size writer [] ticks s h = refl
flush_loop-snoc batch_size writer (arrives pm ∷ events) event s h =
    flush_loop-snoc batch_size writer events event _ h
flush_loop-snoc batch_size writer (ctx_done ∷ events) event s h = cc
flush_loop-snoc batch_size writer (ticks ∷ events) event s h =
    flush_loop-snoc batch_size writer events event _ h

is_ended-snoc :
    (events : List FlushEvent) (event : FlushEvent)
    → is_ended events ≡ false
    → is_ended (events ++ event ∷ []) ≡ is_ended (event ∷ [])
is_ended-snoc [] event h = refl
is_ended-snoc (arrives pm ∷ events) event h = is_ended-snoc events event h
is_ended-snoc (ctx_done ∷ events) event h = cc
is_ended-snoc (ticks ∷ events) event h = is_ended-snoc events event h

-- The loop's state is that of `flushLoop` on some events.
pub record IsLooped (batch_size : ℕ) (writer : Writer) (s : FlushState) (ended : Bool)
    : Type 0 where
  pub events : List FlushEvent
  pub same : s ≡ flush_loop batch_size writer events start_flushing
  pub over : ended ≡ is_ended events

module _ (batch_size : ℕ) (writer : Writer) where
  next-IsLooped :
      (event : FlushEvent) (s : FlushState)
      → IsLooped batch_size writer s false
      → IsLooped batch_size writer (flush_round batch_size writer event s).0 (is_ended (event ∷ []))
  next-IsLooped event s h = record {
    events = h.events ++ event ∷ [];
    same =
        ap (λ x. (flush_round batch_size writer event x).0) h.same
        ∙ sym (flush_loop-snoc batch_size writer h.events event start_flushing (sym h.over));
    over = sym (is_ended-snoc h.events event (sym h.over));
  }

  abbrev Loops : ConsumerRun → Type 0
  Loops r = IsLooped batch_size writer r.flushing r.loop_ended

  carried : {t u : ConsumerRun} → some u ≡ some t → Loops u → Loops t
  carried {t} {u} e h = let same : u ≡ t = ground arith in subst Loops same h

  next-Loops :
      (event : FlushEvent) (r : ConsumerRun)
      → r.loop_ended ≡ false
      → Loops r
      → IsLooped batch_size writer
          (flush_round batch_size writer event r.flushing).0
          (is_ended (event ∷ []))
  next-Loops event r going h =
      next-IsLooped event r.flushing (subst (IsLooped batch_size writer r.flushing) going h)

  module _ (r t : ConsumerRun) (h : Loops r) where
    call_back-Loops :
        (pm : PendingMsg) (o : Option PendingMsg) → call_back pm r o ≡ some t → Loops t
    unfolding call_back
    call_back-Loops pm none e = carried e h
    call_back-Loops pm (some _) e = cc

    send_pending-Loops : (o : Option PendingMsg) → send_pending batch_size r o ≡ some t → Loops t
    unfolding send_pending
    send_pending-Loops none e = cc
    send_pending-Loops (some pm) e = elim (Bool-cases (ltb (length r.pending) (batch_size * 2))) [
      | inl room ↦
          carried {t = t} {u = record r { pending = r.pending ++ pm ∷ []; in_hand = none }}
            (ground arith) h
      | inr full ↦ ground arith
    ]

    give_up_pending-Loops :
        (late : Bool) (o : Option PendingMsg) → give_up_pending r late o ≡ some t → Loops t
    unfolding give_up_pending
    give_up_pending-Loops true (some pm) e = carried e h
    give_up_pending-Loops true none e = cc
    give_up_pending-Loops false none e = cc
    give_up_pending-Loops false (some _) e = cc

    take_pending-Loops :
        (ended : Bool) (queue : List PendingMsg)
        → r.loop_ended ≡ ended
        → take_pending batch_size writer r ended queue ≡ some t
        → Loops t
    unfolding take_pending
    take_pending-Loops false (pm ∷ rest) l e =
        carried e (subst (IsLooped batch_size writer _) (sym l) (next-Loops (arrives pm) r l h))
    take_pending-Loops true queue l e = cc
    take_pending-Loops false [] l e = cc

    tick_flush-Loops :
        (ended : Bool)
        → r.loop_ended ≡ ended
        → tick_flush batch_size writer r ended ≡ some t
        → Loops t
    unfolding tick_flush
    tick_flush-Loops false l e =
        carried e (subst (IsLooped batch_size writer _) (sym l) (next-Loops ticks r l h))
    tick_flush-Loops true l e = cc

    end_loop-Loops :
        (ended late : Bool)
        → r.loop_ended ≡ ended
        → end_loop batch_size writer r ended late ≡ some t
        → Loops t
    unfolding end_loop
    end_loop-Loops false true l e = carried e (next-Loops ctx_done r l h)
    end_loop-Loops true late l e = cc
    end_loop-Loops false false l e = cc

    step-Loops :
        (event : ConsumerEvent) → consumer_step batch_size writer event r ≡ some t → Loops t
    unfolding consumer_step
    step-Loops (callback pm) e = call_back-Loops pm r.in_hand e
    step-Loops sends e = send_pending-Loops r.in_hand e
    step-Loops gives_up e = give_up_pending-Loops r.cancelled r.in_hand e
    step-Loops takes e = take_pending-Loops r.loop_ended r.pending refl e
    step-Loops interval e = tick_flush-Loops r.loop_ended refl e
    step-Loops ends e = end_loop-Loops r.loop_ended r.cancelled refl e
    step-Loops cancel e = carried e h

  run-Loops : {r : ConsumerRun} → RunsTo batch_size writer start_run r → Loops r
  run-Loops stays = record { events = []; same = unfold flush_loop in refl; over = refl }
  run-Loops (then_step event run e) = step-Loops _ _ (run-Loops run) event e

-- A state of the consumer, seen as a run of `flushLoop` by itself.
pub record IsFlushLoop (batch_size : ℕ) (writer : Writer) (r : ConsumerRun) : Type 0 where
  -- what the loop has received, and what has been through the callback, oldest first
  pub events : List FlushEvent
  pub through : List ℕ
  pub same : r.flushing ≡ flush_loop batch_size writer events start_flushing
  pub over : r.loop_ended ≡ is_ended events
  pub arrived : Interleaved (received_msgs events ++ msgs r.pending) (refused r) through
  pub received : msgs r.received ≡ through ++ held r.in_hand

-- However the callback, the loop, the ticker and the end of the context follow one another, the loop
-- has done what `flushLoop` does by itself on some list of events, which has the end of the context in
-- it exactly if the loop has returned; the messages that arrive in those events, followed by those in
-- the channel, are, in order, those that have been through the callback and were not given up.
pub run-IsFlushLoop :
    (batch_size : ℕ) (writer : Writer) {r : ConsumerRun}
    → RunsTo batch_size writer start_run r
    → IsFlushLoop batch_size writer r
run-IsFlushLoop batch_size writer {r} run =
    let h = run-IsKept batch_size writer run in
    let l = run-Loops batch_size writer run in
    let settled =
      ap handled l.same
      ∙ (flush_loop-Conserved batch_size writer l.events start_flushing).all_once in
    record {
      events = l.events;
      through = h.through;
      same = l.same;
      over = l.over;
      arrived =
          subst (λ xs. Interleaved (xs ++ msgs r.pending) (refused r) h.through) settled h.kept;
      received = h.received;
    }
