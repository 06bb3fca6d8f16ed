-- ===== src/TelemetryConsumer/Channel.antt =====
-- The two goroutines of `Run` in internal/adapter/driving/nats_telemetry_consumer.go: the callback of
-- the subscription, with `enqueuePending`, and `flushLoop`, with the channel `pending` between them.
-- The subscription calls the callback for one message at a time.
pub mod Accounts
pub mod Kept
pub mod Progress
pub mod Refines
pub mod Safe
use notip_data_consumer.Prelude.{
  ℕ, ◌+◌, ◌*◌, ◌≡◌, Bool, true, false, Option, none, some, List, [], ◌∷◌, ◌++◌, length, ltb,
  if◌then◌else◌,
}
use notip_data_consumer.TelemetryConsumer.{
  PendingMsg, Ack, give_up, Writer, FlushState, arrives, ctx_done, ticks, flush_round,
  start_flushing,
}

pub record ConsumerRun : Type 0 where
  -- the buffered channel, oldest first
  pub pending : List PendingMsg
  -- the message that the callback holds, once `processMessage` is through
  pub in_hand : Option PendingMsg
  pub flushing : FlushState
  -- whether `flushLoop` has returned
  pub loop_ended : Bool
  -- whether the context is done
  pub cancelled : Bool
  -- what `enqueuePending` has answered itself, oldest first
  pub given_up : List (ℕ × Ack)
  -- the messages for which the callback has been called, with what `processMessage` made of each,
  -- oldest first, and the metric that counts them
  pub received : List PendingMsg
  pub messages_received : ℕ

abbrev pub start_run : ConsumerRun
start_run = record {
  pending = [];
  in_hand = none;
  flushing = start_flushing;
  loop_ended = false;
  cancelled = false;
  given_up = [];
  received = [];
  messages_received = 0;
}

-- What may happen next: the callback gets a message through `processMessage`, its `select` sends it
-- or sees the end of the context, and the `select` of `flushLoop` takes one of its three cases.
pub data ConsumerEvent : Type 0 where
  callback : PendingMsg → ConsumerEvent
  sends gives_up : ConsumerEvent
  takes interval ends : ConsumerEvent
  cancel : ConsumerEvent

call_back : PendingMsg → ConsumerRun → Option PendingMsg → Option ConsumerRun
call_back pm r (some _) = none
call_back pm r none = some (record r {
  in_hand = some pm;
  received = r.received ++ pm ∷ [];
  messages_received = r.messages_received + 1;
})

-- `enqueuePending`, the case of the channel: it is there if the channel has room.
send_pending : ℕ → ConsumerRun → Option PendingMsg → Option ConsumerRun
send_pending batch_size r none = none
send_pending batch_size r (some pm) =
    if ltb (length r.pending) (batch_size * 2)
    then some (record r { pending = r.pending ++ pm ∷ []; in_hand = none })
    else none

-- `enqueuePending`, the case of the context
give_up_pending : ConsumerRun → Bool → Option PendingMsg → Option ConsumerRun
give_up_pending r true (some pm) =
    some (record r { given_up = r.given_up ++ (pm.msg, give_up pm) ∷ []; in_hand = none })
give_up_pending r _ none = none
give_up_pending r false _ = none

module _ (batch_size : ℕ) (writer : Writer) where
  take_pending : ConsumerRun → Bool → List PendingMsg → Option ConsumerRun
  take_pending r false (pm ∷ rest) = some (record r {
    pending = rest;
    flushing = (flush_round batch_size writer (arrives pm) r.flushing).0;
  })
  take_pending r true _ = none
  take_pending r _ [] = none

  tick_flush : ConsumerRun → Bool → Option ConsumerRun
  tick_flush r true = none
  tick_flush r false =
      some (record r { flushing = (flush_round batch_size writer ticks r.flushing).0 })

  end_loop : ConsumerRun → Bool → Bool → Option ConsumerRun
  end_loop r false true = some (record r {
    flushing = (flush_round batch_size writer ctx_done r.flushing).0;
    loop_ended = true;
  })
  end_loop r true _ = none
  end_loop r _ false = none

  -- One step; `none` where the code cannot take it.
  unfoldable pub consumer_step : ConsumerEvent → ConsumerRun → Option ConsumerRun
  unfolding call_back send_pending give_up_pending take_pending tick_flush end_loop
  consumer_step (callback pm) r = call_back pm r r.in_hand
  consumer_step sends r = send_pending batch_size r r.in_hand
  consumer_step gives_up r = give_up_pending r r.cancelled r.in_hand
  consumer_step takes r = take_pending r r.loop_ended r.pending
  consumer_step interval r = tick_flush r r.loop_ended
  consumer_step ends r = end_loop r r.loop_ended r.cancelled
  consumer_step cancel r = some (record r { cancelled = true })

  -- `RunsTo r s`: steps, in any order that the code allows, lead from `r` to `s`.
  pub data RunsTo (r : ConsumerRun) : ConsumerRun → Type 0 where
    stays : RunsTo r r
    then_step :
        {s t : ConsumerRun} (event : ConsumerEvent)
        → RunsTo r s
        → consumer_step event s ≡ some t
        → RunsTo r t
