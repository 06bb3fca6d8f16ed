-- ===== src/Dispatcher.antt =====
-- The asynchronous dispatch of status updates in internal/service/heartbeat_tracker.go: the channel
-- `dispatchCh`, `dispatchStatusUpdate`, the goroutine `dispatchWorker`, and `Close`.
-- A channel holds what was sent and not yet received, oldest first.
pub mod Accounting
pub mod Drain
pub mod Attempts
use notip_data_consumer.Prelude.{
  ℕ, zero, suc, ◌+◌, Bool, true, false, List, [], ◌∷◌, ◌++◌, ltb, length, if◌then◌else◌,
}
use notip_data_consumer.Prelude.Outcome.{Outcome, returns, panics}
use notip_data_consumer.Model.{GatewayStatusUpdate}

-- Where the worker's goroutine stands: on its way to the receive of its loop, blocked in it, with a
-- received job whose body has not run, or past the end of the loop.
pub data Worker : Type 0 where
  looking waiting stopped : Worker
  received : GatewayStatusUpdate → Worker

pub record Dispatcher : Type 0 where
  pub capacity : ℕ
  pub queue : List GatewayStatusUpdate
  pub closed : Bool
  pub worker : Worker
  -- the counter `StatusUpdateDropped` and the gauge `DispatchQueueLength`
  pub dropped : ℕ
  pub queue_length : ℕ
  -- the record of the model: the arguments of `dispatchStatusUpdate` and of `UpdateStatus` so far
  pub attempted : List GatewayStatusUpdate
  pub delivered : List GatewayStatusUpdate

-- `make(chan statusUpdateJob, n)` and `go t.dispatchWorker()`
unfoldable pub start : ℕ → Dispatcher
start n = record {
  capacity = n;
  queue = [];
  closed = false;
  worker = looking;
  dropped = 0;
  queue_length = 0;
  attempted = [];
  delivered = [];
}

-- A send that cannot block: to the receiver that waits, else into the buffer, else nowhere.
offer : Worker → GatewayStatusUpdate → Dispatcher → Dispatcher
offer waiting update d = record d { worker = received update }
offer _ update d =
    if ltb (length d.queue) d.capacity
    then record d { queue = d.queue ++ update ∷ [] }
    else record d { dropped = d.dropped + 1 }

note_attempt : GatewayStatusUpdate → Dispatcher → Dispatcher
note_attempt update d = record d { attempted = d.attempted ++ update ∷ [] }

-- The `select` with a default: a send on a closed channel panics.
unfoldable pub dispatch_status_update : GatewayStatusUpdate → Dispatcher → Outcome Dispatcher
unfolding offer note_attempt
dispatch_status_update update d =
    if d.closed then panics else returns (offer d.worker update (note_attempt update d))

-- `range t.dispatchCh`: the oldest job; at the end of a closed channel the loop is over.
pub receive : List GatewayStatusUpdate → Bool → Dispatcher → Dispatcher
receive (job ∷ rest) _ d = record d { queue = rest; worker = received job }
receive [] true d = record d { worker = stopped }
receive [] false d = record d { worker = waiting }

pub advance : Worker → Dispatcher → Dispatcher
advance looking d = receive d.queue d.closed d
advance waiting d = receive d.queue d.closed d
advance (received job) d = record d {
  queue_length = length d.queue;
  delivered = d.delivered ++ job ∷ [];
  worker = looking;
}
advance stopped d = d

-- One step of the worker: a receive, or the body of its loop.
unfoldable pub worker_step : Dispatcher → Dispatcher
unfolding receive advance
worker_step d = advance d.worker d

-- `close(t.dispatchCh)`, of which `closeOnce` makes only the first.
unfoldable pub close_channel : Dispatcher → Dispatcher
close_channel d = record d { closed = true }

-- The worker runs `n` steps.
unfoldable pub run_worker : ℕ → Dispatcher → Dispatcher
run_worker zero d = d
run_worker (suc n) d = run_worker n (worker_step d)

-- `Close`: `<-t.done` waits for the worker, which takes a step to each receive and to each body,
-- and one to see the end of the channel.
unfoldable pub close : Dispatcher → Dispatcher
unfolding close_channel run_worker
close d = run_worker (length d.queue + length d.queue + 2) (close_channel d)
