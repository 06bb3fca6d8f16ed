-- ===== src/Dispatcher/Attempts.antt =====
-- When `dispatchStatusUpdate` panics, and what it records.
use notip_data_consumer.Prelude.{true, false, ◌≡◌, refl, ◌∷◌, ◌++◌, [], arith}
use notip_data_consumer.Prelude.Outcome.{returns, panics}
use notip_data_consumer.Model.{GatewayStatusUpdate}
use notip_data_consumer.Dispatcher.{
  Worker, looking, waiting, stopped, received, Dispatcher, offer, note_attempt,
  dispatch_status_update, advance, receive, worker_step,
}

attempted-offer :
    (w : Worker) (u : GatewayStatusUpdate) (d : Dispatcher) → (offer w u d).attempted ≡ d.attempted
unfolding offer
attempted-offer waiting u d = refl
attempted-offer looking u d = ground arith
attempted-offer stopped u d = ground arith
attempted-offer (received job) u d = ground arith

closed-offer :
    (w : Worker) (u : GatewayStatusUpdate) (d : Dispatcher) → (offer w u d).closed ≡ d.closed
unfolding offer
closed-offer waiting u d = refl
closed-offer looking u d = ground arith
closed-offer stopped u d = ground arith
closed-offer (received job) u d = ground arith

pub attempted-dispatch :
    (u : GatewayStatusUpdate) (d d' : Dispatcher)
    → dispatch_status_update u d ≡ returns d'
    → d'.attempted ≡ d.attempted ++ u ∷ []
unfolding dispatch_status_update
attempted-dispatch u d d' h = ground (arith, attempted-offer d.worker u (note_attempt u d))

pub dispatch-closed :
    (u : GatewayStatusUpdate) (d : Dispatcher)
    → d.closed ≡ true
    → dispatch_status_update u d ≡ panics
unfolding dispatch_status_update
dispatch-closed u d h = ground arith

-- On an open channel the call returns, and the channel stays open.
pub dispatch-opened :
    (u : GatewayStatusUpdate) (d : Dispatcher)
    → d.closed ≡ false
    → (d' : Dispatcher) × (dispatch_status_update u d ≡ returns d') × (d'.closed ≡ false)
unfolding dispatch_status_update
dispatch-opened u d h = (
  offer d.worker u (note_attempt u d),
  ground arith,
  ground (arith, closed-offer d.worker u (note_attempt u d)),
)

attempted-advance : (w : Worker) (d : Dispatcher) → (advance w d).attempted ≡ d.attempted
unfolding advance receive
attempted-advance looking d = ground arith
attempted-advance waiting d = ground arith
attempted-advance stopped d = refl
attempted-advance (received job) d = refl

pub attempted-worker_step : (d : Dispatcher) → (worker_step d).attempted ≡ d.attempted
unfolding worker_step
attempted-worker_step d = attempted-advance d.worker d
