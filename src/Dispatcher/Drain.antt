-- ===== src/Dispatcher/Drain.antt =====
-- `Close`: the worker delivers all that is in the channel, and ends.
use notip_data_consumer.Prelude.{
  ℕ, zero, suc, ◌+◌, ◌≤◌, ◌≡◌, refl, sym, subst, true, List, [], ◌∷◌, ◌++◌, append_assoc,
  append-nil, arith, length,
}
use native.Mathlib.Nat.{le_refl}
use notip_data_consumer.Model.{GatewayStatusUpdate}
use notip_data_consumer.Dispatcher.{
  Worker, looking, waiting, stopped, received, Dispatcher, worker_step, close_channel, run_worker,
  close,
}
use notip_data_consumer.Dispatcher.Accounting.{
  IsAccounted, close_channel-IsAccounted, QuietWorker, in_flight, accepted,
}

-- The worker has ended with an empty channel, and has delivered `us` in all.
pub record IsDrained (us : List GatewayStatusUpdate) (d : Dispatcher) : Type 0 where
  pub ended : d.worker ≡ stopped
  pub emptied : d.queue ≡ []
  pub told : d.delivered ≡ us
  pub kept_shut : d.closed ≡ true

stopped_stays :
    (n : ℕ) (us : List GatewayStatusUpdate) (d : Dispatcher)
    → IsDrained us d
    → IsDrained us (run_worker n d)
unfolding run_worker worker_step
stopped_stays zero us d h = h
stopped_stays (suc n) us d h =
    let same : worker_step d ≡ d = ground arith in rw same (stopped_stays n us d h)

abbrev after_job : GatewayStatusUpdate → List GatewayStatusUpdate → Dispatcher → Dispatcher
after_job job rest d = record d {
  queue = rest;
  worker = looking;
  queue_length = length rest;
  delivered = d.delivered ++ job ∷ [];
}

-- From the head of its loop the worker needs two steps for a job, and one for the end.
looking_drains :
    (q : List GatewayStatusUpdate) (n : ℕ) (d : Dispatcher)
    → d.worker ≡ looking
    → d.queue ≡ q
    → d.closed ≡ true
    → length q + length q + 1 ≤ n
    → IsDrained (d.delivered ++ q) (run_worker n d)
unfolding run_worker worker_step
looking_drains q zero d w e c room = absurd (omega arith)
looking_drains [] (suc n) d w e c room =
    let last : worker_step d ≡ record d { worker = stopped } = ground arith in
    rw last (
      stopped_stays n (d.delivered ++ []) (record d { worker = stopped })
        (record { ended = refl; emptied = e; told = sym (append-nil _); kept_shut = c }))
looking_drains (job ∷ rest) (suc zero) d w e c room = absurd (omega arith)
looking_drains (job ∷ rest) (suc (suc n)) d w e c room =
    let d' = after_job job rest d in
    let two : worker_step (worker_step d) ≡ d' = ground arith in
    rw two (
      subst (λ us. IsDrained us (run_worker n d')) (append_assoc d.delivered (job ∷ []) rest)
        (looking_drains rest n d' refl refl c (omega arith)))

closed_drains :
    (n : ℕ) (d : Dispatcher) (w : Worker)
    → d.worker ≡ w
    → d.closed ≡ true
    → QuietWorker w d.queue d.closed
    → length d.queue + length d.queue + 2 ≤ n
    → IsDrained (d.delivered ++ (in_flight w ++ d.queue)) (run_worker n d)
unfolding run_worker worker_step
closed_drains zero d w e c quiet room = absurd (omega arith)
closed_drains (suc n) d looking e c quiet room =
    looking_drains d.queue (suc n) d e refl c (omega arith)
closed_drains (suc n) d waiting e c quiet room =
    let last : worker_step d ≡ record d { worker = stopped } = ground arith in
    rw last (
      stopped_stays n (d.delivered ++ d.queue) (record d { worker = stopped })
        (record {
          ended = refl;
          emptied = quiet;
          told = rw quiet (sym (append-nil _));
          kept_shut = c;
        }))
closed_drains (suc n) d stopped e c quiet room =
    stopped_stays (suc n) (d.delivered ++ d.queue) d (record {
      ended = e;
      emptied = quiet.0;
      told = rw quiet.0 (sym (append-nil _));
      kept_shut = c;
    })
closed_drains (suc n) d (received job) e c quiet room =
    let body : worker_step d ≡ after_job job d.queue d = ground arith in
    rw body (
      subst (λ us. IsDrained us (run_worker n (after_job job d.queue d)))
        (append_assoc d.delivered (job ∷ []) d.queue)
        (looking_drains d.queue n (after_job job d.queue d) refl refl c (omega arith)))

-- `Close` comes back with the worker ended, the channel shut and empty, and every update that was
-- accepted before it delivered, in the order in which they were accepted.
pub close-IsDrained : (d : Dispatcher) → IsAccounted d → IsDrained (accepted d) (close d)
unfolding close close_channel
close-IsDrained d h =
    closed_drains _ (close_channel d) d.worker refl refl (close_channel-IsAccounted d h).quiet
      (le_refl _)
