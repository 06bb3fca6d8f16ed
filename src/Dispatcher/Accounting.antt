-- ===== src/Dispatcher/Accounting.antt =====
-- No status update is lost or reordered by the channel unless the counter of drops says so.
use notip_data_consumer.Prelude.{
  ℕ, ◌+◌, ◌≤◌, ◌≡◌, refl, ap, sym, Bool, true, false, List, [], ◌∷◌, ◌++◌, append_assoc, append-nil,
  arith, length, length-append, Subseq, Subseq-snoc, Subseq-skip_last, done, ltb, Bool-cases, inl,
  inr, if◌then◌else◌, subst,
}
use notip_data_consumer.Prelude.Outcome.{returns}
use notip_data_consumer.Model.{GatewayStatusUpdate}
use notip_data_consumer.Dispatcher.{
  Worker, looking, waiting, stopped, received, Dispatcher, start, offer, note_attempt,
  dispatch_status_update, worker_step, receive, advance, close_channel,
}

abbrev pub in_flight : Worker → List GatewayStatusUpdate
in_flight (received job) = job ∷ []
in_flight _ = []

-- What was sent and has not been dropped, oldest first.
abbrev pub accepted : Dispatcher → List GatewayStatusUpdate
accepted d = d.delivered ++ (in_flight d.worker ++ d.queue)

-- A worker that waits or has stopped has left nothing behind, and stops only on a closed channel.
abbrev pub QuietWorker : Worker → List GatewayStatusUpdate → Bool → Type 0
QuietWorker waiting queue closed = queue ≡ []
QuietWorker stopped queue closed = (queue ≡ []) × (closed ≡ true)
QuietWorker _ queue closed = Unit {0}

pub record IsAccounted (d : Dispatcher) : Type 0 where
  pub in_order : Subseq (accepted d) d.attempted
  pub counted : length (accepted d) + d.dropped ≡ length d.attempted
  pub bounded : length d.queue ≤ d.capacity
  pub quiet : QuietWorker d.worker d.queue d.closed

pub start-IsAccounted : (n : ℕ) → IsAccounted (start n)
unfolding start
start-IsAccounted n = record { in_order = done; counted = refl; bounded = omega arith; quiet = tt }

stopped_closed : (d : Dispatcher) → d.worker ≡ stopped → d.closed ≡ false → IsAccounted d → ⊥
stopped_closed d e opened h =
    let quiet : QuietWorker stopped d.queue d.closed =
      subst (λ x. QuietWorker x d.queue d.closed) e h.quiet in
    cc (quiet.1)

module _ (u : GatewayStatusUpdate) where
  -- The three ends of a send, as equations on what is accepted.
  accepted_last :
      (a b c : List GatewayStatusUpdate) → a ++ (b ++ (c ++ u ∷ [])) ≡ (a ++ (b ++ c)) ++ u ∷ []
  accepted_last a b c = simp append_assoc

  in_order_sent :
      {xs ys zs : List GatewayStatusUpdate}
      → zs ≡ xs ++ u ∷ []
      → Subseq xs ys
      → Subseq zs (ys ++ u ∷ [])
  in_order_sent e s = rw e (Subseq-snoc u s)

  length-snoc : (xs : List GatewayStatusUpdate) → length (xs ++ u ∷ []) ≡ length xs + 1
  length-snoc xs = length-append xs (u ∷ [])

  enqueued-IsAccounted :
      (d : Dispatcher)
      → IsAccounted d
      → length d.queue + 1 ≤ d.capacity
      → QuietWorker d.worker (d.queue ++ u ∷ []) d.closed
      → IsAccounted (record d { queue = d.queue ++ u ∷ []; attempted = d.attempted ++ u ∷ [] })
  enqueued-IsAccounted d h room quiet = record {
    in_order = in_order_sent (accepted_last d.delivered (in_flight d.worker) d.queue) h.in_order;
    counted =
        rw (accepted_last d.delivered (in_flight d.worker) d.queue)
          (omega (arith, h.counted, length-snoc (accepted d), length-snoc d.attempted));
    bounded = omega (arith, length-snoc d.queue);
    quiet = quiet;
  }

  dropped-IsAccounted :
      (d : Dispatcher)
      → IsAccounted d
      → IsAccounted (record d { dropped = d.dropped + 1; attempted = d.attempted ++ u ∷ [] })
  dropped-IsAccounted d h = record {
    in_order = Subseq-skip_last u h.in_order;
    counted = omega (arith, h.counted, length-snoc d.attempted);
    bounded = h.bounded;
    quiet = h.quiet;
  }

  handed_over-IsAccounted :
      (d : Dispatcher)
      → IsAccounted d
      → d.worker ≡ waiting
      → IsAccounted (record d { worker = received u; attempted = d.attempted ++ u ∷ [] })
  handed_over-IsAccounted d h w =
      let empty : d.queue ≡ [] = subst (λ x. QuietWorker x d.queue d.closed) w h.quiet in
      let same : d.delivered ++ (u ∷ d.queue) ≡ accepted d ++ u ∷ [] =
        rw (empty, w) (simp append-nil) in
      record {
        in_order = in_order_sent same h.in_order;
        counted =
            rw same (omega (arith, h.counted, length-snoc (accepted d), length-snoc d.attempted));
        bounded = h.bounded;
        quiet = tt;
      }

  buffered-IsAccounted :
      (d : Dispatcher)
      → IsAccounted d
      → ((q : List GatewayStatusUpdate) → QuietWorker d.worker q d.closed)
      → IsAccounted (
          if ltb (length d.queue) d.capacity
          then record d { queue = d.queue ++ u ∷ []; attempted = d.attempted ++ u ∷ [] }
          else record d { dropped = d.dropped + 1; attempted = d.attempted ++ u ∷ [] })
  buffered-IsAccounted d h quiet = elim (Bool-cases (ltb (length d.queue) d.capacity)) [
    | inl room ↦ rw room (enqueued-IsAccounted d h (ground arith) (quiet (d.queue ++ u ∷ [])))
    | inr full ↦ rw full (dropped-IsAccounted d h)
  ]

  offer-IsAccounted :
      (w : Worker) (d : Dispatcher)
      → d.worker ≡ w
      → d.closed ≡ false
      → IsAccounted d
      → IsAccounted (offer w u (note_attempt u d))
  unfolding offer note_attempt
  offer-IsAccounted waiting d e opened h = handed_over-IsAccounted d h e
  offer-IsAccounted looking d e opened h =
      buffered-IsAccounted d h (λ q. subst (λ x. QuietWorker x q d.closed) (sym e) tt)
  offer-IsAccounted (received job) d e opened h =
      buffered-IsAccounted d h (λ q. subst (λ x. QuietWorker x q d.closed) (sym e) tt)
  offer-IsAccounted stopped d e opened h = absurd (stopped_closed d e opened h)

-- A call of `dispatchStatusUpdate` that returns keeps the accounts.
pub dispatch_status_update-IsAccounted :
    (u : GatewayStatusUpdate) (d d' : Dispatcher)
    → dispatch_status_update u d ≡ returns d'
    → IsAccounted d
    → IsAccounted d'
unfolding dispatch_status_update
dispatch_status_update-IsAccounted u d d' e h = elim (Bool-cases d.closed) [
  | inl shut ↦ absurd (ground arith)
  | inr opened ↦
      let sent : offer d.worker u (note_attempt u d) ≡ d' = ground arith in
      subst IsAccounted sent (offer-IsAccounted u d.worker d refl opened h)
]

closing-QuietWorker :
    (w : Worker) (q : List GatewayStatusUpdate) (b : Bool)
    → QuietWorker w q b
    → QuietWorker w q true
closing-QuietWorker waiting q b h = h
closing-QuietWorker stopped q b h = (h.0, refl)
closing-QuietWorker looking q b h = tt
closing-QuietWorker (received job) q b h = tt

-- A step of the worker moves a job along, and accepts and drops nothing.
moved-IsAccounted :
    (d d' : Dispatcher)
    → IsAccounted d
    → accepted d' ≡ accepted d
    → d'.attempted ≡ d.attempted
    → d'.dropped ≡ d.dropped
    → length d'.queue ≤ d'.capacity
    → QuietWorker d'.worker d'.queue d'.closed
    → IsAccounted d'
moved-IsAccounted d d' h same asked lost bounded quiet = record {
  in_order = rw (same, asked) h.in_order;
  counted = rw (same, asked, lost) h.counted;
  bounded = bounded;
  quiet = quiet;
}

received-IsAccounted :
    (d : Dispatcher) (q : List GatewayStatusUpdate) (b : Bool)
    → in_flight d.worker ≡ []
    → d.queue ≡ q
    → d.closed ≡ b
    → IsAccounted d
    → IsAccounted (receive q b d)
unfolding receive
received-IsAccounted d (job ∷ rest) b idle e c h =
    moved-IsAccounted d _ h (rw (idle, e)) refl refl (omega (arith, h.bounded, ap length e)) tt
received-IsAccounted d [] true idle e c h =
    moved-IsAccounted d _ h (rw idle) refl refl h.bounded (e, c)
received-IsAccounted d [] false idle e c h = moved-IsAccounted d _ h (rw idle) refl refl h.bounded e

advanced-IsAccounted :
    (d : Dispatcher) (w : Worker) → d.worker ≡ w → IsAccounted d → IsAccounted (advance w d)
unfolding advance
advanced-IsAccounted d looking e h = received-IsAccounted d d.queue d.closed (rw e) refl refl h
advanced-IsAccounted d waiting e h = received-IsAccounted d d.queue d.closed (rw e) refl refl h
advanced-IsAccounted d (received job) e h =
    moved-IsAccounted d _ h (rw e (simp append_assoc)) refl refl h.bounded tt
advanced-IsAccounted d stopped e h = h

-- A step of the worker keeps the accounts.
pub worker_step-IsAccounted : (d : Dispatcher) → IsAccounted d → IsAccounted (worker_step d)
unfolding worker_step
worker_step-IsAccounted d h = advanced-IsAccounted d d.worker refl h

-- So does the closing of the channel.
pub close_channel-IsAccounted : (d : Dispatcher) → IsAccounted d → IsAccounted (close_channel d)
unfolding close_channel
close_channel-IsAccounted d h = record {
  in_order = h.in_order;
  counted = h.counted;
  bounded = h.bounded;
  quiet = closing-QuietWorker d.worker d.queue d.closed h.quiet;
}

-- What happens to the dispatcher: a call of `dispatchStatusUpdate` that returns, a step of the
-- worker, and the closing of the channel, in any order.
pub data DispatchStep (d : Dispatcher) (d' : Dispatcher) : Type 0 where
  send : (u : GatewayStatusUpdate) → dispatch_status_update u d ≡ returns d' → DispatchStep d d'
  work : d' ≡ worker_step d → DispatchStep d d'
  shut : d' ≡ close_channel d → DispatchStep d d'

pub data DispatchReach (d : Dispatcher) : Dispatcher → Type 0 where
  here : DispatchReach d d
  next : {c e : Dispatcher} → DispatchReach d c → DispatchStep c e → DispatchReach d e

DispatchStep-IsAccounted : (c e : Dispatcher) → DispatchStep c e → IsAccounted c → IsAccounted e
DispatchStep-IsAccounted c e (send u r) h = dispatch_status_update-IsAccounted u c e r h
DispatchStep-IsAccounted c e (work r) h = rw r (worker_step-IsAccounted c h)
DispatchStep-IsAccounted c e (shut r) h = rw r (close_channel-IsAccounted c h)

-- In every state that a new dispatcher with a channel of capacity `n` can reach, the delivered
-- updates followed by the undelivered ones in the worker and in the channel are a subsequence, in
-- order, of the updates handed to `dispatchStatusUpdate`; together with the counter of drops they
-- are as many as those; the channel holds no more than its capacity; and a worker that waits or has
-- stopped has left nothing in the channel.
pub reached-IsAccounted : (n : ℕ) {d : Dispatcher} → DispatchReach (start n) d → IsAccounted d
reached-IsAccounted n here = start-IsAccounted n
reached-IsAccounted n (next {c} {e} r st) =
    DispatchStep-IsAccounted c e st (reached-IsAccounted n r)
