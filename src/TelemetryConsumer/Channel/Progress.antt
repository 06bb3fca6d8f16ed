-- ===== src/TelemetryConsumer/Channel/Progress.antt =====
-- The message that the callback holds, and the loop that makes room for it.
use notip_data_consumer.Prelude.{
  ℕ, ◌*◌, ◌≤◌, ◌<◌, ◌≡◌, refl, ap, true, false, ◌⊎◌, inl, inr, none, some, List, [], ◌∷◌, ◌++◌,
  length, arith,
}
use notip_data_consumer.TelemetryConsumer.{PendingMsg, Writer, arrives, flush_round, give_up}
use notip_data_consumer.TelemetryConsumer.Channel.{
  ConsumerRun, start_run, ConsumerEvent, sends, gives_up, takes, consumer_step, RunsTo,
  send_pending, give_up_pending, take_pending,
}
use notip_data_consumer.TelemetryConsumer.Channel.Accounts.{IsKept}
use notip_data_consumer.TelemetryConsumer.Channel.Kept.{run-IsKept}

abbrev pub CanStep : ℕ → Writer → ConsumerEvent → ConsumerRun → Type 0
CanStep batch_size writer event r =
    (t : ConsumerRun) × (consumer_step batch_size writer event r ≡ some t)

-- The message in hand leaves the callback: it is sent, or given up, at once, or it is sent as soon as
-- the loop has taken one message from the channel.
abbrev pub Leaves : ℕ → Writer → ConsumerRun → Type 0
Leaves batch_size writer r =
    CanStep batch_size writer sends r
    ⊎ CanStep batch_size writer gives_up r
    ⊎ (s : ConsumerRun) × (consumer_step batch_size writer takes r ≡ some s)
      × CanStep batch_size writer sends s

module _ (batch_size : ℕ) (writer : Writer) where
  can_send :
      (r : ConsumerRun) (pm : PendingMsg)
      → r.in_hand ≡ some pm
      → length r.pending < batch_size * 2
      → CanStep batch_size writer sends r
  unfolding consumer_step
  can_send r pm e room = (
    record r { pending = r.pending ++ pm ∷ []; in_hand = none },
    rw e (unfold send_pending in ground arith),
  )

  can_give_up :
      (r : ConsumerRun) (pm : PendingMsg)
      → r.in_hand ≡ some pm
      → r.cancelled ≡ true
      → CanStep batch_size writer gives_up r
  unfolding consumer_step
  can_give_up r pm e late = (
    record r { given_up = r.given_up ++ (pm.msg, give_up pm) ∷ []; in_hand = none },
    rw (e, late) (unfold give_up_pending in refl),
  )

  can_take :
      (r : ConsumerRun) (pm : PendingMsg) (rest : List PendingMsg)
      → r.loop_ended ≡ false
      → r.pending ≡ pm ∷ rest
      → consumer_step batch_size writer takes r
        ≡ some (record r {
          pending = rest;
          flushing = (flush_round batch_size writer (arrives pm) r.flushing).0;
        })
  unfolding consumer_step
  can_take r pm rest going q = rw (q, going) (unfold take_pending in refl)

  looping-Leaves :
      (r : ConsumerRun) (pm : PendingMsg) (queue : List PendingMsg)
      → 0 < batch_size
      → r.pending ≡ queue
      → length r.pending ≤ batch_size * 2
      → r.in_hand ≡ some pm
      → r.loop_ended ≡ false
      → Leaves batch_size writer r
  looping-Leaves r pm [] size q bounded e going = inl (can_send r pm e (omega (arith, ap length q)))
  looping-Leaves r pm (first ∷ rest) size q bounded e going = inr (
      inr (
        record r {
          pending = rest;
          flushing = (flush_round batch_size writer (arrives first) r.flushing).0;
        },
        can_take r first rest going q,
        can_send _ pm e (omega (arith, ap length q)),
      ))

  kept-Leaves :
      (r : ConsumerRun) (pm : PendingMsg)
      → 0 < batch_size
      → IsKept batch_size r
      → r.in_hand ≡ some pm
      → Leaves batch_size writer r
  kept-Leaves r pm size h e = elim h.ended_late [
    | inl going ↦ looping-Leaves r pm r.pending size refl h.bounded e going
    | inr over ↦ inr (inl (can_give_up r pm e over.0))
  ]

-- If the size of a batch is positive, then in every state that the consumer can reach a message that
-- the callback has in hand can leave it.
pub in_hand-Leaves :
    (batch_size : ℕ) (writer : Writer) {r : ConsumerRun} (pm : PendingMsg)
    → 0 < batch_size
    → RunsTo batch_size writer start_run r
    → r.in_hand ≡ some pm
    → Leaves batch_size writer r
in_hand-Leaves batch_size writer pm size run e =
    kept-Leaves batch_size writer _ pm size (run-IsKept batch_size writer run) e
