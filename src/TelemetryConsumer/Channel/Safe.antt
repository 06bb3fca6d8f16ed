-- ===== src/TelemetryConsumer/Channel/Safe.antt =====
-- The acknowledgements of the callback and of the loop together, and what the database has taken.
use mathlib.Core.List.{Memᴰ}
use notip_data_consumer.Prelude.{
  ℕ, ◌*◌, ◌≡◌, refl, subst, Bool, true, false, inl, inr, Option, none, some, List, [], ◌∷◌, ◌++◌,
  length, ltb, arith, Bool-cases, All, All-append,
}
use notip_data_consumer.Prelude.Members.{Memᴰ-front, Memᴰ-back, All-map_in}
use notip_data_consumer.TelemetryConsumer.{PendingMsg, Writer, ticks, flush_round}
use notip_data_consumer.TelemetryConsumer.Persisted.{
  IsPersisted, IsSafe, flush-IsSafe, arrival-IsSafe, known-IsSafe,
}
use notip_data_consumer.TelemetryConsumer.Channel.{
  ConsumerRun, start_run, ConsumerEvent, callback, sends, gives_up, takes, interval, ends, cancel,
  consumer_step, RunsTo, stays, then_step, call_back, send_pending, give_up_pending, take_pending,
  tick_flush, end_loop,
}
use notip_data_consumer.TelemetryConsumer.Channel.Accounts.{IsNoAck}
use notip_data_consumer.TelemetryConsumer.Channel.Kept.{run-IsKept}

-- The callback has been called for the message, and `processMessage` made of it what it is.
abbrev IsCalled : ConsumerRun → PendingMsg → Type 0
IsCalled r pm = Memᴰ pm r.received

-- What is in hand, in the channel or in the buffer has come through the callback, and what is
-- acknowledged has been stored.
record IsHonest (writer : Writer) (r : ConsumerRun) : Type 0 where
  in_channel : All (IsCalled r) r.pending
  in_callback : (pm : PendingMsg) → r.in_hand ≡ some pm → IsCalled r pm
  in_loop : IsSafe writer r.received r.flushing

module _ (batch_size : ℕ) (writer : Writer) where
  carried : {t u : ConsumerRun} → some u ≡ some t → IsHonest writer u → IsHonest writer t
  carried {t} {u} e h = let same : u ≡ t = ground arith in subst (IsHonest writer) same h

  module _ (r t : ConsumerRun) (h : IsHonest writer r) where
    call_back-IsHonest :
        (pm : PendingMsg) (o : Option PendingMsg) → call_back pm r o ≡ some t → IsHonest writer t
    unfolding call_back
    call_back-IsHonest pm (some _) e = cc
    call_back-IsHonest pm none e = carried e (record {
      in_channel =
          All-map_in (IsCalled r) (λ p. Memᴰ p (r.received ++ pm ∷ [])) r.pending
            (λ p m. Memᴰ-front r.received (pm ∷ []) p m) h.in_channel;
      in_callback = λ p held. Memᴰ-back r.received (pm ∷ []) p (Memᴰ.head (ground (arith, held)));
      in_loop = known-IsSafe writer r.received (pm ∷ []) r.flushing h.in_loop;
    })

    send_pending-IsHonest :
        (o : Option PendingMsg)
        → r.in_hand ≡ o
        → send_pending batch_size r o ≡ some t
        → IsHonest writer t
    unfolding send_pending
    send_pending-IsHonest none held e = cc
    send_pending-IsHonest (some pm) held e =
        elim (Bool-cases (ltb (length r.pending) (batch_size * 2))) [
          | inl room ↦
              carried {t = t} {u = record r { pending = r.pending ++ pm ∷ []; in_hand = none }}
                (ground arith)
                (record {
                  in_channel =
                      All-append (IsCalled r) r.pending (pm ∷ []) h.in_channel
                        (h.in_callback pm held, tt);
                  in_callback = λ p there. cc;
                  in_loop = h.in_loop;
                })
          | inr full ↦ ground arith
        ]

    give_up_pending-IsHonest :
        (late : Bool) (o : Option PendingMsg)
        → give_up_pending r late o ≡ some t
        → IsHonest writer t
    unfolding give_up_pending
    give_up_pending-IsHonest true (some pm) e =
        carried e
          (record { in_channel = h.in_channel; in_callback = λ p there. cc; in_loop = h.in_loop })
    give_up_pending-IsHonest true none e = cc
    give_up_pending-IsHonest false none e = cc
    give_up_pending-IsHonest false (some _) e = cc

    take_pending-IsHonest :
        (ended : Bool) (queue : List PendingMsg)
        → r.pending ≡ queue
        → take_pending batch_size writer r ended queue ≡ some t
        → IsHonest writer t
    unfolding take_pending
    take_pending-IsHonest false (pm ∷ rest) q e =
        let called : All (IsCalled r) (pm ∷ rest) = subst (All (IsCalled r)) q h.in_channel in
        carried e (record {
          in_channel = called.1;
          in_callback = h.in_callback;
          in_loop = arrival-IsSafe writer r.received batch_size pm r.flushing called.0 h.in_loop;
        })
    take_pending-IsHonest true queue q e = cc
    take_pending-IsHonest false [] q e = cc

    flushed :
        (ended : Bool)
        → IsHonest writer (record r {
          flushing = (flush_round batch_size writer ticks r.flushing).0;
          loop_ended = ended;
        })
    unfolding flush_round
    flushed ended = record {
      in_channel = h.in_channel;
      in_callback = h.in_callback;
      in_loop =
          flush-IsSafe writer r.received r.flushing.buf r.flushing h.in_loop.buffered_known
            h.in_loop;
    }

    tick_flush-IsHonest :
        (ended : Bool)
        → r.loop_ended ≡ ended
        → tick_flush batch_size writer r ended ≡ some t
        → IsHonest writer t
    unfolding tick_flush
    tick_flush-IsHonest false l e = carried e (flushed r.loop_ended)
    tick_flush-IsHonest true l e = cc

    end_loop-IsHonest :
        (ended late : Bool) → end_loop batch_size writer r ended late ≡ some t → IsHonest writer t
    unfolding end_loop flush_round
    end_loop-IsHonest false true e = carried e (flushed true)
    end_loop-IsHonest true late e = cc
    end_loop-IsHonest false false e = cc

    step-IsHonest :
        (event : ConsumerEvent)
        → consumer_step batch_size writer event r ≡ some t
        → IsHonest writer t
    unfolding consumer_step
    step-IsHonest (callback pm) e = call_back-IsHonest pm r.in_hand e
    step-IsHonest sends e = send_pending-IsHonest r.in_hand refl e
    step-IsHonest gives_up e = give_up_pending-IsHonest r.cancelled r.in_hand e
    step-IsHonest takes e = take_pending-IsHonest r.loop_ended r.pending refl e
    step-IsHonest interval e = tick_flush-IsHonest r.loop_ended refl e
    step-IsHonest ends e = end_loop-IsHonest r.loop_ended r.cancelled e
    step-IsHonest cancel e =
        carried e
          (record { in_channel = h.in_channel; in_callback = h.in_callback; in_loop = h.in_loop })

  run-IsHonest : {r : ConsumerRun} → RunsTo batch_size writer start_run r → IsHonest writer r
  run-IsHonest stays = record {
    in_channel = tt;
    in_callback = λ pm held. cc;
    in_loop = record { buffered_known = tt; verdicts = tt };
  }
  run-IsHonest (then_step event run e) = step-IsHonest _ _ (run-IsHonest run) event e

-- What the acknowledgements of a run rest on.
pub record IsSafeRun (writer : Writer) (r : ConsumerRun) : Type 0 where
  pub acked : All (IsPersisted writer r.received r.flushing.handed) r.flushing.acks
  pub given_up : All IsNoAck r.given_up

-- However the callback, the loop, the ticker and the end of the context follow one another, and
-- whatever the database does: a message is acknowledged only if the callback has been called for it,
-- `processMessage` made a row of it, and one of the batches that were handed to the database in this
-- run holds that row and was taken without an error; `enqueuePending` acknowledges none.
pub run-IsSafeRun :
    (batch_size : ℕ) (writer : Writer) {r : ConsumerRun}
    → RunsTo batch_size writer start_run r
    → IsSafeRun writer r
run-IsSafeRun batch_size writer run = record {
  acked = (run-IsHonest batch_size writer run).in_loop.verdicts;
  given_up = (run-IsKept batch_size writer run).never_acked;
}
