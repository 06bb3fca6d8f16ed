-- ===== src/Examples/ChannelRuns.antt =====
-- A message waits in the callback while another stands in the channel, and one is left there.
use notip_data_consumer.Prelude.{refl, some, none, [], ◌∷◌, true, arith}
use notip_data_consumer.TelemetryConsumer.{ack, flush_round, valid_rows, write_batch}
use notip_data_consumer.TelemetryConsumer.Channel.{
  ConsumerRun, start_run, callback, sends, cancel, ends, takes, interval, consumer_step, RunsTo,
  stays, then_step,
}
use notip_data_consumer.TelemetryConsumer.Channel.Accounts.{IsKept}
use notip_data_consumer.TelemetryConsumer.Channel.Kept.{run-IsKept}
use notip_data_consumer.TelemetryConsumer.Channel.Progress.{Leaves, in_hand-Leaves}
use notip_data_consumer.TelemetryConsumer.Channel.Safe.{IsSafeRun, run-IsSafeRun}
use notip_data_consumer.TelemetryConsumer.Channel.Refines.{IsFlushLoop, run-IsFlushLoop}
use notip_data_consumer.Examples.ConsumerRuns.{row, good, unlucky, writer}

-- One message in the channel, one in the callback.
abbrev waiting_run : ConsumerRun
waiting_run = record start_run {
  pending = good ∷ [];
  in_hand = some unlucky;
  received = good ∷ unlucky ∷ [];
  messages_received = 2;
}

waiting-RunsTo : RunsTo 2 writer start_run waiting_run
unfolding consumer_step
waiting-RunsTo =
    then_step (callback unlucky) (then_step sends (then_step (callback good) stays refl) refl) refl

-- The loop has taken the first message and stored its row when the ticker fires, the callback sends
-- the other message, and the loop returns while that is in the channel.
abbrev over : ConsumerRun
over = record {
  pending = unlucky ∷ [];
  in_hand = none;
  flushing = record {
    buf = [];
    writes = 1;
    handed = (0, row ∷ []) ∷ [];
    metrics = record {
      message_parsing_errors = 0;
      messages_written = 1;
      write_errors = 0;
      batch_sizes = 1 ∷ [];
    };
    acks = (1, ack) ∷ [];
  };
  loop_ended = true;
  cancelled = true;
  given_up = [];
  received = good ∷ unlucky ∷ [];
  messages_received = 2;
}

over-RunsTo : RunsTo 2 writer start_run over
unfolding consumer_step flush_round write_batch valid_rows
over-RunsTo =
    then_step ends
      (then_step cancel
        (then_step sends (then_step interval (then_step takes waiting-RunsTo refl) refl) refl) refl)
      refl

run-IsKept_example : IsKept 2 over
run-IsKept_example = run-IsKept 2 writer over-RunsTo

in_hand-Leaves_example : Leaves 2 writer waiting_run
in_hand-Leaves_example = in_hand-Leaves 2 writer unlucky (omega arith) waiting-RunsTo refl

run-IsFlushLoop_example : IsFlushLoop 2 writer over
run-IsFlushLoop_example = run-IsFlushLoop 2 writer over-RunsTo

run-IsSafeRun_example : IsSafeRun writer over
run-IsSafeRun_example = run-IsSafeRun 2 writer over-RunsTo
