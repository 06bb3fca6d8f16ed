-- ===== src/Examples/ServiceRuns.antt =====
-- Two messages, one of which does not name its tenant, through the whole consumer.
use notip_data_consumer.Prelude.{◌≡◌, refl, false, none, List, [], ◌∷◌, All}
use notip_data_consumer.Prelude.Bytes.{Bytes, lit}
use notip_data_consumer.Prelude.GoMap.{lookup, insert}
use notip_data_consumer.Prelude.Int.{pos}
use notip_data_consumer.Prelude.Outcome.{returns, Result, ok}
use notip_data_consumer.Model.{TelemetryEnvelope}
use notip_data_consumer.Subject.{split, extract_tenant_id}
use notip_data_consumer.Dispatcher.{start, dispatch_status_update}
use notip_data_consumer.Tracker.{new_heartbeat_tracker, handle_telemetry}
use notip_data_consumer.TelemetryConsumer.{
  FlushState, ack, term, process_message, flush_loop, flush_round, valid_rows, write_batch,
}
use notip_data_consumer.Adapters.{write_batch as insert_batch}
use notip_data_consumer.Service.{
  Incoming, message, interval, stop, Database, row_writer, receive_msg, queue_all, tracker_handler,
  run_consumer,
}
use notip_data_consumer.Service.Delivery.{messages, IsDelivered, acks-AreDelivered}
use notip_data_consumer.Service.Stored.{IsStored, run_consumer-IsStored}
use notip_data_consumer.Service.Returns.{ReturnsOpen, run_consumer-ReturnsOpen}
use notip_data_consumer.Examples.ConsumerRuns.{row}
use notip_data_consumer.Examples.TrackerRuns.{envelope, heard_tracker}

abbrev unmarshal : Bytes → Result Bytes TelemetryEnvelope
unmarshal content = ok envelope

-- Every statement succeeds.
abbrev db : Database
db n i = none

abbrev incoming : List Incoming
incoming =
    message (pos 10) (record { number = 1; subject = lit "telemetry.data.t1.g1"; content = [] })
    ∷ message (pos 11) (record { number = 2; subject = lit "telemetry.data.t1"; content = [] })
    ∷ interval
    ∷ stop
    ∷ []

abbrev run_state : FlushState
run_state = record {
  buf = [];
  writes = 1;
  handed = (0, row ∷ []) ∷ [];
  metrics = record {
    message_parsing_errors = 1;
    messages_written = 1;
    write_errors = 0;
    batch_sizes = 1 ∷ [];
  };
  acks = (1, ack) ∷ (2, term) ∷ [];
}

consumer_ran :
    run_consumer unmarshal 100 db incoming (new_heartbeat_tracker (pos 0) (pos 0) 4)
    ≡ returns (heard_tracker, run_state)
unfolding run_consumer queue_all receive_msg tracker_handler process_message extract_tenant_id split
    handle_telemetry new_heartbeat_tracker lookup insert dispatch_status_update start flush_loop
    flush_round write_batch valid_rows row_writer insert_batch
consumer_ran = refl

acks-AreDelivered_example :
    All (IsDelivered unmarshal db (messages incoming) run_state.handed) run_state.acks
acks-AreDelivered_example =
    acks-AreDelivered unmarshal 100 db incoming (new_heartbeat_tracker (pos 0) (pos 0) 4)
      heard_tracker run_state consumer_ran

new_open : (new_heartbeat_tracker (pos 0) (pos 0) 4).dispatcher.closed ≡ false
unfolding new_heartbeat_tracker start
new_open = refl

run_consumer-ReturnsOpen_example :
    ReturnsOpen (run_consumer unmarshal 100 db incoming (new_heartbeat_tracker (pos 0) (pos 0) 4))
run_consumer-ReturnsOpen_example =
    run_consumer-ReturnsOpen unmarshal 100 db incoming (new_heartbeat_tracker (pos 0) (pos 0) 4)
      new_open

run_consumer-IsStored_example : IsStored unmarshal (messages incoming) run_state
run_consumer-IsStored_example =
    run_consumer-IsStored unmarshal 100 db incoming (new_heartbeat_tracker (pos 0) (pos 0) 4)
      heard_tracker run_state consumer_ran
