-- ===== src/Examples/DispatcherRuns.antt =====
-- A channel for one update: the second is dropped, the first delivered by `Close`.
use notip_data_consumer.Prelude.{◌≡◌, refl, false, [], ◌∷◌}
use notip_data_consumer.Prelude.Bytes.{lit}
use notip_data_consumer.Prelude.Int.{pos}
use notip_data_consumer.Prelude.Outcome.{returns}
use notip_data_consumer.Model.{GatewayStatusUpdate, online, offline}
use notip_data_consumer.Dispatcher.{
  Dispatcher, looking, start, dispatch_status_update, worker_step, close,
}
use notip_data_consumer.Dispatcher.Accounting.{
  IsAccounted, DispatchReach, here, next, send, reached-IsAccounted, accepted,
}
use notip_data_consumer.Dispatcher.Drain.{IsDrained, close-IsDrained}

abbrev up : GatewayStatusUpdate
up = record { gateway_id = lit "g1"; status = online; last_seen_at = pos 10 }

abbrev down : GatewayStatusUpdate
down = record { gateway_id = lit "g1"; status = offline; last_seen_at = pos 10 }

abbrev one_sent : Dispatcher
one_sent = record {
  capacity = 1;
  queue = up ∷ [];
  closed = false;
  worker = looking;
  dropped = 0;
  queue_length = 0;
  attempted = up ∷ [];
  delivered = [];
}

abbrev two_sent : Dispatcher
two_sent = record one_sent { dropped = 1; attempted = up ∷ down ∷ [] }

first_send : dispatch_status_update up (start 1) ≡ returns one_sent
unfolding dispatch_status_update start
first_send = refl

second_send : dispatch_status_update down one_sent ≡ returns two_sent
unfolding dispatch_status_update
second_send = refl

both_sent : DispatchReach (start 1) two_sent
both_sent = next (next here (send up first_send)) (send down second_send)

reached-IsAccounted_example : IsAccounted two_sent
reached-IsAccounted_example = reached-IsAccounted 1 both_sent

close-IsDrained_example : IsDrained (accepted two_sent) (close two_sent)
close-IsDrained_example = close-IsDrained two_sent (reached-IsAccounted 1 both_sent)

closed_delivered : (close two_sent).delivered ≡ up ∷ []
unfolding close worker_step
closed_delivered = refl
