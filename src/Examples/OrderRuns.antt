-- ===== src/Examples/OrderRuns.antt =====
-- Two gateways fall silent, and the map yields them in either order.
use notip_data_consumer.Prelude.{◌≡◌, refl, subst, Bool-cases, inl, inr, none, [], ◌∷◌, List}
use notip_data_consumer.Prelude.Bytes.{lit, bytes_eqb}
use notip_data_consumer.Prelude.GoMap.{lookup, insert}
use notip_data_consumer.Prelude.Int.{pos, int64, ◌*ℤ◌, ◌+ℤ◌}
use notip_data_consumer.Prelude.Outcome.{returns, ok}
use notip_data_consumer.Model.{milliseconds, offline, lifecycle_online}
use notip_data_consumer.Dispatcher.{start, dispatch_status_update}
use notip_data_consumer.Tracker.{
  GatewayKey, HeartbeatEntry, Tracker, Ports, key_eq, key_eqb, key_eqb_iff, fresh_entry,
  offline_update, alert_payload, Call, query, alert, dispatch, mark_offline, examine, tick,
}
use notip_data_consumer.Tracker.Snapshot.{find_entry, IsSnapshot}
use notip_data_consumer.Tracker.AnyOrder.{IsSameTick, tick_any_order}

abbrev first_key : GatewayKey
first_key = record { tenant_id = lit "t1"; gateway_id = lit "g1" }

abbrev second_key : GatewayKey
second_key = record { tenant_id = lit "t1"; gateway_id = lit "g2" }

abbrev first_entry : HeartbeatEntry
first_entry = fresh_entry first_key (pos 10)

abbrev second_entry : HeartbeatEntry
second_entry = fresh_entry second_key (pos 20)

abbrev tracker : Tracker
tracker = record {
  start_time = pos 0;
  grace_period = pos 0;
  beats = (first_key, first_entry) ∷ (second_key, second_entry) ∷ [];
  dispatcher = start 4;
  map_size = 2;
}

abbrev ports : Ports
ports = record {
  timeout_for = λ tenant_id gateway_id. pos 1;
  lifecycle = λ tenant_id gateway_id. ok lifecycle_online;
  publish = λ tenant_id payload. none;
}

-- After a `Tick` that met the two entries in this order.
abbrev after_tick : HeartbeatEntry → HeartbeatEntry → Tracker
after_tick e f = record tracker {
  beats =
      (first_key, record first_entry { known_status = offline })
      ∷ (second_key, record second_entry { known_status = offline })
      ∷ [];
  dispatcher = record (start 4) {
    queue = offline_update e ∷ offline_update f ∷ [];
    attempted = offline_update e ∷ offline_update f ∷ [];
  };
}

abbrev asked : GatewayKey → HeartbeatEntry → List Call → List Call
asked k e later = query k ∷ alert (lit "t1") (alert_payload ports (pos 2000000) e) ∷ later

in_order :
    tick ports (pos 2000000) (pos 2000000) (first_entry ∷ second_entry ∷ []) tracker
    ≡ returns (
      after_tick first_entry second_entry,
      asked first_key first_entry (asked second_key second_entry []),
    )
unfolding tick examine milliseconds int64 ◌*ℤ◌ ◌+ℤ◌ lookup insert bytes_eqb dispatch
    dispatch_status_update start mark_offline
in_order = refl

reversed :
    tick ports (pos 2000000) (pos 2000000) (second_entry ∷ first_entry ∷ []) tracker
    ≡ returns (
      after_tick second_entry first_entry,
      asked second_key second_entry (asked first_key first_entry []),
    )
unfolding tick examine milliseconds int64 ◌*ℤ◌ ◌+ℤ◌ lookup insert bytes_eqb dispatch
    dispatch_status_update start mark_offline
reversed = refl

in_order-IsSnapshot : IsSnapshot (first_entry ∷ second_entry ∷ []) tracker.beats
unfolding find_entry lookup bytes_eqb
in_order-IsSnapshot = record { distinct = (refl, (refl, tt)); complete = λ k. refl }

reversed-IsSnapshot : IsSnapshot (second_entry ∷ first_entry ∷ []) tracker.beats
unfolding find_entry lookup bytes_eqb
reversed-IsSnapshot = record {
  distinct = (refl, (refl, tt));
  complete = λ k. elim (Bool-cases (key_eqb first_key k)) [
    | inl own ↦
        subst (λ j. find_entry j (second_entry ∷ first_entry ∷ []) ≡ lookup j tracker.beats)
          ((key_eqb_iff first_key k).0 own) refl
    | inr other ↦ rw other refl
  ];
}

tick_any_order_example :
    IsSameTick
      (after_tick first_entry second_entry)
      (after_tick second_entry first_entry)
      (asked first_key first_entry (asked second_key second_entry []))
      (asked second_key second_entry (asked first_key first_entry []))
tick_any_order_example =
    tick_any_order ports (pos 2000000) (pos 2000000) (first_entry ∷ second_entry ∷ [])
      (second_entry ∷ first_entry ∷ []) tracker (after_tick first_entry second_entry)
      (after_tick second_entry first_entry)
      (asked first_key first_entry (asked second_key second_entry []))
      (asked second_key second_entry (asked first_key first_entry [])) in_order-IsSnapshot
      reversed-IsSnapshot in_order reversed
