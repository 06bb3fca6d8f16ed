-- ===== src/Metrics/Registered.antt =====
-- `New` of internal/metrics/metrics.go on a registry that has none of its metrics, and once more.
use notip_data_consumer.Prelude.{
  ◌≡◌, refl, sym, ap, ◌∙◌, Bool, true, false, not, ◌&&◌, ◌||◌, Option, none, some, List, [], ◌∷◌,
  ◌==◌, subst, Bool-cases, inl, inr, ==-refl, arith,
}
use notip_data_consumer.Prelude.Bytes.{Bytes, bytes_eq, bytes_eqb, lit}
use notip_data_consumer.Prelude.Outcome.{returns, panics}
use notip_data_consumer.Metrics.{
  Metric, messages_received, message_parsing_errors, messages_written, write_errors, write_latency,
  batch_size, alerts_published, alert_publish_errors, heartbeat_map_size, heartbeat_tick_duration,
  status_update_errors, status_update_dropped, dispatch_queue_length, alert_cache_refresh_errors,
  alert_cache_last_success, nats_reconnects, lifecycle_query_errors, name, all_metrics, registered,
  must_register, new_metrics,
}

-- What Prometheus documents of a registry: a name that is new is taken, and one that is there is not.
pub record IsRegistry {R : Type 0} (register : Bytes → R → Option R) (holds : Bytes → R → Bool)
    : Type 0 where
  pub takes :
      (n : Bytes) (r : R)
      → holds n r ≡ false
      → (r' : R) × (register n r ≡ some r') × ((k : Bytes) → holds k r' ≡ (n == k || holds k r))
  pub refuses : (n : Bytes) (r : R) → holds n r ≡ true → register n r ≡ none

-- Whether a text is the name of one of the metrics.
unfoldable pub is_named : List Metric → Bytes → Bool
is_named [] k = false
is_named (m ∷ ms) k = name m == k || is_named ms k

abbrev have_own_names : List Metric → Bool
have_own_names [] = true
have_own_names (m ∷ ms) = not (is_named ms (name m)) && have_own_names ms

all_own_names : have_own_names all_metrics ≡ true
unfolding is_named bytes_eqb
all_own_names = refl

-- The names that tests/integration/metrics_test.go looks for among the exported metrics.
abbrev pub expected_names : List Bytes
expected_names =
    lit "notip_consumer_messages_received_total"
    ∷ lit "notip_consumer_message_parsing_errors_total"
    ∷ lit "notip_consumer_messages_written_total"
    ∷ lit "notip_consumer_write_errors_total"
    ∷ lit "notip_consumer_write_duration_seconds"
    ∷ lit "notip_consumer_batch_size"
    ∷ lit "notip_consumer_alerts_published_total"
    ∷ lit "notip_consumer_alert_publish_errors_total"
    ∷ lit "notip_consumer_heartbeat_map_size"
    ∷ lit "notip_consumer_heartbeat_tick_duration_seconds"
    ∷ lit "notip_consumer_status_update_errors_total"
    ∷ lit "notip_consumer_status_update_dropped_total"
    ∷ lit "notip_consumer_dispatch_queue_length"
    ∷ lit "notip_consumer_alert_cache_refresh_errors_total"
    ∷ lit "notip_consumer_alert_cache_last_success_timestamp"
    ∷ lit "notip_consumer_nats_reconnects_total"
    ∷ lit "notip_consumer_lifecycle_query_errors_total"
    ∷ []

abbrev pub is_among : List Bytes → Bytes → Bool
is_among [] k = false
is_among (n ∷ ns) k = n == k || is_among ns k

-- The metrics are those that are expected.
all_metrics-expected : (k : Bytes) → is_named all_metrics k ≡ is_among expected_names k
unfolding is_named
all_metrics-expected k = refl

-- Every handle of `Metrics` is among them.
expected-name : (m : Metric) → is_among expected_names (name m) ≡ true
unfolding bytes_eqb
expected-name messages_received = refl
expected-name message_parsing_errors = refl
expected-name messages_written = refl
expected-name write_errors = refl
expected-name write_latency = refl
expected-name batch_size = refl
expected-name alerts_published = refl
expected-name alert_publish_errors = refl
expected-name heartbeat_map_size = refl
expected-name heartbeat_tick_duration = refl
expected-name status_update_errors = refl
expected-name status_update_dropped = refl
expected-name dispatch_queue_length = refl
expected-name alert_cache_refresh_errors = refl
expected-name alert_cache_last_success = refl
expected-name nats_reconnects = refl
expected-name lifecycle_query_errors = refl

module _ {R : Type 0} (register : Bytes → R → Option R) (holds : Bytes → R → Bool)
    (laws : IsRegistry register holds) where
  still_fresh :
      (m : Metric) (ms : List Metric) (r r1 : R) (k : Bytes)
      → is_named ms (name m) ≡ false
      → (is_named (m ∷ ms) k ≡ true → holds k r ≡ false)
      → holds k r1 ≡ (name m == k || holds k r)
      → is_named ms k ≡ true
      → holds k r1 ≡ false
  unfolding is_named
  still_fresh m ms r r1 k own fresh held named = elim (Bool-cases (name m == k)) [
    | inl here ↦
        let same : name m ≡ k = (bytes_eq.same_iff (name m) k).0 here in
        let clash : is_named ms k ≡ false = subst (λ j. is_named ms j ≡ false) same own in cc
    | inr there ↦ ground (arith, held, there, fresh, named)
  ]

  must_register_takes :
      (ms : List Metric) (r : R)
      → have_own_names ms ≡ true
      → ((k : Bytes) → is_named ms k ≡ true → holds k r ≡ false)
      → (r' : R) × (must_register register ms r ≡ returns r')
        × ((k : Bytes) → holds k r' ≡ (is_named ms k || holds k r))
  unfolding must_register is_named
  must_register_takes [] r own fresh = (r, refl, λ k. refl)
  must_register_takes (m ∷ ms) r own fresh =
      let (r1, taken, holds1) =
        laws.takes (name m) r (ground (arith, fresh (name m), ==-refl (name m))) in
      let (r2, rest, holds2) =
        must_register_takes ms r1 (ground (arith, own))
          (λ k. still_fresh m ms r r1 k (ground (arith, own)) (fresh k) (holds1 k)) in
      (r2, unfold registered in rw (taken, rest) refl, λ k. ground (arith, holds2 k, holds1 k))

  refused_twice :
      (r : R) → holds (name messages_received) r ≡ true → new_metrics register r ≡ panics
  unfolding new_metrics
  refused_twice r h =
      unfold must_register registered in rw (laws.refuses (name messages_received) r h) refl

-- On a registry that has none of the seventeen names that the integration test expects, `New`
-- registers, without a panic, a metric under each of them and nothing else; the name of every handle
-- of `Metrics` is then registered, and a second `New` on the same registry panics.
pub new_metrics-registers :
    {R : Type 0} (register : Bytes → R → Option R) (holds : Bytes → R → Bool)
    → IsRegistry register holds
    → (r : R) → ((k : Bytes) → is_among expected_names k ≡ true → holds k r ≡ false)
    → (r' : R) × (new_metrics register r ≡ returns r')
      × ((k : Bytes) → holds k r' ≡ (is_among expected_names k || holds k r))
      × ((m : Metric) → holds (name m) r' ≡ true)
      × (new_metrics register r' ≡ panics)
new_metrics-registers register holds laws r fresh =
    let (r', done, held) =
      must_register_takes register holds laws all_metrics r all_own_names
        (λ k named. fresh k (sym (all_metrics-expected k) ∙ named)) in
    let all_held = λ (k : Bytes). held k ∙ ap (λ b. b || holds k r) (all_metrics-expected k) in
    let handles : (m : Metric) → holds (name m) r' ≡ true =
      λ m. ground (arith, all_held (name m), expected-name m) in
    (
      r',
      unfold new_metrics in done,
      all_held,
      handles,
      refused_twice register holds laws r' (handles messages_received),
    )
