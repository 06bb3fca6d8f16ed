-- ===== src/Examples/MetricsRuns.antt =====
-- A registry that is the list of its names.
use notip_data_consumer.Prelude.{
  ◌≡◌, refl, Bool, true, false, ◌||◌, Option, none, some, List, [], ◌∷◌, if◌then◌else◌, ◌==◌,
}
use notip_data_consumer.Prelude.Bytes.{Bytes, bytes_eq}
use notip_data_consumer.Prelude.Outcome.{returns, panics}
use notip_data_consumer.Metrics.{Metric, name, new_metrics}
use notip_data_consumer.Metrics.Registered.{
  IsRegistry, expected_names, is_among, new_metrics-registers,
}

abbrev holds : Bytes → List Bytes → Bool
holds k [] = false
holds k (n ∷ r) = n == k || holds k r

abbrev register : Bytes → List Bytes → Option (List Bytes)
register n r = if holds n r then none else some (n ∷ r)

list-IsRegistry : IsRegistry register holds
list-IsRegistry = record {
  takes = λ n r h. (n ∷ r, rw h refl, λ k. refl);
  refuses = λ n r h. rw h refl;
}

new_metrics-registers_example :
    (r : List Bytes) × (new_metrics register [] ≡ returns r)
    × ((k : Bytes) → holds k r ≡ (is_among expected_names k || false))
    × ((m : Metric) → holds (name m) r ≡ true)
    × (new_metrics register r ≡ panics)
new_metrics-registers_example =
    new_metrics-registers register holds list-IsRegistry [] (λ k h. refl)
