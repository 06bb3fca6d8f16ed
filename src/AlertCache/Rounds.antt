-- ===== src/AlertCache/Rounds.antt =====
-- The configuration that serves after any number of rounds of the loop of `Run`.
use notip_data_consumer.Prelude.{
  ℕ, suc, ◌+◌, ◌≡◌, ◌≢◌, refl, Option, none, some, List, [], ◌∷◌, arith,
}
use notip_data_consumer.Prelude.Outcome.{ok, err}
use notip_data_consumer.Model.{Time, AlertConfig}
use notip_data_consumer.AlertCache.{
  AlertConfigSnapshot, AlertConfigCache, empty_snapshot, file_configs, refresh, count_failure,
  refresh_tick, CacheEvent, refreshes, context_over, refresh_loop, run, Weather, FetchEnd, loaded,
  exhausted, cancelled, fetch_with_backoff,
}

-- The last fetch before the end of the context that succeeded.
abbrev pub last_good : List CacheEvent → Option (List AlertConfig × Time)
last_good [] = none
last_good (refreshes (ok configs) now ∷ events) = elim (last_good events) [
  | none ↦ some (configs, now)
  | some later ↦ some later
]
last_good (refreshes (err _) now ∷ events) = last_good events
last_good (context_over ∷ events) = none

-- The fetches before the end of the context that failed.
abbrev pub failures : List CacheEvent → ℕ
failures [] = 0
failures (refreshes (ok _) now ∷ events) = failures events
failures (refreshes (err _) now ∷ events) = suc (failures events)
failures (context_over ∷ events) = 0

-- What serves after the last good fetch, or what served before.
abbrev pub serving : Option (List AlertConfig × Time) → AlertConfigSnapshot → AlertConfigSnapshot
serving none before = before
serving (some (configs, now)) before = file_configs configs (empty_snapshot (some now))

pub record Refreshed (events : List CacheEvent) (c c' : AlertConfigCache) : Type 0 where
  pub serves : c'.snapshot ≡ serving (last_good events) c.snapshot
  pub counted : c'.refresh_errors ≡ c.refresh_errors + failures events
  pub same_default : c'.default_timeout_ms ≡ c.default_timeout_ms

-- After the loop of `Run`, the snapshot is wholly that of the last fetch that succeeded before the
-- end of the context, or the one before the loop if none did: a failed fetch leaves it alone and is
-- counted once, and nothing of an older configuration is left.
refresh_loop-Refreshed :
    (events : List CacheEvent) (c : AlertConfigCache) → Refreshed events c (refresh_loop events c)
unfolding refresh_loop refresh_tick refresh count_failure
refresh_loop-Refreshed [] c = record { serves = refl; counted = omega arith; same_default = refl }
refresh_loop-Refreshed (context_over ∷ events) c = record {
  serves = refl;
  counted = omega arith;
  same_default = refl;
}
refresh_loop-Refreshed (refreshes (ok configs) now ∷ events) c =
    let h = refresh_loop-Refreshed events (refresh_tick (ok configs) now c) in
    record {
      serves = ground (arith, h.serves);
      counted = ground (arith, h.counted);
      same_default = h.same_default;
    }
refresh_loop-Refreshed (refreshes (err e) now ∷ events) c =
    let h = refresh_loop-Refreshed events (refresh_tick (err e) now c) in
    record { serves = h.serves; counted = omega (arith, h.counted); same_default = h.same_default }

-- Unless the first fetch is cancelled, what `Run` leaves is what its loop makes of the cache that the
-- first fetch left, loaded or not: the snapshot is wholly that of the last fetch that succeeded before
-- the end of the context, or that of the first fetch if none did, and each failed fetch of the loop is
-- counted once.
pub run-Refreshed :
    (weather : Weather) (events : List CacheEvent) (c : AlertConfigCache)
    → (fetch_with_backoff weather c).ending ≢ cancelled
    → Refreshed events (fetch_with_backoff weather c).cache (run weather events c)
unfolding run
run-Refreshed weather events c going = by_ending (fetch_with_backoff weather c).ending going
  where
    by_ending :
        (ending : FetchEnd)
        → ending ≢ cancelled
        → Refreshed events (fetch_with_backoff weather c).cache (elim ending [
          | cancelled ↦ (fetch_with_backoff weather c).cache
          | loaded ↦ refresh_loop events (fetch_with_backoff weather c).cache
          | exhausted ↦ refresh_loop events (fetch_with_backoff weather c).cache
        ])
    by_ending cancelled other = absurd (other refl)
    by_ending loaded other = refresh_loop-Refreshed events (fetch_with_backoff weather c).cache
    by_ending exhausted other = refresh_loop-Refreshed events (fetch_with_backoff weather c).cache
