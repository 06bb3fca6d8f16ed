-- ===== src/Examples/CacheRuns.antt =====
-- Two configurations, of a tenant and of one of its gateways; a first fetch that fails.
use notip_data_consumer.Prelude.{
  ◌≡◌, ◌≢◌, refl, none, some, [], ◌∷◌, List, false, arith, if◌then◌else◌, eqb, length, get_elem?,
}
use notip_data_consumer.Prelude.Bytes.{lit, bytes_eqb}
use notip_data_consumer.Prelude.GoMap.{lookup, insert}
use notip_data_consumer.Prelude.Int.{pos, pos_part, int64, ◌*ℤ◌}
use notip_data_consumer.Prelude.Outcome.{ok, err}
use notip_data_consumer.Model.{AlertConfig, milliseconds}
use notip_data_consumer.AlertCache.{
  AlertConfigCache, empty_snapshot, new_alert_config_cache, gateway_config_key, file_configs,
  timeout_for, refresh, Weather, next_delay, fetch_with_backoff, CacheEvent, refreshes, cancelled,
  run,
}
use notip_data_consumer.AlertCache.Rounds.{Refreshed, run-Refreshed}
use notip_data_consumer.AlertCache.Lookup.{configured_timeout, timeout_for-refresh}
use notip_data_consumer.AlertCache.Backoff.{
  Kept, fetch_with_backoff-Kept, fetch_with_backoff_loads, fetch_with_backoff_waits,
}

abbrev of_tenant : AlertConfig
of_tenant = record { tenant_id = lit "t1"; gateway_id = none; timeout_ms = pos 500 }

abbrev of_gateway : AlertConfig
of_gateway = record { tenant_id = lit "t1"; gateway_id = some (lit "g1"); timeout_ms = pos 70 }

abbrev configs : List AlertConfig
configs = of_gateway ∷ of_tenant ∷ []

abbrev cache : AlertConfigCache
cache = new_alert_config_cache (pos 60000) (pos 3) (pos 1000) (pos 30000)

timeout_for-refresh_example :
    timeout_for (refresh (ok configs) (pos 7) cache).0 (lit "t1") (lit "g1")
    ≡ configured_timeout configs (lit "t1") (lit "g1") cache.default_timeout_ms
timeout_for-refresh_example =
    timeout_for-refresh configs (pos 7) cache (lit "t1") (lit "g1") (omega arith) (omega arith)

timeouts :
    (timeout_for (refresh (ok configs) (pos 7) cache).0 (lit "t1") (lit "g1") ≡ pos 70)
    × (timeout_for (refresh (ok configs) (pos 7) cache).0 (lit "t1") (lit "g2") ≡ pos 500)
    × (timeout_for (refresh (ok configs) (pos 7) cache).0 (lit "t2") (lit "g1") ≡ pos 60000)
unfolding timeout_for refresh file_configs gateway_config_key lookup insert bytes_eqb
    new_alert_config_cache
timeouts = (refl, refl, refl)

-- A tenant's name with a slash can be taken for another tenant's with a gateway's.
abbrev slashed : AlertConfig
slashed = record { tenant_id = lit "t1/a"; gateway_id = some (lit "b"); timeout_ms = pos 9 }

slash_collides :
    timeout_for (refresh (ok (slashed ∷ [])) (pos 7) cache).0 (lit "t1") (lit "a/b") ≡ pos 9
unfolding timeout_for refresh file_configs gateway_config_key lookup insert bytes_eqb
    new_alert_config_cache
slash_collides = refl

abbrev weather : Weather
weather = record {
  fetched = λ attempt. if eqb attempt 0 then err (lit "timeout") else ok configs;
  clock = λ attempt. pos 7;
  interrupted = λ attempt. false;
}

fetch_with_backoff-Kept_example :
    Kept (pos_part cache.max_retries) cache.initial_backoff cache (fetch_with_backoff weather cache)
fetch_with_backoff-Kept_example = fetch_with_backoff-Kept weather cache

fetch_with_backoff_loads_example : (fetch_with_backoff weather cache).cache ≡ record cache {
  snapshot = file_configs configs (empty_snapshot (some (pos 7)));
  last_success = some (pos 7);
  refresh_errors = 1;
}
unfolding new_alert_config_cache
fetch_with_backoff_loads_example =
    fetch_with_backoff_loads 1 weather cache configs (omega arith) ((lit "timeout", refl), refl, tt)
      refl

abbrev rounds : List CacheEvent
rounds = refreshes (ok (of_tenant ∷ [])) (pos 8) ∷ refreshes (err (lit "timeout")) (pos 9) ∷ []

not_cancelled : (fetch_with_backoff weather cache).ending ≢ cancelled
unfolding fetch_with_backoff new_alert_config_cache refresh
not_cancelled = ground arith

run-Refreshed_example :
    Refreshed rounds (fetch_with_backoff weather cache).cache (run weather rounds cache)
run-Refreshed_example = run-Refreshed weather rounds cache not_cancelled

abbrev stormy : Weather
stormy = record {
  fetched = λ attempt. err (lit "timeout");
  clock = λ attempt. pos 7;
  interrupted = λ attempt. false;
}

three_waits : length (fetch_with_backoff stormy cache).waits ≡ 3
unfolding fetch_with_backoff new_alert_config_cache refresh next_delay
three_waits = refl

fetch_with_backoff_waits_example :
    get_elem? (fetch_with_backoff stormy cache).waits 2 ≡ some (pos 4000000000)
unfolding new_alert_config_cache milliseconds int64 ◌*ℤ◌
fetch_with_backoff_waits_example =
    fetch_with_backoff_waits stormy cache 1000000000 30000000000 2 refl refl (omega arith)
      (omega arith) (omega (arith, three_waits))
