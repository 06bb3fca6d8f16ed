-- ===== src/AlertCache.antt =====
-- internal/adapter/driven/alert_config_cache.go: the snapshot of the alert configurations, how it
-- is looked up and how it is replaced. A fetch is an argument: what `FetchAlertConfigs` came to.
pub mod Lookup
pub mod Backoff
pub mod Rounds
use notip_data_consumer.Prelude.{
  ℕ, zero, suc, ◌+◌, Bool, Option, none, some, List, [], ◌∷◌, ◌++◌, length, if◌then◌else◌,
}
use notip_data_consumer.Prelude.Bytes.{Bytes, bytes_eq}
use notip_data_consumer.Prelude.GoMap.{GoMap, lookup, insert}
use notip_data_consumer.Prelude.Int.{ℤ, pos, pos_part, int64, ◌*ℤ◌, ltb_ℤ}
use notip_data_consumer.Prelude.Outcome.{Result, ok, err}
use notip_data_consumer.Model.{Time, Duration, AlertConfig, milliseconds}

pub record AlertConfigSnapshot : Type 0 where
  pub by_gateway : GoMap Bytes AlertConfig
  pub by_tenant : GoMap Bytes AlertConfig
  -- `none` is the zero time
  pub fetched_at : Option Time

pub record AlertConfigCache : Type 0 where
  pub snapshot : AlertConfigSnapshot
  pub default_timeout_ms : ℤ
  pub max_retries : ℤ
  pub initial_backoff : Duration
  pub max_backoff : Duration
  -- the counter `AlertCacheRefreshErrors`, and `AlertCacheLastSuccess`: the time of the last swap
  pub refresh_errors : ℕ
  pub last_success : Option Time

abbrev pub empty_snapshot : Option Time → AlertConfigSnapshot
empty_snapshot fetched_at = record { by_gateway = []; by_tenant = []; fetched_at = fetched_at }

-- `NewAlertConfigCache`: it starts with an empty snapshot.
unfoldable pub new_alert_config_cache : ℤ → ℤ → ℤ → ℤ → AlertConfigCache
new_alert_config_cache default_timeout_ms max_retries initial_backoff_ms max_backoff_ms = record {
  snapshot = empty_snapshot none;
  default_timeout_ms = default_timeout_ms;
  max_retries = max_retries;
  initial_backoff = milliseconds initial_backoff_ms;
  max_backoff = milliseconds max_backoff_ms;
  refresh_errors = 0;
  last_success = none;
}

abbrev pub slash : ℕ
slash = b'/'

-- `tenantID + "/" + gatewayID`
unfoldable pub gateway_config_key : Bytes → Bytes → Bytes
gateway_config_key tenant_id gateway_id = tenant_id ++ (slash ∷ gateway_id)

tenant_timeout : Option AlertConfig → ℤ → ℤ
tenant_timeout (some cfg) default = cfg.timeout_ms
tenant_timeout none default = default

gateway_timeout : Option AlertConfig → Option AlertConfig → ℤ → ℤ
unfolding tenant_timeout
gateway_timeout (some cfg) tenant default = cfg.timeout_ms
gateway_timeout none tenant default = tenant_timeout tenant default

-- `TimeoutFor`
unfoldable pub timeout_for : AlertConfigCache → Bytes → Bytes → ℤ
unfolding gateway_timeout
timeout_for c tenant_id gateway_id =
    gateway_timeout (lookup (gateway_config_key tenant_id gateway_id) c.snapshot.by_gateway)
      (lookup tenant_id c.snapshot.by_tenant) c.default_timeout_ms

file_config : Option Bytes → AlertConfig → AlertConfigSnapshot → AlertConfigSnapshot
file_config (some gateway_id) cfg snap = record snap {
  by_gateway = insert (gateway_config_key cfg.tenant_id gateway_id) cfg snap.by_gateway;
}
file_config none cfg snap = record snap { by_tenant = insert cfg.tenant_id cfg snap.by_tenant }

-- The loop of `refresh` over the fetched configurations.
unfoldable pub file_configs : List AlertConfig → AlertConfigSnapshot → AlertConfigSnapshot
unfolding file_config
file_configs [] snap = snap
file_configs (cfg ∷ configs) snap = file_configs configs (file_config cfg.gateway_id cfg snap)

-- `refresh`, with the clock at `now`: a new snapshot, or an error that changes nothing.
unfoldable pub refresh :
    Result Bytes (List AlertConfig) → Time → AlertConfigCache → AlertConfigCache × Option Bytes
unfolding file_configs
refresh (err e) now c = (c, some e)
refresh (ok configs) now c = (
  record c { snapshot = file_configs configs (empty_snapshot (some now)); last_success = some now },
  none,
)

-- `snapshotCounts`
unfoldable pub snapshot_counts : AlertConfigCache → ℕ × ℕ
snapshot_counts c = (length c.snapshot.by_gateway, length c.snapshot.by_tenant)

count_failure : Option Bytes → AlertConfigCache → AlertConfigCache
count_failure none c = c
count_failure (some _) c = record c { refresh_errors = c.refresh_errors + 1 }

-- One round of the loop of `Run`, at a tick of its ticker.
unfoldable pub refresh_tick :
    Result Bytes (List AlertConfig) → Time → AlertConfigCache → AlertConfigCache
unfolding refresh count_failure
refresh_tick fetched now c = let (c', failure) = refresh fetched now c in count_failure failure c'

-- How `fetchWithBackoff` ends: loaded, out of retries, or cancelled during a wait.
pub data FetchEnd : Type 0 where
  loaded exhausted cancelled : FetchEnd

-- `delay *= 2`, no more than the maximum
unfoldable pub next_delay : Duration → Duration → Duration
next_delay max delay = let twice = int64 (delay *ℤ pos 2) in if ltb_ℤ max twice then max else twice

-- What the fetches and waits come to: the fetch of each attempt with the reading of the clock, and
-- whether the wait after it is cancelled.
pub record Weather : Type 0 where
  pub fetched : ℕ → Result Bytes (List AlertConfig)
  pub clock : ℕ → Time
  pub interrupted : ℕ → Bool

pub record Fetched : Type 0 where
  pub cache : AlertConfigCache
  pub ending : FetchEnd
  -- the arguments of `wait`, in order
  pub waits : List Duration

-- The loop of `fetchWithBackoff`, with the number of attempts left.
pub fetch_loop : ℕ → Weather → ℕ → Duration → AlertConfigCache → Fetched
unfolding refresh count_failure
fetch_loop zero weather attempt delay c = record { cache = c; ending = exhausted; waits = [] }
fetch_loop (suc left) weather attempt delay c =
    let (c', failure) = refresh (weather.fetched attempt) (weather.clock attempt) c in
    let failed = count_failure failure c' in
    let rest = fetch_loop left weather (attempt + 1) (next_delay c.max_backoff delay) failed in
    elim failure [
      | none ↦ record { cache = c'; ending = loaded; waits = [] }
      | some _ ↦
          if weather.interrupted attempt
          then record { cache = failed; ending = cancelled; waits = delay ∷ [] }
          else record rest { waits = delay ∷ rest.waits }
    ]

-- `fetchWithBackoff`: `attempt < c.maxRetries` fails at once for a negative `maxRetries`.
unfoldable pub fetch_with_backoff : Weather → AlertConfigCache → Fetched
unfolding fetch_loop
fetch_with_backoff weather c = fetch_loop (pos_part c.max_retries) weather 0 c.initial_backoff c

-- What the `select` of `Run` receives: a tick, with what the fetch comes to and the reading of the
-- clock, or the end of the context.
pub data CacheEvent : Type 0 where
  refreshes : Result Bytes (List AlertConfig) → Time → CacheEvent
  context_over : CacheEvent

-- The loop of `Run`
unfoldable pub refresh_loop : List CacheEvent → AlertConfigCache → AlertConfigCache
unfolding refresh_tick
refresh_loop [] c = c
refresh_loop (refreshes fetched now ∷ events) c = refresh_loop events (refresh_tick fetched now c)
refresh_loop (context_over ∷ events) c = c

-- `Run`; the error of the first fetch is dropped, and after a cancelled wait the loop ends at once.
unfoldable pub run : Weather → List CacheEvent → AlertConfigCache → AlertConfigCache
unfolding fetch_with_backoff refresh_loop
run weather events c =
    let first = fetch_with_backoff weather c in
    elim first.ending [
      | cancelled ↦ first.cache
      | loaded ↦ refresh_loop events first.cache
      | exhausted ↦ refresh_loop events first.cache
    ]
