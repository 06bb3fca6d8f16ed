-- ===== src/Startup.antt =====
-- cmd/consumer/main.go, `run`: how the service is put together, started and taken down. What it finds
-- outside is an argument; what it does there is a list of actions, oldest first.
pub mod Tidy
pub mod Orderly
pub mod Errors
use notip_data_consumer.Prelude.{
  ℕ, ◌+◌, Bool, true, false, ◌||◌, Option, none, some, List, [], ◌∷◌, ◌++◌, ltb, if◌then◌else◌,
}
use notip_data_consumer.Prelude.Bytes.{Bytes, lit}
use notip_data_consumer.Prelude.Int.{ℤ, pos, negsuc, int32, ltb_ℤ}
use notip_data_consumer.Prelude.Outcome.{Outcome, returns, panics, Result, ok, err}
use notip_data_consumer.Model.{Duration, milliseconds, seconds}
use notip_data_consumer.AlertCache.{AlertConfigCache, new_alert_config_cache}
use notip_data_consumer.Config.{Config, Env, ConfigError, Loader}
use notip_data_consumer.Config.Load.{load}
use notip_data_consumer.Config.Dsn.{ReadFileError, get_database_dsn}
use notip_data_consumer.Migrations.{Embedded, MigrationError, apply}

-- What `run` takes hold of and defers the release of.
pub data Resource : Type 0 where
  nats_connection signal_context pool tracker metrics_server : Resource

pub data Action : Type 0 where
  registers_metrics : Action
  -- `nats.Connect`: the URL, the files of TLS, and the timeout
  connects : Bytes → Bytes → Bytes → Bytes → Duration → Action
  -- `pgxpool.ParseConfig`, and `NewWithConfig` with `MaxConns` and `MinConns`
  parses_dsn : Bytes → Action
  makes_pool : ℤ → ℤ → Action
  -- `NewHeartbeatTracker`, from `StatusUpdateBufSize` and `GracePeriod`
  makes_tracker : ℤ → Duration → Action
  acquires releases : Resource → Action
  migrates : Action
  -- the goroutines: the server at its address, the cache with its interval, the timer with its
  -- interval, the decommission consumer
  serves : Bytes → Action
  refreshes : AlertConfigCache → Duration → Action
  ticks_every : Duration → Action
  awaits_decommissions : Action
  -- the telemetry consumer, with its durable name, the size of a batch and the interval of flushes
  consumes : Bytes → ℕ → Duration → Action

-- The errors of `run`, by the `fmt.Errorf` that makes them.
pub data RunError : Type 0 where
  load_failed : ConfigError → RunError
  dsn_failed : ReadFileError Bytes → RunError
  connect_failed jet_stream_failed pool_config_failed pool_failed : Bytes → RunError
  migrations_failed : MigrationError → RunError
  telemetry_failed : Bytes → RunError

-- What `run` finds outside: the variables, the files, NATS, the pool, the database that answers each
-- script, and how `Run` of the telemetry consumer ends.
pub record Outside : Type 0 where
  pub env : Env
  pub read_file : Bytes → Result Bytes Bytes
  pub connect_nats : Config → Option Bytes
  pub jet_stream : Option Bytes
  pub parse_pool_config : Bytes → Option Bytes
  pub new_pool : ℤ → ℤ → Option Bytes
  pub embedded : Embedded
  pub exec : ℕ → Bytes → ℕ × Option Bytes
  -- the largest buffer that `make` has memory for
  pub chan_limit : ℕ
  pub telemetry : Option Bytes

-- A run of `run`, or of the rest of it.
pub record Run : Type 0 where
  pub actions : List Action
  pub result : Outcome (Option RunError)

abbrev pub fail_with : RunError → Run
fail_with e = record { actions = []; result = returns (some e) }

abbrev pub after : Action → Run → Run
after action rest = record rest { actions = action ∷ rest.actions }

-- A resource is taken, and `defer` releases it, whether the rest returns or panics.
abbrev pub holding : Resource → Run → Run
holding r rest = record rest { actions = acquires r ∷ rest.actions ++ releases r ∷ [] }

telemetry_error : Option Bytes → Option RunError
telemetry_error none = none
telemetry_error (some e) = some (telemetry_failed e)

-- From the metrics server on.
serve : Outside → Config → Run
unfolding telemetry_error new_alert_config_cache
serve o cfg = after (serves cfg.metrics_addr) (
    holding metrics_server (
      after
        (refreshes
          (new_alert_config_cache cfg.alert_config_default_timeout_ms cfg.alert_config_max_retries
            cfg.alert_config_initial_backoff_ms cfg.alert_config_max_backoff_ms)
          (milliseconds cfg.alert_config_refresh_ms))
        (after (ticks_every (milliseconds cfg.heartbeat_tick_ms)) (
          after awaits_decommissions (
            after (consumes cfg.nats_consumer_durable_name 100 (milliseconds (pos 500)))
              (record { actions = []; result = returns (telemetry_error o.telemetry) }))))))

-- `make` panics for a buffer that is negative or does not fit into memory.
abbrev pub can_make : ℕ → ℤ → Bool
can_make limit (pos n) = ltb n (limit + 1)
can_make limit (negsuc n) = false

track : Outside → Config → Bool → Run
unfolding serve
track o cfg false = record { actions = []; result = panics }
track o cfg true = holding tracker (serve o cfg)

migrated : Outside → Config → Option MigrationError → Run
unfolding track
migrated o cfg (some e) = fail_with (migrations_failed e)
migrated o cfg none = after migrates (
    after (makes_tracker cfg.gateway_buffer_size (milliseconds cfg.heartbeat_grace_period_ms))
      (track o cfg (can_make o.chan_limit cfg.gateway_buffer_size)))

pooled : Outside → Config → Option Bytes → Run
unfolding migrated apply
pooled o cfg (some e) = fail_with (pool_failed e)
pooled o cfg none = holding pool (migrated o cfg (apply o.exec o.embedded 0).1)

pool_parsed : Outside → Config → Option Bytes → Run
unfolding pooled
pool_parsed o cfg (some e) = fail_with (pool_config_failed e)
pool_parsed o cfg none =
    let max_conns = int32 cfg.db_max_conns in
    let min_conns = int32 cfg.db_min_conns in
    holding signal_context
      (after (makes_pool max_conns min_conns) (pooled o cfg (o.new_pool max_conns min_conns)))

streaming : Outside → Config → Bytes → Option Bytes → Run
unfolding pool_parsed
streaming o cfg dsn (some e) = fail_with (jet_stream_failed e)
streaming o cfg dsn none = after (parses_dsn dsn) (pool_parsed o cfg (o.parse_pool_config dsn))

connected : Outside → Config → Bytes → Option Bytes → Run
unfolding streaming
connected o cfg dsn (some e) = fail_with (connect_failed e)
connected o cfg dsn none = holding nats_connection (streaming o cfg dsn o.jet_stream)

with_dsn : Outside → Config → Result (ReadFileError Bytes) Bytes → Run
unfolding connected
with_dsn o cfg (err e) = fail_with (dsn_failed e)
with_dsn o cfg (ok dsn) = after registers_metrics (
    after
      (connects cfg.nats_url cfg.nats_tls_ca cfg.nats_tls_cert cfg.nats_tls_key
        (seconds cfg.nats_connect_timeout_seconds))
      (connected o cfg dsn (o.connect_nats cfg)))

with_config : Outside → Config → Option ConfigError → Run
unfolding with_dsn get_database_dsn
with_config o cfg (some e) = fail_with (load_failed e)
with_config o cfg none = with_dsn o cfg (get_database_dsn (o.read_file cfg.db_password_file) cfg)

-- `run`
unfoldable pub run : Outside → Run
unfolding with_config load
run o = let l = load o.env in with_config o l.cfg l.failure

-- `main`: the exit status of the process; a panic ends it with 2.
unfoldable pub exit_status : Outside → ℕ
unfolding run
exit_status o = elim (run o).result [ returns none ↦ 0 | returns (some _) ↦ 1 | panics ↦ 2 ]

-- The handler of `/healthz`, by the result of `pool.Ping`: the status and the body. `http.Error` ends
-- the body with a newline.
unfoldable pub health : Option Bytes → ℕ × Bytes
health none = (200, lit "ok")
health (some e) = (503, lit "db: " ++ (e ++ 10 ∷ []))
