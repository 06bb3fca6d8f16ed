-- ===== src/Startup/Orderly.antt =====
-- In which order `run` of cmd/consumer/main.go takes up what it needs, and lets it go.
use notip_data_consumer.Prelude.{Bool, true, false, Option, none, some, List, [], ◌∷◌}
use notip_data_consumer.Prelude.Bytes.{Bytes}
use notip_data_consumer.Prelude.Int.{int32}
use notip_data_consumer.Prelude.Outcome.{Result, ok, err}
use notip_data_consumer.Config.{Config, ConfigError}
use notip_data_consumer.Config.Load.{load}
use notip_data_consumer.Config.Dsn.{ReadFileError, get_database_dsn}
use notip_data_consumer.Migrations.{MigrationError, apply}
use notip_data_consumer.Startup.Tidy.{
  IsPlain, IsWork, StartsMigrated, never, prepares, then_any, IsTidy, idle-IsTidy, after-IsTidy,
  holding-IsTidy, holding-StartsMigrated,
}
use notip_data_consumer.Startup.{
  Resource, nats_connection, signal_context, pool, tracker, metrics_server, Action,
  registers_metrics, connects, parses_dsn, makes_pool, makes_tracker, migrates, serves, refreshes,
  ticks_every, awaits_decommissions, consumes, RunError, fail_with, after, holding, Outside, Run,
  serve, track, can_make, migrated, pooled, pool_parsed, streaming, connected, with_dsn,
  with_config, run,
}

serve-IsTidy : (o : Outside) (cfg : Config) → IsTidy (metrics_server ∷ []) (serve o cfg).actions
unfolding serve
serve-IsTidy o cfg = after-IsTidy (serves _) tt (
    holding-IsTidy metrics_server (
      after-IsTidy (refreshes _ _) tt (
        after-IsTidy (ticks_every _) tt (
          after-IsTidy awaits_decommissions tt
            (after-IsTidy (consumes _ _ _) tt (idle-IsTidy []))))))

track-IsTidy :
    (o : Outside) (cfg : Config) (b : Bool)
    → IsTidy (tracker ∷ metrics_server ∷ []) (track o cfg b).actions
unfolding track
track-IsTidy o cfg false = idle-IsTidy _
track-IsTidy o cfg true = holding-IsTidy tracker (serve-IsTidy o cfg)

-- The order in which `run` takes up its resources.
abbrev pub start_order : List Resource
start_order = nats_connection ∷ signal_context ∷ pool ∷ tracker ∷ metrics_server ∷ []

pub record IsOrderly (order : List Resource) (r : Run) : Type 0 where
  pub tidy : IsTidy order r.actions
  pub migrated_first : StartsMigrated r.actions

failed-IsOrderly : (order : List Resource) (e : RunError) → IsOrderly order (fail_with e)
failed-IsOrderly order e = record { tidy = idle-IsTidy order; migrated_first = never }

after-IsOrderly :
    (action : Action) {order : List Resource} {r : Run}
    → IsPlain action
    → (¬ IsWork action)
    → IsOrderly order r
    → IsOrderly order (after action r)
after-IsOrderly action p idle h = record {
  tidy = after-IsTidy action p h.tidy;
  migrated_first = prepares action idle h.migrated_first;
}

holding-IsOrderly :
    (res : Resource) {order : List Resource} {r : Run}
    → IsOrderly order r
    → IsOrderly (res ∷ order) (holding res r)
holding-IsOrderly res h = record {
  tidy = holding-IsTidy res h.tidy;
  migrated_first = holding-StartsMigrated res h.migrated_first;
}

module _ (o : Outside) (cfg : Config) where
  migrated-IsOrderly :
      (e : Option MigrationError) → IsOrderly (tracker ∷ metrics_server ∷ []) (migrated o cfg e)
  unfolding migrated
  migrated-IsOrderly (some e) = failed-IsOrderly _ _
  migrated-IsOrderly none = record {
    tidy = after-IsTidy migrates tt (
        after-IsTidy (makes_tracker _ _) tt
          (track-IsTidy o cfg (can_make o.chan_limit cfg.gateway_buffer_size)));
    migrated_first = then_any _;
  }

  pooled-IsOrderly :
      (e : Option Bytes) → IsOrderly (pool ∷ tracker ∷ metrics_server ∷ []) (pooled o cfg e)
  unfolding pooled
  pooled-IsOrderly (some e) = failed-IsOrderly _ _
  pooled-IsOrderly none = holding-IsOrderly pool (migrated-IsOrderly (apply o.exec o.embedded 0).1)

  pool_parsed-IsOrderly :
      (e : Option Bytes)
      → IsOrderly (signal_context ∷ pool ∷ tracker ∷ metrics_server ∷ []) (pool_parsed o cfg e)
  unfolding pool_parsed
  pool_parsed-IsOrderly (some e) = failed-IsOrderly _ _
  pool_parsed-IsOrderly none = holding-IsOrderly signal_context (
      after-IsOrderly (makes_pool _ _) tt (λ w. w)
        (pooled-IsOrderly (o.new_pool (int32 cfg.db_max_conns) (int32 cfg.db_min_conns))))

  streaming-IsOrderly :
      (dsn : Bytes) (e : Option Bytes)
      → IsOrderly (signal_context ∷ pool ∷ tracker ∷ metrics_server ∷ []) (streaming o cfg dsn e)
  unfolding streaming
  streaming-IsOrderly dsn (some e) = failed-IsOrderly _ _
  streaming-IsOrderly dsn none =
      after-IsOrderly (parses_dsn dsn) tt (λ w. w) (pool_parsed-IsOrderly (o.parse_pool_config dsn))

  connected-IsOrderly :
      (dsn : Bytes) (e : Option Bytes) → IsOrderly start_order (connected o cfg dsn e)
  unfolding connected
  connected-IsOrderly dsn (some e) = failed-IsOrderly _ _
  connected-IsOrderly dsn none =
      holding-IsOrderly nats_connection (streaming-IsOrderly dsn o.jet_stream)

  with_dsn-IsOrderly :
      (r : Result (ReadFileError Bytes) Bytes) → IsOrderly start_order (with_dsn o cfg r)
  unfolding with_dsn
  with_dsn-IsOrderly (err e) = failed-IsOrderly _ _
  with_dsn-IsOrderly (ok dsn) =
      after-IsOrderly registers_metrics tt (λ w. w)
        (after-IsOrderly (connects _ _ _ _ _) tt (λ w. w)
          (connected-IsOrderly dsn (o.connect_nats cfg)))

  with_config-IsOrderly : (e : Option ConfigError) → IsOrderly start_order (with_config o cfg e)
  unfolding with_config
  with_config-IsOrderly (some e) = failed-IsOrderly _ _
  with_config-IsOrderly none =
      with_dsn-IsOrderly (get_database_dsn (o.read_file cfg.db_password_file) cfg)

-- Whatever `run` finds outside, whether it returns or panics: it takes up the connection to NATS, the
-- context of the signals, the pool, the tracker and the metrics server in this order, as far as it
-- gets; it releases each that it took up, the last one first, and no other; and it begins no work
-- before the migrations have been applied.
pub run-IsOrderly : (o : Outside) → IsOrderly start_order (run o)
unfolding run
run-IsOrderly o = let l = load o.env in with_config-IsOrderly o l.cfg l.failure
