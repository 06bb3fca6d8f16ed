-- ===== src/Startup/Errors.antt =====
-- Which error `run` of cmd/consumer/main.go reports, and how far it gets.
use notip_data_consumer.Prelude.{
  ◌≡◌, refl, ap, ◌∙◌, Bool, true, false, ◌||◌, Option, none, some, List, [], ◌∷◌, ◌++◌,
}
use notip_data_consumer.Prelude.Bytes.{Bytes}
use notip_data_consumer.Prelude.Int.{int32}
use notip_data_consumer.Prelude.Outcome.{Outcome, Result, ok, err, returns, panics}
use notip_data_consumer.Config.{Config, ConfigError}
use notip_data_consumer.Config.Load.{load}
use notip_data_consumer.Config.Dsn.{ReadFileError, get_database_dsn}
use notip_data_consumer.Migrations.{MigrationError, apply}
use notip_data_consumer.Startup.{
  Resource, Action, releases, consumes, RunError, load_failed, dsn_failed, connect_failed,
  jet_stream_failed, pool_config_failed, pool_failed, migrations_failed, telemetry_failed, after,
  holding, telemetry_error, Outside, Run, serve, track, can_make, migrated, pooled, pool_parsed,
  streaming, connected, with_dsn, with_config, run,
}

abbrev as_error : {E : Type 0} → (E → RunError) → Option E → Option RunError
as_error wrap none = none
as_error wrap (some e) = some (wrap e)

abbrev result_error : {A E : Type 0} → (E → RunError) → Result E A → Option RunError
result_error wrap (ok _) = none
result_error wrap (err e) = some (wrap e)

abbrev text_of : {E : Type 0} → Result E Bytes → Bytes
text_of (ok s) = s
text_of (err _) = []

-- The first error of a list of results, where nil is `none`.
abbrev pub first_error : List (Option RunError) → Option RunError
first_error [] = none
first_error (some e ∷ _) = some e
first_error (none ∷ later) = first_error later

module _ (o : Outside) (cfg : Config) where
  abbrev migration_result : Option RunError
  migration_result = as_error migrations_failed (apply o.exec o.embedded 0).1

  abbrev pool_result : Option RunError
  pool_result = as_error pool_failed (o.new_pool (int32 cfg.db_max_conns) (int32 cfg.db_min_conns))

  abbrev dsn_result : Result (ReadFileError Bytes) Bytes
  dsn_result = get_database_dsn (o.read_file cfg.db_password_file) cfg

  -- What each step of the start comes to by itself, in order.
  abbrev pub step_results : Option ConfigError → List (Option RunError)
  step_results failure =
      as_error load_failed failure
      ∷ result_error dsn_failed dsn_result
      ∷ as_error connect_failed (o.connect_nats cfg)
      ∷ as_error jet_stream_failed o.jet_stream
      ∷ as_error pool_config_failed (o.parse_pool_config (text_of dsn_result))
      ∷ pool_result
      ∷ migration_result
      ∷ []

abbrev pub is_consumer : Action → Bool
is_consumer (consumes _ _ _) = true
is_consumer _ = false

-- Whether the telemetry consumer has been started.
abbrev pub consumer_started : List Action → Bool
consumer_started [] = false
consumer_started (action ∷ actions) = is_consumer action || consumer_started actions

-- How the run ends, by the first error of the start and whether the channel can be made.
abbrev pub verdict : Option RunError → Bool → Option Bytes → Outcome (Option RunError)
verdict (some e) makes telemetry = returns (some e)
verdict none false telemetry = panics
verdict none true none = returns none
verdict none true (some e) = returns (some (telemetry_failed e))

abbrev pub goes_through : Option RunError → Bool → Bool
goes_through (some e) makes = false
goes_through none makes = makes

pub record Ends (failure : Option RunError) (makes : Bool) (telemetry : Option Bytes) (r : Run)
    : Type 0 where
  pub result : r.result ≡ verdict failure makes telemetry
  pub started : consumer_started r.actions ≡ goes_through failure makes

started-released :
    (r : Resource) (actions : List Action)
    → consumer_started (actions ++ releases r ∷ []) ≡ consumer_started actions
started-released r [] = refl
started-released r (action ∷ actions) = ap (◌||◌ (is_consumer action)) (started-released r actions)

module _ {failure : Option RunError} {makes : Bool} {telemetry : Option Bytes} {r : Run} where
  after-Ends :
      (action : Action)
      → is_consumer action ≡ false
      → Ends failure makes telemetry r
      → Ends failure makes telemetry (after action r)
  after-Ends action idle h = record { result = h.result; started = rw idle h.started }

  holding-Ends :
      (res : Resource)
      → Ends failure makes telemetry r
      → Ends failure makes telemetry (holding res r)
  holding-Ends res h = record {
    result = h.result;
    started = started-released res r.actions ∙ h.started;
  }

telemetry_result : (e : Option Bytes) → returns (telemetry_error e) ≡ verdict none true e
unfolding telemetry_error
telemetry_result none = refl
telemetry_result (some e) = refl

module _ (o : Outside) (cfg : Config) where
  abbrev makes_channel : Bool
  makes_channel = can_make o.chan_limit cfg.gateway_buffer_size

  abbrev EndsBy : List (Option RunError) → Run → Type 0
  EndsBy results = Ends (first_error results) makes_channel o.telemetry

  serve-Ends : Ends none true o.telemetry (serve o cfg)
  unfolding serve
  serve-Ends = record { result = telemetry_result o.telemetry; started = refl }

  track-Ends : (b : Bool) → Ends none b o.telemetry (track o cfg b)
  unfolding track
  track-Ends true = holding-Ends _ serve-Ends
  track-Ends false = record { result = refl; started = refl }

  migrated-Ends :
      (e : Option MigrationError) → EndsBy (as_error migrations_failed e ∷ []) (migrated o cfg e)
  unfolding migrated
  migrated-Ends (some e) = record { result = refl; started = refl }
  migrated-Ends none = after-Ends _ refl (after-Ends _ refl (track-Ends makes_channel))

  pooled-Ends :
      (e : Option Bytes)
      → EndsBy (as_error pool_failed e ∷ migration_result o cfg ∷ []) (pooled o cfg e)
  unfolding pooled
  pooled-Ends (some e) = record { result = refl; started = refl }
  pooled-Ends none = holding-Ends _ (migrated-Ends (apply o.exec o.embedded 0).1)

  pool_parsed-Ends :
      (e : Option Bytes)
      → EndsBy
          (as_error pool_config_failed e ∷ pool_result o cfg ∷ migration_result o cfg ∷ [])
          (pool_parsed o cfg e)
  unfolding pool_parsed
  pool_parsed-Ends (some e) = record { result = refl; started = refl }
  pool_parsed-Ends none = holding-Ends _ (
      after-Ends _ refl
        (pooled-Ends (o.new_pool (int32 cfg.db_max_conns) (int32 cfg.db_min_conns))))

  streaming-Ends :
      (dsn : Bytes) (e : Option Bytes)
      → EndsBy
          (as_error jet_stream_failed e
            ∷ as_error pool_config_failed (o.parse_pool_config dsn)
            ∷ pool_result o cfg
            ∷ migration_result o cfg
            ∷ [])
          (streaming o cfg dsn e)
  unfolding streaming
  streaming-Ends dsn (some e) = record { result = refl; started = refl }
  streaming-Ends dsn none = after-Ends _ refl (pool_parsed-Ends (o.parse_pool_config dsn))

  connected-Ends :
      (dsn : Bytes) (e : Option Bytes)
      → EndsBy
          (as_error connect_failed e
            ∷ as_error jet_stream_failed o.jet_stream
            ∷ as_error pool_config_failed (o.parse_pool_config dsn)
            ∷ pool_result o cfg
            ∷ migration_result o cfg
            ∷ [])
          (connected o cfg dsn e)
  unfolding connected
  connected-Ends dsn (some e) = record { result = refl; started = refl }
  connected-Ends dsn none = holding-Ends _ (streaming-Ends dsn o.jet_stream)

  with_dsn-Ends :
      (r : Result (ReadFileError Bytes) Bytes)
      → EndsBy
          (result_error dsn_failed r
            ∷ as_error connect_failed (o.connect_nats cfg)
            ∷ as_error jet_stream_failed o.jet_stream
            ∷ as_error pool_config_failed (o.parse_pool_config (text_of r))
            ∷ pool_result o cfg
            ∷ migration_result o cfg
            ∷ [])
          (with_dsn o cfg r)
  unfolding with_dsn
  with_dsn-Ends (err e) = record { result = refl; started = refl }
  with_dsn-Ends (ok dsn) =
      after-Ends _ refl (after-Ends _ refl (connected-Ends dsn (o.connect_nats cfg)))

  with_config-Ends : (e : Option ConfigError) → EndsBy (step_results o cfg e) (with_config o cfg e)
  unfolding with_config
  with_config-Ends (some e) = record { result = refl; started = refl }
  with_config-Ends none = with_dsn-Ends (dsn_result o cfg)

-- The steps of the start are the configuration, the address of the database, the connection to NATS,
-- JetStream, the settings of the pool, the pool and the migrations. `run` returns the error of the
-- first of them that fails. If none fails, it panics if the buffer of the tracker's channel cannot be
-- made; otherwise it starts the telemetry consumer, which it does in no other case, and returns as
-- that does.
pub run-Ends :
    (o : Outside)
    → Ends
        (first_error (step_results o (load o.env).cfg (load o.env).failure))
        (can_make o.chan_limit (load o.env).cfg.gateway_buffer_size)
        o.telemetry
        (run o)
unfolding run
run-Ends o = with_config-Ends o (load o.env).cfg (load o.env).failure
