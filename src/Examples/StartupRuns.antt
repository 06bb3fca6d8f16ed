-- ===== src/Examples/StartupRuns.antt =====
-- A service whose database refuses a script, and one that runs until its signal comes.
use notip_data_consumer.Prelude.{ℕ, ◌≡◌, refl, false, Option, none, some, [], ◌∷◌}
use notip_data_consumer.Prelude.Bytes.{Bytes, bytes_eqb, lit}
use notip_data_consumer.Prelude.GoMap.{lookup}
use notip_data_consumer.Prelude.Outcome.{returns, ok}
use notip_data_consumer.Strconv.{parse_int64}
use notip_data_consumer.Config.{opt_int, require}
use notip_data_consumer.Config.Load.{load}
use notip_data_consumer.Migrations.{Embedded, not_applied, has_suffix, apply}
use notip_data_consumer.Startup.{Outside, migrations_failed, can_make, run}
use notip_data_consumer.Startup.Orderly.{start_order, IsOrderly, run-IsOrderly}
use notip_data_consumer.Startup.Errors.{first_error, step_results, Ends, run-Ends}
use notip_data_consumer.Examples.ConfigRuns.{good_env}

abbrev scripts : Embedded
scripts = record {
  read_dir = ok (record { name = lit "1.sql"; is_dir = false } ∷ []);
  read_file = λ _. ok (lit "CREATE");
}

abbrev service : (ℕ → Bytes → ℕ × Option Bytes) → Outside
service exec = record {
  env = good_env;
  read_file = λ _. ok (lit "secret");
  connect_nats = λ _. none;
  jet_stream = none;
  parse_pool_config = λ _. none;
  new_pool = λ _ _. none;
  embedded = scripts;
  exec = exec;
  chan_limit = 1000000;
  telemetry = none;
}

abbrev sound : Outside
sound = service (λ n _. (n, none))

abbrev refusing : Outside
refusing = service (λ n _. (n, some (lit "no extension")))

stopped_by_signal : (run sound).result ≡ returns none
unfolding run load lookup bytes_eqb parse_int64 opt_int require apply has_suffix
stopped_by_signal = refl

refused_script :
    (run refusing).result
    ≡ returns (some (migrations_failed (not_applied (lit "1.sql") (lit "no extension"))))
unfolding run load lookup bytes_eqb parse_int64 opt_int require apply has_suffix
refused_script = refl

run-IsOrderly_example : IsOrderly start_order (run refusing)
run-IsOrderly_example = run-IsOrderly refusing

run-Ends_example :
    Ends
      (first_error (step_results refusing (load good_env).cfg (load good_env).failure))
      (can_make 1000000 (load good_env).cfg.gateway_buffer_size)
      none
      (run refusing)
run-Ends_example = run-Ends refusing
