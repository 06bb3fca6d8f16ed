-- ===== src/Examples/ConfigRuns.antt =====
-- An environment that is accepted, and one with a bad number.
use notip_data_consumer.Prelude.{◌≡◌, ◌↔◌, ◌⊎◌, refl, Option, none, some, [], ◌∷◌, All}
use notip_data_consumer.Prelude.Bytes.{Bytes, bytes_eq, bytes_eqb, lit}
use notip_data_consumer.Prelude.GoMap.{GoMap, lookup}
use notip_data_consumer.Prelude.Int.{pos, negsuc}
use notip_data_consumer.Prelude.Outcome.{ok}
use notip_data_consumer.Strconv.{bad_syntax, parse_int64}
use notip_data_consumer.Config.{Env, malformed, invalid_ssl_mode, no_root_cert, require, opt_int}
use notip_data_consumer.Config.Load.{settings, load}
use notip_data_consumer.Config.Settings.{Accepts, FirstFault}
use notip_data_consumer.Config.Accepted.{IsSecured, described, load_failure}
use notip_data_consumer.Config.Environment.{IsEnvironment, load_iff, IsReadFrom, load-IsReadFrom}

abbrev variables : GoMap Bytes Bytes
variables =
    (lit "NATS_URL", lit "nats://n:4222")
    ∷ (lit "NATS_TLS_CA", lit "ca")
    ∷ (lit "NATS_TLS_CERT", lit "cert")
    ∷ (lit "NATS_TLS_KEY", lit "key")
    ∷ (lit "DB_HOST", lit "db")
    ∷ (lit "DB_NAME", lit "telemetry")
    ∷ (lit "DB_USER", lit "writer")
    ∷ (lit "DB_PASSWORD_FILE", lit "/run/secrets/db")
    ∷ []

abbrev or_empty : Option Bytes → Bytes
or_empty none = []
or_empty (some v) = v

abbrev environment : GoMap Bytes Bytes → Env
environment m key = or_empty (lookup key m)

abbrev pub good_env : Env
good_env = environment ((lit "DB_PORT", lit "5433") ∷ variables)

abbrev bad_env : Env
bad_env = environment ((lit "DB_PORT", lit "54x") ∷ variables)

read_minus : parse_int64 (lit "-12") ≡ ok (negsuc 11)
unfolding parse_int64
read_minus = refl

accepted : (load good_env).failure ≡ none
unfolding load lookup bytes_eqb parse_int64 opt_int require
accepted = refl

port_read : (load good_env).cfg.db_port ≡ pos 5433
unfolding load lookup bytes_eqb parse_int64 opt_int require
port_read = refl

refused : (load bad_env).failure ≡ some (malformed (lit "DB_PORT") bad_syntax)
unfolding load lookup bytes_eqb parse_int64 opt_int require
refused = refl

load_iff_example : ((load good_env).failure ≡ none) ↔ IsEnvironment good_env
load_iff_example = load_iff good_env

load-IsReadFrom_example : IsReadFrom good_env (load good_env).cfg
load-IsReadFrom_example = load-IsReadFrom good_env accepted

load_failure_example :
    FirstFault bad_env settings (malformed (lit "DB_PORT") bad_syntax)
    ⊎ (All (Accepts bad_env) settings
        × (¬ IsSecured (described bad_env).db_ssl_mode (described bad_env).db_ssl_root_cert)
        × (malformed (lit "DB_PORT") bad_syntax ≡ invalid_ssl_mode (described bad_env).db_ssl_mode
            ⊎ (malformed (lit "DB_PORT") bad_syntax
                ≡ no_root_cert (described bad_env).db_ssl_mode)))
load_failure_example = load_failure bad_env (malformed (lit "DB_PORT") bad_syntax) refused
