-- ===== src/Config.antt =====
-- internal/config/config.go: the configuration read from the environment. `os.Getenv` is an
-- argument, which yields the empty text for a variable that is not set.
pub mod Load
pub mod Dsn
pub mod DsnRead
pub mod Settings
pub mod Accepted
pub mod Environment
use notip_data_consumer.Prelude.{
  ◌≡◌, refl, Bool, true, false, not, ◌&&◌, ◌||◌, Option, none, some, List, [], ◌∷◌, if◌then◌else◌,
  ◌==◌,
}
use notip_data_consumer.Prelude.Bytes.{Bytes, bytes_eq, lit}
use notip_data_consumer.Prelude.Int.{ℤ, pos}
use notip_data_consumer.Prelude.Outcome.{Result, ok, err}
use notip_data_consumer.Strconv.{NumError, parse_int64}

-- `Config`
pub record Config : Type 0 where
  pub nats_url : Bytes
  pub nats_tls_ca : Bytes
  pub nats_tls_cert : Bytes
  pub nats_tls_key : Bytes
  pub nats_consumer_durable_name : Bytes
  pub nats_connect_timeout_seconds : ℤ
  pub db_host : Bytes
  pub db_port : ℤ
  pub db_name : Bytes
  pub db_user : Bytes
  pub db_password_file : Bytes
  pub db_max_conns : ℤ
  pub db_min_conns : ℤ
  pub db_ssl_mode : Bytes
  pub db_ssl_root_cert : Bytes
  pub gateway_buffer_size : ℤ
  pub heartbeat_tick_ms : ℤ
  pub heartbeat_grace_period_ms : ℤ
  pub alert_config_refresh_ms : ℤ
  pub alert_config_default_timeout_ms : ℤ
  pub alert_config_max_retries : ℤ
  pub alert_config_initial_backoff_ms : ℤ
  pub alert_config_max_backoff_ms : ℤ
  pub metrics_addr : Bytes

-- The errors of this file, by the `fmt.Errorf` that makes them.
pub data ConfigError : Type 0 where
  not_set : Bytes → ConfigError
  malformed : Bytes → NumError → ConfigError
  invalid_ssl_mode : Bytes → ConfigError
  no_root_cert : Bytes → ConfigError

-- `loader`
pub record Loader : Type 0 where
  pub cfg : Config
  pub failure : Option ConfigError

abbrev pub Env : Type 0
Env = Bytes → Bytes

-- A pointer to a field of the configuration.
pub record Field (A : Type 0) : Type 0 where
  pub get : Config → A
  pub set : A → Config → Config
  pub set_get : (c : Config) → set (get c) c ≡ c

-- `envOrDefault`
unfoldable pub env_or_default : Env → Bytes → Bytes → Bytes
env_or_default env key default = let v = env key in if v == [] then default else v

pub require_value : Bytes → Bytes → Field Bytes → Loader → Loader
require_value key v dst l =
    if v == []
    then record l { failure = some (not_set key) }
    else record l { cfg = dst.set v l.cfg }

-- `loader.require`
unfoldable pub require : Env → Bytes → Field Bytes → Loader → Loader
unfolding require_value
require env key dst l = elim l.failure [ some e ↦ l | none ↦ require_value key (env key) dst l ]

-- `parseInt` and `parseInt64`: `int` has 64 bits.
unfoldable pub parse_int : Bytes → Field ℤ → Config → Result NumError Config
parse_int s dst c =
    if s == [] then ok c else elim (parse_int64 s) [ err e ↦ err e | ok v ↦ ok (dst.set v c) ]

-- `loader.optInt` and `loader.optInt64`
unfoldable pub opt_int : Env → Bytes → Field ℤ → Loader → Loader
unfolding parse_int
opt_int env key dst l = elim l.failure [
  | some e ↦ l
  | none ↦ elim (parse_int (env key) dst l.cfg) [
    | err e ↦ record l { failure = some (malformed key e) }
    | ok cfg ↦ record l { cfg = cfg }
  ]
]

-- `validateDBSSLMode`; nil is `none`
unfoldable pub validate_db_ssl_mode : Bytes → Option ConfigError
validate_db_ssl_mode v =
    if v == lit "disable"
      || (v == lit "require" || (v == lit "verify-ca" || v == lit "verify-full"))
    then none
    else some (invalid_ssl_mode v)

-- `requiresDBSSLRootCert`
unfoldable pub requires_db_ssl_root_cert : Bytes → Bool
requires_db_ssl_root_cert mode = mode == lit "verify-ca" || mode == lit "verify-full"
