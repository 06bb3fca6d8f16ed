-- ===== src/Config/Load.antt =====
-- `Load` of internal/config/config.go: the defaults, the settings in their order, and the checks on TLS.
use notip_data_consumer.Prelude.{refl, ◌&&◌, none, some, List, [], ◌∷◌, if◌then◌else◌, ◌==◌}
use notip_data_consumer.Prelude.Bytes.{Bytes, bytes_eq, lit}
use notip_data_consumer.Prelude.Int.{ℤ, pos}
use notip_data_consumer.Config.{
  Config, no_root_cert, Loader, Env, Field, env_or_default, require, opt_int, validate_db_ssl_mode,
  requires_db_ssl_root_cert,
}

-- The statements of `Load` that set one field each, in their order.
pub data Setting : Type 0 where
  required : Bytes → Field Bytes → Setting
  plain : Bytes → Field Bytes → Setting
  integer : Bytes → Field ℤ → Setting

unfoldable pub apply_setting : Env → Setting → Loader → Loader
apply_setting env (required key dst) l = require env key dst l
apply_setting env (plain key dst) l = record l { cfg = dst.set (env key) l.cfg }
apply_setting env (integer key dst) l = opt_int env key dst l

unfoldable pub apply_settings : Env → List Setting → Loader → Loader
unfolding apply_setting
apply_settings env [] l = l
apply_settings env (s ∷ ss) l = apply_settings env ss (apply_setting env s l)

unfoldable pub settings : List Setting
settings =
    required (lit "NATS_URL") (record {
      get = λ c. c.nats_url;
      set = λ v c. record c { nats_url = v };
      set_get = λ c. refl;
    })
    ∷ required (lit "NATS_TLS_CA") (record {
      get = λ c. c.nats_tls_ca;
      set = λ v c. record c { nats_tls_ca = v };
      set_get = λ c. refl;
    })
    ∷ required (lit "NATS_TLS_CERT") (record {
      get = λ c. c.nats_tls_cert;
      set = λ v c. record c { nats_tls_cert = v };
      set_get = λ c. refl;
    })
    ∷ required (lit "NATS_TLS_KEY") (record {
      get = λ c. c.nats_tls_key;
      set = λ v c. record c { nats_tls_key = v };
      set_get = λ c. refl;
    })
    ∷ required (lit "DB_HOST") (record {
      get = λ c. c.db_host;
      set = λ v c. record c { db_host = v };
      set_get = λ c. refl;
    })
    ∷ required (lit "DB_NAME") (record {
      get = λ c. c.db_name;
      set = λ v c. record c { db_name = v };
      set_get = λ c. refl;
    })
    ∷ required (lit "DB_USER") (record {
      get = λ c. c.db_user;
      set = λ v c. record c { db_user = v };
      set_get = λ c. refl;
    })
    ∷ required (lit "DB_PASSWORD_FILE") (record {
      get = λ c. c.db_password_file;
      set = λ v c. record c { db_password_file = v };
      set_get = λ c. refl;
    })
    ∷ plain (lit "DB_SSL_ROOT_CERT") (record {
      get = λ c. c.db_ssl_root_cert;
      set = λ v c. record c { db_ssl_root_cert = v };
      set_get = λ c. refl;
    })
    ∷ integer (lit "DB_PORT") (record {
      get = λ c. c.db_port;
      set = λ v c. record c { db_port = v };
      set_get = λ c. refl;
    })
    ∷ integer (lit "NATS_CONNECT_TIMEOUT_SECONDS") (record {
      get = λ c. c.nats_connect_timeout_seconds;
      set = λ v c. record c { nats_connect_timeout_seconds = v };
      set_get = λ c. refl;
    })
    ∷ integer (lit "DB_MAX_CONNS") (record {
      get = λ c. c.db_max_conns;
      set = λ v c. record c { db_max_conns = v };
      set_get = λ c. refl;
    })
    ∷ integer (lit "DB_MIN_CONNS") (record {
      get = λ c. c.db_min_conns;
      set = λ v c. record c { db_min_conns = v };
      set_get = λ c. refl;
    })
    ∷ integer (lit "GATEWAY_BUFFER_SIZE") (record {
      get = λ c. c.gateway_buffer_size;
      set = λ v c. record c { gateway_buffer_size = v };
      set_get = λ c. refl;
    })
    ∷ integer (lit "HEARTBEAT_TICK_MS") (record {
      get = λ c. c.heartbeat_tick_ms;
      set = λ v c. record c { heartbeat_tick_ms = v };
      set_get = λ c. refl;
    })
    ∷ integer (lit "HEARTBEAT_GRACE_PERIOD_MS") (record {
      get = λ c. c.heartbeat_grace_period_ms;
      set = λ v c. record c { heartbeat_grace_period_ms = v };
      set_get = λ c. refl;
    })
    ∷ integer (lit "ALERT_CONFIG_REFRESH_MS") (record {
      get = λ c. c.alert_config_refresh_ms;
      set = λ v c. record c { alert_config_refresh_ms = v };
      set_get = λ c. refl;
    })
    ∷ integer (lit "ALERT_CONFIG_DEFAULT_TIMEOUT_MS") (record {
      get = λ c. c.alert_config_default_timeout_ms;
      set = λ v c. record c { alert_config_default_timeout_ms = v };
      set_get = λ c. refl;
    })
    ∷ integer (lit "ALERT_CONFIG_MAX_RETRIES") (record {
      get = λ c. c.alert_config_max_retries;
      set = λ v c. record c { alert_config_max_retries = v };
      set_get = λ c. refl;
    })
    ∷ integer (lit "ALERT_CONFIG_INITIAL_BACKOFF_MS") (record {
      get = λ c. c.alert_config_initial_backoff_ms;
      set = λ v c. record c { alert_config_initial_backoff_ms = v };
      set_get = λ c. refl;
    })
    ∷ integer (lit "ALERT_CONFIG_MAX_BACKOFF_MS") (record {
      get = λ c. c.alert_config_max_backoff_ms;
      set = λ v c. record c { alert_config_max_backoff_ms = v };
      set_get = λ c. refl;
    })
    ∷ []

-- `Load`, the defaults
unfoldable pub default_config : Env → Config
unfolding env_or_default
default_config env = record {
  nats_url = [];
  nats_tls_ca = [];
  nats_tls_cert = [];
  nats_tls_key = [];
  nats_consumer_durable_name =
      env_or_default env (lit "NATS_CONSUMER_DURABLE_NAME") (lit "data-consumer-telemetry");
  nats_connect_timeout_seconds = pos 10;
  db_host = [];
  db_port = pos 5432;
  db_name = [];
  db_user = [];
  db_password_file = [];
  db_max_conns = pos 10;
  db_min_conns = pos 2;
  db_ssl_mode = env_or_default env (lit "DB_SSL_MODE") (lit "require");
  db_ssl_root_cert = [];
  gateway_buffer_size = pos 1000;
  heartbeat_tick_ms = pos 10000;
  heartbeat_grace_period_ms = pos 120000;
  alert_config_refresh_ms = pos 30000;
  alert_config_default_timeout_ms = pos 60000;
  alert_config_max_retries = pos 10;
  alert_config_initial_backoff_ms = pos 1000;
  alert_config_max_backoff_ms = pos 30000;
  metrics_addr = env_or_default env (lit "METRICS_ADDR") (lit ":9090");
}

-- `Load`, the checks after the settings, of which the later error replaces the earlier.
unfoldable pub check_ssl : Loader → Loader
unfolding validate_db_ssl_mode requires_db_ssl_root_cert
check_ssl l = elim l.failure [
  | some e ↦ l
  | none ↦
      let mode = l.cfg.db_ssl_mode in
      let invalid = validate_db_ssl_mode mode in
      if requires_db_ssl_root_cert mode && l.cfg.db_ssl_root_cert == []
      then record l { failure = some (no_root_cert mode) }
      else record l { failure = invalid }
]

-- `Load`
unfoldable pub load : Env → Loader
unfolding settings apply_settings check_ssl default_config
load env =
    check_ssl (apply_settings env settings (record { cfg = default_config env; failure = none }))
