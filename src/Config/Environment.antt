-- ===== src/Config/Environment.antt =====
-- The environment that `Load` of internal/config/config.go accepts, by the names of its variables, and
-- the configuration that comes of it.
use notip_data_consumer.Prelude.{
  ◌≡◌, ◌≢◌, ◌↔◌, ◌⊎◌, inl, inr, refl, sym, subst, none, List, [], ◌∷◌, ◌==◌, arith, All, Bool-cases,
}
use notip_data_consumer.Prelude.Bytes.{Bytes, bytes_eq, bytes_eqb_iff, lit}
use notip_data_consumer.Prelude.Int.{ℤ, pos}
use notip_data_consumer.Strconv.Numeral.{IsNumeral, parse_int64_iff}
use notip_data_consumer.Config.{Config, Env}
use notip_data_consumer.Config.Load.{settings, load}
use notip_data_consumer.Config.Settings.{Accepts, IsOptionalNumber, number_or}
use notip_data_consumer.Config.Accepted.{
  text_or, IsSecured, described, load_accepted, load-described,
}

-- The variables that must be set.
abbrev pub required_variables : List Bytes
required_variables =
    lit "NATS_URL"
    ∷ lit "NATS_TLS_CA"
    ∷ lit "NATS_TLS_CERT"
    ∷ lit "NATS_TLS_KEY"
    ∷ lit "DB_HOST"
    ∷ lit "DB_NAME"
    ∷ lit "DB_USER"
    ∷ lit "DB_PASSWORD_FILE"
    ∷ []

-- The variables that hold a number, if they are set.
abbrev pub number_variables : List Bytes
number_variables =
    lit "DB_PORT"
    ∷ lit "NATS_CONNECT_TIMEOUT_SECONDS"
    ∷ lit "DB_MAX_CONNS"
    ∷ lit "DB_MIN_CONNS"
    ∷ lit "GATEWAY_BUFFER_SIZE"
    ∷ lit "HEARTBEAT_TICK_MS"
    ∷ lit "HEARTBEAT_GRACE_PERIOD_MS"
    ∷ lit "ALERT_CONFIG_REFRESH_MS"
    ∷ lit "ALERT_CONFIG_DEFAULT_TIMEOUT_MS"
    ∷ lit "ALERT_CONFIG_MAX_RETRIES"
    ∷ lit "ALERT_CONFIG_INITIAL_BACKOFF_MS"
    ∷ lit "ALERT_CONFIG_MAX_BACKOFF_MS"
    ∷ []

-- What the environment must have for `Load` to succeed.
pub record IsEnvironment (env : Env) : Type 0 where
  pub required_set : All (λ key. env key ≢ []) required_variables
  pub numbers_read : All (λ key. IsOptionalNumber (env key)) number_variables
  pub tls :
      IsSecured (text_or (env (lit "DB_SSL_MODE")) (lit "require")) (env (lit "DB_SSL_ROOT_CERT"))

settings_iff :
    (env : Env)
    → All (Accepts env) settings ↔ (
        All (λ key. env key ≢ []) required_variables
        × All (λ key. IsOptionalNumber (env key)) number_variables)
unfolding Accepts settings
settings_iff env = (
  λ (a, (b, (c, (d, (e, (f, (g, (h, (_, numbers))))))))).
      ((a, (b, (c, (d, (e, (f, (g, (h, tt)))))))), numbers),
  λ ((a, (b, (c, (d, (e, (f, (g, (h, _)))))))), numbers).
      (a, (b, (c, (d, (e, (f, (g, (h, (tt, numbers))))))))),
)

-- `Load` succeeds exactly if each of the eight variables NATS_URL, NATS_TLS_CA, NATS_TLS_CERT,
-- NATS_TLS_KEY, DB_HOST, DB_NAME, DB_USER and DB_PASSWORD_FILE is set, each of the twelve variables
-- for numbers is the decimal of an `int64` or not set, and DB_SSL_MODE, which is `require` if it is
-- not set, is one of the four modes, with DB_SSL_ROOT_CERT set if the mode verifies a certificate.
pub load_iff : (env : Env) → ((load env).failure ≡ none) ↔ IsEnvironment env
unfolding described
load_iff env =
    let ends = load_accepted env in
    let all = settings_iff env in
    (
      λ h.
          let (accepted, secure) = ends.0 h in
          let (texts, numbers) = all.0 accepted in
          record { required_set = texts; numbers_read = numbers; tls = secure },
      λ e. ends.1 (all.1 (e.required_set, e.numbers_read), e.tls),
    )

-- The field holds the text of the variable, or the default if that is not set.
abbrev pub IsTextOr : Bytes → Bytes → Bytes → Type 0
IsTextOr s default field = ((s ≡ []) × (field ≡ default)) ⊎ ((s ≢ []) × (field ≡ s))

-- The field holds the number that the variable denotes, or the default if that is not set.
abbrev pub IsNumberOr : Bytes → ℤ → ℤ → Type 0
IsNumberOr s default field = ((s ≡ []) × (field ≡ default)) ⊎ ((s ≢ []) × IsNumeral s field)

text_or-IsTextOr : (s default : Bytes) → IsTextOr s default (text_or s default)
text_or-IsTextOr [] default = inl (refl, refl)
text_or-IsTextOr (c ∷ s) default = inr (λ e. cc, refl)

number_or-IsNumberOr :
    (s : Bytes) (default : ℤ) → IsOptionalNumber s → IsNumberOr s default (number_or s default)
unfolding number_or
number_or-IsNumberOr s default (inl e) = inl (e, ground (arith, bytes_eqb_iff s []))
number_or-IsNumberOr s default (inr (z, numeral)) =
    let read = (parse_int64_iff s z).1 numeral in
    elim (Bool-cases (s == [])) [
      | inl empty ↦ inl (ground (arith, bytes_eqb_iff s []), ground (arith, empty))
      | inr given ↦
          let same : number_or s default ≡ z = ground (arith, given, read) in
          inr (ground (arith, given, bytes_eqb_iff s []), subst (IsNumeral s) (sym same) numeral)
    ]

-- The configuration field by field.
pub record IsReadFrom (env : Env) (c : Config) : Type 0 where
  pub nats_url : c.nats_url ≡ env (lit "NATS_URL")
  pub nats_tls_ca : c.nats_tls_ca ≡ env (lit "NATS_TLS_CA")
  pub nats_tls_cert : c.nats_tls_cert ≡ env (lit "NATS_TLS_CERT")
  pub nats_tls_key : c.nats_tls_key ≡ env (lit "NATS_TLS_KEY")
  pub nats_consumer_durable_name :
      IsTextOr
        (env (lit "NATS_CONSUMER_DURABLE_NAME"))
        (lit "data-consumer-telemetry")
        c.nats_consumer_durable_name
  pub nats_connect_timeout_seconds :
      IsNumberOr (env (lit "NATS_CONNECT_TIMEOUT_SECONDS")) (pos 10) c.nats_connect_timeout_seconds
  pub db_host : c.db_host ≡ env (lit "DB_HOST")
  pub db_port : IsNumberOr (env (lit "DB_PORT")) (pos 5432) c.db_port
  pub db_name : c.db_name ≡ env (lit "DB_NAME")
  pub db_user : c.db_user ≡ env (lit "DB_USER")
  pub db_password_file : c.db_password_file ≡ env (lit "DB_PASSWORD_FILE")
  pub db_max_conns : IsNumberOr (env (lit "DB_MAX_CONNS")) (pos 10) c.db_max_conns
  pub db_min_conns : IsNumberOr (env (lit "DB_MIN_CONNS")) (pos 2) c.db_min_conns
  pub db_ssl_mode : IsTextOr (env (lit "DB_SSL_MODE")) (lit "require") c.db_ssl_mode
  pub db_ssl_root_cert : c.db_ssl_root_cert ≡ env (lit "DB_SSL_ROOT_CERT")
  pub gateway_buffer_size :
      IsNumberOr (env (lit "GATEWAY_BUFFER_SIZE")) (pos 1000) c.gateway_buffer_size
  pub heartbeat_tick_ms : IsNumberOr (env (lit "HEARTBEAT_TICK_MS")) (pos 10000) c.heartbeat_tick_ms
  pub heartbeat_grace_period_ms :
      IsNumberOr (env (lit "HEARTBEAT_GRACE_PERIOD_MS")) (pos 120000) c.heartbeat_grace_period_ms
  pub alert_config_refresh_ms :
      IsNumberOr (env (lit "ALERT_CONFIG_REFRESH_MS")) (pos 30000) c.alert_config_refresh_ms
  pub alert_config_default_timeout_ms :
      IsNumberOr
        (env (lit "ALERT_CONFIG_DEFAULT_TIMEOUT_MS"))
        (pos 60000)
        c.alert_config_default_timeout_ms
  pub alert_config_max_retries :
      IsNumberOr (env (lit "ALERT_CONFIG_MAX_RETRIES")) (pos 10) c.alert_config_max_retries
  pub alert_config_initial_backoff_ms :
      IsNumberOr
        (env (lit "ALERT_CONFIG_INITIAL_BACKOFF_MS"))
        (pos 1000)
        c.alert_config_initial_backoff_ms
  pub alert_config_max_backoff_ms :
      IsNumberOr (env (lit "ALERT_CONFIG_MAX_BACKOFF_MS")) (pos 30000) c.alert_config_max_backoff_ms
  pub metrics_addr : IsTextOr (env (lit "METRICS_ADDR")) (lit ":9090") c.metrics_addr

described-IsReadFrom :
    (env : Env)
    → All (λ key. IsOptionalNumber (env key)) number_variables
    → IsReadFrom env (described env)
unfolding described
described-IsReadFrom env
      (n0, (n1, (n2, (n3, (n4, (n5, (n6, (n7, (n8, (n9, (n10, (n11, _)))))))))))) =
    record {
      nats_url = refl;
      nats_tls_ca = refl;
      nats_tls_cert = refl;
      nats_tls_key = refl;
      nats_consumer_durable_name =
          text_or-IsTextOr (env (lit "NATS_CONSUMER_DURABLE_NAME")) (lit "data-consumer-telemetry");
      nats_connect_timeout_seconds =
          number_or-IsNumberOr (env (lit "NATS_CONNECT_TIMEOUT_SECONDS")) (pos 10) n1;
      db_host = refl;
      db_port = number_or-IsNumberOr (env (lit "DB_PORT")) (pos 5432) n0;
      db_name = refl;
      db_user = refl;
      db_password_file = refl;
      db_max_conns = number_or-IsNumberOr (env (lit "DB_MAX_CONNS")) (pos 10) n2;
      db_min_conns = number_or-IsNumberOr (env (lit "DB_MIN_CONNS")) (pos 2) n3;
      db_ssl_mode = text_or-IsTextOr (env (lit "DB_SSL_MODE")) (lit "require");
      db_ssl_root_cert = refl;
      gateway_buffer_size = number_or-IsNumberOr (env (lit "GATEWAY_BUFFER_SIZE")) (pos 1000) n4;
      heartbeat_tick_ms = number_or-IsNumberOr (env (lit "HEARTBEAT_TICK_MS")) (pos 10000) n5;
      heartbeat_grace_period_ms =
          number_or-IsNumberOr (env (lit "HEARTBEAT_GRACE_PERIOD_MS")) (pos 120000) n6;
      alert_config_refresh_ms =
          number_or-IsNumberOr (env (lit "ALERT_CONFIG_REFRESH_MS")) (pos 30000) n7;
      alert_config_default_timeout_ms =
          number_or-IsNumberOr (env (lit "ALERT_CONFIG_DEFAULT_TIMEOUT_MS")) (pos 60000) n8;
      alert_config_max_retries =
          number_or-IsNumberOr (env (lit "ALERT_CONFIG_MAX_RETRIES")) (pos 10) n9;
      alert_config_initial_backoff_ms =
          number_or-IsNumberOr (env (lit "ALERT_CONFIG_INITIAL_BACKOFF_MS")) (pos 1000) n10;
      alert_config_max_backoff_ms =
          number_or-IsNumberOr (env (lit "ALERT_CONFIG_MAX_BACKOFF_MS")) (pos 30000) n11;
      metrics_addr = text_or-IsTextOr (env (lit "METRICS_ADDR")) (lit ":9090");
    }

-- Where `Load` succeeds, each field of its configuration is read from the variable of its name: the
-- required texts and DB_SSL_ROOT_CERT as they are, NATS_CONSUMER_DURABLE_NAME, DB_SSL_MODE and
-- METRICS_ADDR or their defaults where they are not set, and each number as what its variable denotes
-- or, where that is not set, the default, of which those of the periods are 10000 ms for the tick,
-- 120000 ms for the grace period, 30000 ms for the refresh of the alert configurations and 60000 ms
-- for the default timeout.
pub load-IsReadFrom : (env : Env) → (load env).failure ≡ none → IsReadFrom env (load env).cfg
load-IsReadFrom env h =
    subst (IsReadFrom env) (sym (load-described env h))
      (described-IsReadFrom env ((load_iff env).0 h).numbers_read)
