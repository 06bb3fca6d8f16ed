-- ===== src/Config/Accepted.antt =====
-- When `Load` of internal/config/config.go succeeds, with which configuration, and with which error
-- it fails.
use notip_data_consumer.Prelude.{
  ◌≡◌, ◌≢◌, ◌↔◌, ◌⊎◌, inl, inr, refl, sym, ap, subst, ◌∙◌, ◌&&◌, Option, none, some, List, [], ◌∷◌,
  if◌then◌else◌, ◌==◌, arith, All, All-middle,
}
use notip_data_consumer.Prelude.Bytes.{Bytes, bytes_eq, bytes_eqb, bytes_eqb_iff, lit}
use notip_data_consumer.Prelude.Int.{pos}
use notip_data_consumer.Config.{
  Config, ConfigError, invalid_ssl_mode, no_root_cert, Loader, Env, env_or_default,
  validate_db_ssl_mode, requires_db_ssl_root_cert,
}
use notip_data_consumer.Config.Load.{
  Setting, apply_settings, settings, default_config, check_ssl, load,
}
use notip_data_consumer.Config.Settings.{
  Accepts, number_or, fault_iff, assign, assign_all, fresh, FirstFault, all_read, stopped,
  settings-Run,
}

-- A variable's text, or the default if that is empty.
abbrev pub text_or : Bytes → Bytes → Bytes
text_or [] default = default
text_or (c ∷ s) default = c ∷ s

-- The configuration that the environment describes, where it is accepted.
unfoldable pub described : Env → Config
described env = record {
  nats_url = env (lit "NATS_URL");
  nats_tls_ca = env (lit "NATS_TLS_CA");
  nats_tls_cert = env (lit "NATS_TLS_CERT");
  nats_tls_key = env (lit "NATS_TLS_KEY");
  nats_consumer_durable_name =
      text_or (env (lit "NATS_CONSUMER_DURABLE_NAME")) (lit "data-consumer-telemetry");
  nats_connect_timeout_seconds = number_or (env (lit "NATS_CONNECT_TIMEOUT_SECONDS")) (pos 10);
  db_host = env (lit "DB_HOST");
  db_port = number_or (env (lit "DB_PORT")) (pos 5432);
  db_name = env (lit "DB_NAME");
  db_user = env (lit "DB_USER");
  db_password_file = env (lit "DB_PASSWORD_FILE");
  db_max_conns = number_or (env (lit "DB_MAX_CONNS")) (pos 10);
  db_min_conns = number_or (env (lit "DB_MIN_CONNS")) (pos 2);
  db_ssl_mode = text_or (env (lit "DB_SSL_MODE")) (lit "require");
  db_ssl_root_cert = env (lit "DB_SSL_ROOT_CERT");
  gateway_buffer_size = number_or (env (lit "GATEWAY_BUFFER_SIZE")) (pos 1000);
  heartbeat_tick_ms = number_or (env (lit "HEARTBEAT_TICK_MS")) (pos 10000);
  heartbeat_grace_period_ms = number_or (env (lit "HEARTBEAT_GRACE_PERIOD_MS")) (pos 120000);
  alert_config_refresh_ms = number_or (env (lit "ALERT_CONFIG_REFRESH_MS")) (pos 30000);
  alert_config_default_timeout_ms =
      number_or (env (lit "ALERT_CONFIG_DEFAULT_TIMEOUT_MS")) (pos 60000);
  alert_config_max_retries = number_or (env (lit "ALERT_CONFIG_MAX_RETRIES")) (pos 10);
  alert_config_initial_backoff_ms =
      number_or (env (lit "ALERT_CONFIG_INITIAL_BACKOFF_MS")) (pos 1000);
  alert_config_max_backoff_ms = number_or (env (lit "ALERT_CONFIG_MAX_BACKOFF_MS")) (pos 30000);
  metrics_addr = text_or (env (lit "METRICS_ADDR")) (lit ":9090");
}

env_or_default-text_or :
    (env : Env) (key default : Bytes) → env_or_default env key default ≡ text_or (env key) default
unfolding env_or_default
env_or_default-text_or env key default = given (env key)
  where
    given : (s : Bytes) → (if s == [] then default else s) ≡ text_or s default
    given [] = unfold bytes_eqb in refl
    given (c ∷ s) = ground (arith, bytes_eqb_iff (c ∷ s) [])

settings-described : (env : Env) → assign_all env settings (default_config env) ≡ described env
unfolding assign_all assign settings default_config described
settings-described env =
    rw
      (
        env_or_default-text_or env (lit "NATS_CONSUMER_DURABLE_NAME")
            (lit "data-consumer-telemetry"),
        env_or_default-text_or env (lit "DB_SSL_MODE") (lit "require"),
        env_or_default-text_or env (lit "METRICS_ADDR") (lit ":9090"),
      )
      refl

-- One of the four modes of TLS, with a certificate where the mode verifies one.
unfoldable pub IsSecured : Bytes → Bytes → Type 0
IsSecured mode cert =
    (mode ≡ lit "disable" ⊎ (mode ≡ lit "require"))
    ⊎ ((mode ≡ lit "verify-ca" ⊎ (mode ≡ lit "verify-full")) × (cert ≢ []))

-- The error of the checks on TLS.
ssl_fault : Bytes → Bytes → Option ConfigError
ssl_fault mode cert =
    if requires_db_ssl_root_cert mode && cert == []
    then some (no_root_cert mode)
    else validate_db_ssl_mode mode

secured : (mode cert : Bytes) → ssl_fault mode cert ≡ none → IsSecured mode cert
unfolding ssl_fault IsSecured requires_db_ssl_root_cert validate_db_ssl_mode
secured mode cert h = ground (
  arith,
  bytes_eqb_iff mode (lit "disable"),
  bytes_eqb_iff mode (lit "require"),
  bytes_eqb_iff mode (lit "verify-ca"),
  bytes_eqb_iff mode (lit "verify-full"),
  bytes_eqb_iff cert [],
)

secured_clean : (mode cert : Bytes) → IsSecured mode cert → ssl_fault mode cert ≡ none
unfolding ssl_fault IsSecured requires_db_ssl_root_cert validate_db_ssl_mode bytes_eqb
secured_clean mode cert (inl (inl m)) = rw m refl
secured_clean mode cert (inl (inr m)) = rw m refl
secured_clean mode cert (inr (inl m, c)) = rw m (ground (arith, bytes_eqb_iff cert []))
secured_clean mode cert (inr (inr m, c)) = rw m (ground (arith, bytes_eqb_iff cert []))

ssl_fault_kind :
    (mode cert : Bytes) (e : ConfigError)
    → ssl_fault mode cert ≡ some e
    → e ≡ invalid_ssl_mode mode ⊎ (e ≡ no_root_cert mode)
unfolding ssl_fault validate_db_ssl_mode
ssl_fault_kind mode cert e h = ground arith

check_ssl_failure :
    (c : Config) → (check_ssl (fresh c)).failure ≡ ssl_fault c.db_ssl_mode c.db_ssl_root_cert
unfolding check_ssl ssl_fault
check_ssl_failure c = ground arith

check_ssl_failed :
    (l : Loader) (e : ConfigError) → l.failure ≡ some e → (check_ssl l).failure ≡ some e
unfolding check_ssl
check_ssl_failed l e h = ground (arith, h)

check_ssl_cfg : (l : Loader) → (check_ssl l).cfg ≡ l.cfg
unfolding check_ssl
check_ssl_cfg l = ground arith

-- `Load` where the settings are accepted, and where one of them is not.
data LoadEnd (env : Env) : Type 0 where
  checked : All (Accepts env) settings → load env ≡ check_ssl (fresh (described env)) → LoadEnd env
  refused :
      (e : ConfigError) → FirstFault env settings e → (load env).failure ≡ some e → LoadEnd env

load_end : (env : Env) → LoadEnd env
unfolding load
load_end env = elim (settings-Run env settings (default_config env)) [
  | all_read accepted r ↦ checked accepted (ap check_ssl (r ∙ ap fresh (settings-described env)))
  | stopped e first r ↦
      refused e first
        (check_ssl_failed (apply_settings env settings (fresh (default_config env))) e r)
]

no-FirstFault :
    (env : Env) (ss : List Setting) (e : ConfigError)
    → FirstFault env ss e
    → All (Accepts env) ss
    → ⊥
no-FirstFault env ss e first accepted =
    let well =
      All-middle (Accepts env) first.before first.culprit first.after
        (subst (All (Accepts env)) first.divided accepted) in
    ground (arith, first.gives, (fault_iff env first.culprit).1 well)

-- `Load` succeeds exactly if its settings are accepted, and the mode of TLS.
pub load_accepted :
    (env : Env)
    → ((load env).failure ≡ none) ↔ (
        All (Accepts env) settings
        × IsSecured (described env).db_ssl_mode (described env).db_ssl_root_cert)
load_accepted env = elim (load_end env) [
  | checked accepted r ↦
      let mode = (described env).db_ssl_mode in
      let cert = (described env).db_ssl_root_cert in
      let end = ap (λ l. l.failure) r ∙ check_ssl_failure (described env) in
      (λ h. (accepted, secured mode cert (sym end ∙ h)), λ h. end ∙ secured_clean mode cert h.1)
  | refused e first r ↦
      (λ h. absurd (ground (arith, r, h)), λ h. absurd (no-FirstFault env settings e first h.0))
]

-- Where `Load` succeeds, its configuration is the one that the environment describes.
pub load-described : (env : Env) → (load env).failure ≡ none → (load env).cfg ≡ described env
load-described env h = elim (load_end env) [
  | checked accepted r ↦ ap (λ l. l.cfg) r ∙ check_ssl_cfg (fresh (described env))
  | refused e first r ↦ absurd (ground (arith, r, h))
]

-- Where `Load` fails, its error is that of the first setting that is not accepted, or else that of
-- the mode of TLS.
pub load_failure :
    (env : Env) (e : ConfigError)
    → (load env).failure ≡ some e
    → FirstFault env settings e
      ⊎ (All (Accepts env) settings
          × (¬ IsSecured (described env).db_ssl_mode (described env).db_ssl_root_cert)
          × (e ≡ invalid_ssl_mode (described env).db_ssl_mode
              ⊎ (e ≡ no_root_cert (described env).db_ssl_mode)))
load_failure env e h = elim (load_end env) [
  | checked accepted r ↦
      let mode = (described env).db_ssl_mode in
      let cert = (described env).db_ssl_root_cert in
      let bad : ssl_fault mode cert ≡ some e =
        sym (check_ssl_failure (described env)) ∙ (ap (λ l. l.failure) (sym r) ∙ h) in
      inr (
        accepted,
        λ secure. ground (arith, bad, secured_clean mode cert secure),
        ssl_fault_kind mode cert e bad,
      )
  | refused f first r ↦ inl (subst (FirstFault env settings) (ground (arith, r, h)) first)
]
