-- ===== src/Config/Dsn.antt =====
-- internal/config/config.go, `GetDatabaseDSN`: the address of the database. `os.ReadFile` is
-- outside; its result is an argument.
use notip_data_consumer.Prelude.{not, ◌&&◌, List, [], ◌∷◌, ◌++◌, if◌then◌else◌, ◌==◌}
use notip_data_consumer.Prelude.Bytes.{Bytes, bytes_eq, lit}
use notip_data_consumer.Prelude.Outcome.{Result, ok, err}
use notip_data_consumer.Strconv.{format_int}
use notip_data_consumer.Text.{trim_space}
use notip_data_consumer.NetUrl.{Url, url_string, encode_values}
use notip_data_consumer.Config.{Config, requires_db_ssl_root_cert}

-- The query `q`: `Encode` sorts by key, and "sslmode" comes before "sslrootcert".
unfoldable pub ssl_values : Config → List (Bytes × Bytes)
unfolding requires_db_ssl_root_cert
ssl_values c =
    (lit "sslmode", c.db_ssl_mode)
    ∷ (if not (c.db_ssl_root_cert == []) && requires_db_ssl_root_cert c.db_ssl_mode
        then (lit "sslrootcert", c.db_ssl_root_cert) ∷ []
        else [])

-- `dsnURL` at its end
unfoldable pub dsn_url : Config → Bytes → Url
unfolding ssl_values encode_values format_int
dsn_url c password = record {
  scheme = lit "postgres";
  username = c.db_user;
  password = password;
  host = c.db_host ++ (b':' ∷ format_int c.db_port);
  path = c.db_name;
  raw_query = encode_values (ssl_values c);
}

-- The error wraps the one of `os.ReadFile`.
pub record ReadFileError (E : Type 0) : Type 0 where
  pub cause : E

-- `Config.GetDatabaseDSN`
unfoldable pub get_database_dsn :
    {E : Type 0} → Result E Bytes → Config → Result (ReadFileError E) Bytes
unfolding dsn_url url_string trim_space
get_database_dsn (err e) c = err (record { cause = e })
get_database_dsn (ok password_bytes) c = ok (url_string (dsn_url c (trim_space password_bytes)))
