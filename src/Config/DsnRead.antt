-- ===== src/Config/DsnRead.antt =====
-- Reading the address that `GetDatabaseDSN` of internal/config/config.go makes.
use notip_data_consumer.Prelude.{
  ◌+◌, ◌<◌, ◌≡◌, refl, Bool, true, false, not, ◌&&◌, ◌||◌, ◌∙◌, Option, some, List, [], ◌∷◌, ◌++◌,
  map, if◌then◌else◌, ◌==◌, arith, All, All-append,
}
use notip_data_consumer.Prelude.Bytes.{Bytes, bytes_eq, bytes_eqb, lit, Lacks}
use notip_data_consumer.Prelude.Int.{ℤ, pos, negsuc, InInt64}
use notip_data_consumer.Prelude.Outcome.{Result, ok}
use notip_data_consumer.Strconv.{NumError, is_digit, format_int, parse_int64}
use notip_data_consumer.Strconv.Format.{digits-Writes, parse_int64-format_int}
use notip_data_consumer.Text.{trim_space, All-trim_space}
use notip_data_consumer.NetUrl.{starts_with_slash, url_string, encode_values}
use notip_data_consumer.NetUrl.Cut.{cut, cut_first, or_empty}
use notip_data_consumer.NetUrl.Escapes.{IsText}
use notip_data_consumer.NetUrl.Reads.{read_url, IsReadable, read_url-url_string}
use notip_data_consumer.NetUrl.Values.{
  read_values, found_pair, IsTextPair, read_values-encode_values,
}
use notip_data_consumer.Config.{Config, requires_db_ssl_root_cert}
use notip_data_consumer.Config.Dsn.{ssl_values, dsn_url, get_database_dsn}

pub record DsnReading : Type 0 where
  pub scheme : Bytes
  pub user : Option Bytes
  pub password : Option Bytes
  pub host : Bytes
  pub port : Result NumError ℤ
  pub database : Option Bytes
  pub settings : List (Option Bytes × Option Bytes)

-- What is at an address: the parts of the URL, the host and the port, and the values of the query.
unfoldable pub read_dsn : Bytes → DsnReading
read_dsn s =
    let u = read_url s in
    let server = cut b':' (or_empty u.host) in
    record {
      scheme = u.scheme;
      user = u.username;
      password = u.password;
      host = server.0;
      port = parse_int64 (or_empty server.1);
      database = u.path;
      settings = read_values u.raw_query;
    }

-- What is assumed of the configuration; every string is a text of bytes, and every `int` is in range.
pub record IsAddress (c : Config) : Type 0 where
  pub user_text : IsText c.db_user
  pub host_text : IsText c.db_host
  pub host_plain : Lacks b':' c.db_host
  pub port_range : InInt64 c.db_port
  pub name_text : IsText c.db_name
  pub name_relative : starts_with_slash c.db_name ≡ false
  pub mode_text : IsText c.db_ssl_mode
  pub cert_text : IsText c.db_ssl_root_cert

digits-IsText : (s : Bytes) → All (λ d. is_digit d ≡ true) s → IsText s
digits-IsText [] h = tt
digits-IsText (c ∷ s) h = (ground (arith, h.0), digits-IsText s h.1)

format_int-IsText : (z : ℤ) → IsText (format_int z)
unfolding format_int
format_int-IsText (pos n) = digits-IsText _ (digits-Writes (n + 1) n (omega arith)).all_digits
format_int-IsText (negsuc n) =
    (omega arith, digits-IsText _ (digits-Writes (n + 2) (n + 1) (omega arith)).all_digits)

server-nonempty : (h s : Bytes) → ((h ++ (b':' ∷ s)) == []) ≡ false
unfolding bytes_eqb
server-nonempty [] s = refl
server-nonempty (c ∷ h) s = refl

dsn_url-IsReadable :
    (c : Config) (password : Bytes)
    → IsAddress c
    → IsText password
    → IsReadable (dsn_url c password)
unfolding dsn_url
dsn_url-IsReadable c password a p = record {
  scheme_plain = ground arith;
  username_text = a.user_text;
  password_text = p;
  host_text =
      All-append (λ b. b < 256) c.db_host (b':' ∷ format_int c.db_port) a.host_text
        (omega arith, format_int-IsText c.db_port);
  path_text = a.name_text;
  some_host = server-nonempty c.db_host (format_int c.db_port);
  path_relative = a.name_relative;
}

optional-IsText :
    (b : Bool) (v : Bytes × Bytes) → IsTextPair v → All IsTextPair (if b then v ∷ [] else [])
optional-IsText true v t = (t, tt)
optional-IsText false v t = tt

ssl_values-IsText : (c : Config) → IsAddress c → All IsTextPair (ssl_values c)
unfolding ssl_values
ssl_values-IsText c a = (
  (ground arith, a.mode_text),
  optional-IsText (not (c.db_ssl_root_cert == []) && requires_db_ssl_root_cert c.db_ssl_mode)
      (lit "sslrootcert", c.db_ssl_root_cert) (ground arith, a.cert_text),
)

ssl_values-read :
    (c : Config)
    → IsAddress c
    → read_values (encode_values (ssl_values c)) ≡ map found_pair (ssl_values c)
ssl_values-read c a =
    let t = ssl_values-IsText c a in unfold ssl_values in read_values-encode_values _ _ t

-- The settings of TLS that an address must have: the mode, and the root certificate, if there is one,
-- for a mode that verifies a certificate.
abbrev pub tls_settings : Config → List (Option Bytes × Option Bytes)
tls_settings c =
    (some (lit "sslmode"), some c.db_ssl_mode)
    ∷ (if c.db_ssl_root_cert == []
        then []
        else if c.db_ssl_mode == lit "verify-ca" || c.db_ssl_mode == lit "verify-full"
        then (some (lit "sslrootcert"), some c.db_ssl_root_cert) ∷ []
        else [])

ssl_values-tls_settings : (c : Config) → map found_pair (ssl_values c) ≡ tls_settings c
unfolding ssl_values requires_db_ssl_root_cert
ssl_values-tls_settings c = ground arith

-- The address holds the user, the trimmed content of the password file, the server, the name of
-- the database and the mode of TLS, with the root certificate if one is set and the mode is
-- verify-ca or verify-full.
pub read_dsn-get_database_dsn :
    {E : Type 0} (file : Bytes) (c : Config)
    → IsText file
    → IsAddress c
    → (d : Bytes) × (get_database_dsn {E = E} (ok file) c ≡ ok d)
      × (read_dsn d ≡ record {
        scheme = lit "postgres";
        user = some c.db_user;
        password = some (trim_space file);
        host = c.db_host;
        port = ok c.db_port;
        database = some c.db_name;
        settings = tls_settings c;
      })
unfolding get_database_dsn
read_dsn-get_database_dsn file c t a =
    let password = All-trim_space (λ b. b < 256) file t in
    (
      url_string (dsn_url c (trim_space file)),
      refl,
      unfold read_dsn in
          rw
            (read_url-url_string (dsn_url c (trim_space file))
              (dsn_url-IsReadable c (trim_space file) a password))
            (unfold dsn_url in
              rw
                (
                  cut_first b':' c.db_host (format_int c.db_port) a.host_plain,
                  parse_int64-format_int c.db_port a.port_range,
                  ssl_values-read c a ∙ ssl_values-tls_settings c,
                )
                refl),
    )
