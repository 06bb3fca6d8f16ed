-- ===== src/Examples/DsnRuns.antt =====
-- The address of a database that checks certificates.
use notip_data_consumer.Prelude.{◌≡◌, refl, some, [], arith, ◌∷◌, []}
use notip_data_consumer.Prelude.Bytes.{Bytes, bytes_eqb, lit}
use notip_data_consumer.Prelude.Int.{pos}
use notip_data_consumer.Prelude.Outcome.{ok}
use notip_data_consumer.Text.{trim_space}
use notip_data_consumer.Config.{Config}
use notip_data_consumer.Config.Load.{default_config}
use notip_data_consumer.Config.Dsn.{get_database_dsn}
use notip_data_consumer.Config.DsnRead.{IsAddress, read_dsn, read_dsn-get_database_dsn}

abbrev address : Config
address = record (default_config (λ _. [])) {
  db_host = lit "db";
  db_port = pos 5433;
  db_name = lit "telemetry";
  db_user = lit "writer";
  db_ssl_mode = lit "verify-ca";
  db_ssl_root_cert = lit "/ca.pem";
}

abbrev secret : Bytes
secret = lit "p@ss/w rd\n"

address-IsAddress : IsAddress address
address-IsAddress = record {
  user_text = ground arith;
  host_text = ground arith;
  host_plain = ground arith;
  port_range = ground arith;
  name_text = ground arith;
  name_relative = refl;
  mode_text = ground arith;
  cert_text = ground arith;
}

address_written :
    get_database_dsn {E = Unit {0}} (ok secret) address
    ≡ ok (
        lit
          "postgres://writer:p%40ss%2Fw%20rd@db:5433/telemetry?sslmode=verify-ca&sslrootcert=%2Fca.pem")
unfolding get_database_dsn default_config bytes_eqb
address_written = refl

read_dsn-get_database_dsn_example :
    (d : Bytes) × (get_database_dsn {E = Unit {0}} (ok secret) address ≡ ok d)
    × (read_dsn d ≡ record {
      scheme = lit "postgres";
      user = some (lit "writer");
      password = some (trim_space secret);
      host = lit "db";
      port = ok (pos 5433);
      database = some (lit "telemetry");
      settings =
          (some (lit "sslmode"), some (lit "verify-ca"))
          ∷ (some (lit "sslrootcert"), some (lit "/ca.pem"))
          ∷ [];
    })
unfolding bytes_eqb
read_dsn-get_database_dsn_example =
    read_dsn-get_database_dsn secret address (ground arith) address-IsAddress
