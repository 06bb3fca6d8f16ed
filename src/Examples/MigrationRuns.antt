-- ===== src/Examples/MigrationRuns.antt =====
-- Three entries of which two are scripts; the database refuses the second of them.
use notip_data_consumer.Prelude.{
  ◌≡◌, refl, false, Option, none, some, List, [], ◌∷◌, ◌++◌, ◌==◌, if◌then◌else◌,
}
use notip_data_consumer.Prelude.Bytes.{Bytes, bytes_eq, bytes_eqb, lit}
use notip_data_consumer.Prelude.Outcome.{ok}
use notip_data_consumer.Migrations.{DirEntry, not_applied, Embedded, bytes_leb, has_suffix, apply}

abbrev entries : List DirEntry
entries =
    record { name = lit "002_index.sql"; is_dir = false }
    ∷ record { name = lit "embed.go"; is_dir = false }
    ∷ record { name = lit "001_table.sql"; is_dir = false }
    ∷ []

-- Each file holds its own name.
abbrev fs : Embedded
fs = record { read_dir = ok entries; read_file = λ name. ok name }

-- The database is the list of the scripts that it executed; it refuses the second.
abbrev exec : List Bytes → Bytes → List Bytes × Option Bytes
exec db statement =
    if statement == lit "002_index.sql"
    then (db, some (lit "syntax error"))
    else (db ++ statement ∷ [], none)

applied :
    apply exec fs []
    ≡ (lit "001_table.sql" ∷ [], some (not_applied (lit "002_index.sql") (lit "syntax error")))
unfolding apply bytes_eqb bytes_leb has_suffix
applied = refl
