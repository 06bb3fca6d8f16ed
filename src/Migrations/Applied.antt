-- ===== src/Migrations/Applied.antt =====
-- Which scripts `Apply` of migrations/embed.go has executed when it ends.
use notip_data_consumer.Prelude.{◌≡◌, Option, none, some, List, [], ◌∷◌, ◌++◌}
use notip_data_consumer.Prelude.Bytes.{Bytes}
use notip_data_consumer.Prelude.Outcome.{ok, err}
use notip_data_consumer.Migrations.{MigrationError, not_read, not_applied, Embedded}

module _ {ℓ} {Db : Type ℓ} (exec : Db → Bytes → Db × Option Bytes) (fs : Embedded) where
  -- The scripts of the names, in order, lead from the one state of the database to the other.
  pub data Executed : Db → List Bytes → Db → Type ℓ where
    no_more : (db : Db) → Executed db [] db
    executes :
        {db db1 db2 : Db} {names : List Bytes} (name statement : Bytes)
        → fs.read_file name ≡ ok statement
        → exec db statement ≡ (db1, none)
        → Executed db1 names db2
        → Executed db (name ∷ names) db2

  -- How the loop over the names may end, with the last state and the error.
  pub data Ended (names : List Bytes) (db : Db) : Db × Option MigrationError → Type ℓ where
    all_applied : {last : Db} → Executed db names last → Ended names db (last, none)
    file_unread :
        {last : Db} (before : List Bytes) (name : Bytes) (after : List Bytes) (e : Bytes)
        → names ≡ before ++ name ∷ after
        → Executed db before last
        → fs.read_file name ≡ err e
        → Ended names db (last, some (not_read name e))
    script_refused :
        {db1 last : Db} (before : List Bytes) (name : Bytes) (after : List Bytes)
        (statement e : Bytes)
        → names ≡ before ++ name ∷ after
        → Executed db before db1
        → fs.read_file name ≡ ok statement
        → exec db1 statement ≡ (last, some e)
        → Ended names db (last, some (not_applied name e))
