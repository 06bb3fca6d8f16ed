-- ===== src/Migrations.antt =====
-- migrations/embed.go: the SQL scripts, applied in the order of their names. The embedded file
-- system and the database are arguments; a database is any state that executing a script changes.
pub mod Order
pub mod Applied
use notip_data_consumer.Prelude.{
  ℕ, Bool, true, false, not, ◌&&◌, ◌||◌, Option, none, some, List, [], ◌∷◌, ltb, eqb, if◌then◌else◌,
  ◌==◌,
}
use notip_data_consumer.Prelude.Bytes.{Bytes, bytes_eq, lit}
use notip_data_consumer.Prelude.Outcome.{Result, ok, err}

-- What the code reads of an `fs.DirEntry`.
pub record DirEntry : Type 0 where
  pub name : Bytes
  pub is_dir : Bool

-- The errors of `Apply`, by the `fmt.Errorf` that makes them.
pub data MigrationError : Type 0 where
  not_listed : Bytes → MigrationError
  not_read : Bytes → Bytes → MigrationError
  not_applied : Bytes → Bytes → MigrationError

-- `strings.HasSuffix`
unfoldable pub has_suffix : Bytes → Bytes → Bool
has_suffix [] suffix = [] == suffix
has_suffix (c ∷ s) suffix = let rest = has_suffix s suffix in (c ∷ s) == suffix || rest

-- The order of Go's strings.
unfoldable pub bytes_leb : Bytes → Bytes → Bool
bytes_leb [] t = true
bytes_leb (c ∷ s) [] = false
bytes_leb (c ∷ s) (d ∷ t) = let rest = bytes_leb s t in ltb c d || eqb c d && rest

unfoldable pub insert_name : Bytes → List Bytes → List Bytes
insert_name x [] = x ∷ []
insert_name x (y ∷ ys) =
    let rest = insert_name x ys in if bytes_leb x y then x ∷ y ∷ ys else y ∷ rest

-- `sort.Strings`; equal names are the same text, so every way of sorting gives this list.
unfoldable pub sort_strings : List Bytes → List Bytes
unfolding insert_name
sort_strings [] = []
sort_strings (x ∷ xs) = insert_name x (sort_strings xs)

abbrev pub is_script : DirEntry → Bool
is_script entry = not entry.is_dir && has_suffix entry.name (lit ".sql")

-- The loop over the entries.
unfoldable pub script_names : List DirEntry → List Bytes
script_names [] = []
script_names (entry ∷ entries) =
    let names = script_names entries in if is_script entry then entry.name ∷ names else names

-- `readEmbeddedDir` and `readEmbeddedFile`
pub record Embedded : Type 0 where
  pub read_dir : Result Bytes (List DirEntry)
  pub read_file : Bytes → Result Bytes Bytes

module _ {ℓ} {Db : Type ℓ} (exec : Db → Bytes → Db × Option Bytes) where
  -- What `Exec` came to: the rest of the loop, or the error.
  abbrev pub after_exec :
      Bytes → Db × Option Bytes → (Db → Db × Option MigrationError) → Db × Option MigrationError
  after_exec name (db, none) rest = rest db
  after_exec name (db, some e) rest = (db, some (not_applied name e))

  -- The loop over the sorted names.
  unfoldable pub apply_files : Embedded → List Bytes → Db → Db × Option MigrationError
  apply_files fs [] db = (db, none)
  apply_files fs (name ∷ names) db = elim (fs.read_file name) [
    | err e ↦ (db, some (not_read name e))
    | ok statement ↦ after_exec name (exec db statement) (apply_files fs names)
  ]

  -- `Apply`
  unfoldable pub apply : Embedded → Db → Db × Option MigrationError
  unfolding apply_files script_names sort_strings
  apply fs db = elim fs.read_dir [
    | err e ↦ (db, some (not_listed e))
    | ok entries ↦ apply_files fs (sort_strings (script_names entries)) db
  ]
