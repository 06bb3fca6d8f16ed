-- ===== src/Adapters/Rows.antt =====
-- What internal/adapter/driven/postgres_telemetry_writer.go sends to the database of a batch, and
-- which error it reports.
use notip_data_consumer.Prelude.{
  ℕ, zero, suc, ◌+◌, ◌<◌, ◌≡◌, refl, Option, none, some, List, [], ◌∷◌, length, map, arith,
}
use notip_data_consumer.Prelude.Bytes.{Bytes}
use notip_data_consumer.Model.{TelemetryRow}
use notip_data_consumer.Adapters.{insert_args, read_results, write_batch}

-- The `n` statements from number `i` on succeeded.
unfoldable pub AllSucceeded : (ℕ → Option Bytes) → ℕ → ℕ → Type 0
AllSucceeded result i zero = Unit {0}
AllSucceeded result i (suc n) = (result i ≡ none) × AllSucceeded result (i + 1) n

-- All `n` statements from number `i` on succeeded, or the first that did not is reported.
pub data IsReported (result : ℕ → Option Bytes) (i n : ℕ) : Option (ℕ × Bytes) → Type 0 where
  no_error : AllSucceeded result i n → IsReported result i n none
  first_error :
      (k m : ℕ) (e : Bytes)
      → k < n
      → m ≡ i + k
      → AllSucceeded result i k
      → result m ≡ some e
      → IsReported result i n (some (m, e))

IsReported-later :
    (result : ℕ → Option Bytes) (i n : ℕ) (end : Option (ℕ × Bytes))
    → result i ≡ none
    → IsReported result (i + 1) n end
    → IsReported result i (suc n) end
unfolding AllSucceeded
IsReported-later result i n none fine (no_error all) = no_error (fine, all)
IsReported-later result i n (some end) fine (first_error k m e below at all failed) =
    first_error (suc k) m e (omega arith) (omega arith) (fine, all) failed

read_results-IsReported :
    (result : ℕ → Option Bytes) (rows : List TelemetryRow) (i : ℕ)
    → IsReported result i (length rows) (read_results result rows i)
unfolding read_results AllSucceeded
read_results-IsReported result [] i = no_error tt
read_results-IsReported result (row ∷ rows) i =
    at_result (result i) refl (read_results-IsReported result rows (i + 1))
  where
    at_result :
        (r : Option Bytes)
        → result i ≡ r
        → IsReported result (i + 1) (length rows) (read_results result rows (i + 1))
        → IsReported result i
            (suc (length rows))
            (elim r [ some e ↦ some (i, e) | none ↦ read_results result rows (i + 1) ])
    at_result none fine later = IsReported-later result i (length rows) _ fine later
    at_result (some e) failed later = first_error 0 i e (omega arith) (omega arith) tt failed

-- `WriteBatch` queues one statement for each row, in the order of the rows, and its error is that of
-- the first statement that failed, with its number.
pub write_batch-IsReported :
    (result : ℕ → Option Bytes) (rows : List TelemetryRow)
    → ((write_batch result rows).queued ≡ map insert_args rows)
      × IsReported result 0 (length rows) (write_batch result rows).failure
unfolding write_batch AllSucceeded
write_batch-IsReported result [] = (refl, no_error tt)
write_batch-IsReported result (row ∷ rows) = (refl, read_results-IsReported result (row ∷ rows) 0)
