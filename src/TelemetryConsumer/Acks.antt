-- ===== src/TelemetryConsumer/Acks.antt =====
-- How `writeBatch` settles each message of a batch, and what it counts.
use notip_data_consumer.Prelude.{
  ℕ, suc, ◌+◌, ◌≡◌, refl, ap, sym, append-nil, eqb, Bool, true, false, Option, none, some, List, [],
  ◌∷◌, ◌++◌, map, length, if◌then◌else◌, arith,
}
use notip_data_consumer.Prelude.Bytes.{Bytes}
use notip_data_consumer.Prelude.Outcome.{ok, err}
use notip_data_consumer.Model.{TelemetryRow}
use notip_data_consumer.TelemetryConsumer.{
  PendingMsg, Ack, ack, nak, term, ConsumerMetrics, valid_rows, Writer, FlushState, write_rows,
  settle_msg, settle_all, write_batch,
}

-- Whether the database took the rows of a batch; with no rows there is nothing to take.
abbrev pub is_saved : Writer → ℕ → List TelemetryRow → Bool
is_saved writer n [] = true
is_saved writer n (row ∷ rows) = elim (writer n (row ∷ rows)) [ none ↦ true | some _ ↦ false ]

-- The rule: a message that gave no row is terminated; the others are acknowledged if the rows of
-- the batch were saved, and else asked for again.
abbrev pub fate : Bool → PendingMsg → Ack
fate saved pm = elim pm.row [ err _ ↦ term | ok _ ↦ if saved then ack else nak ]

abbrev pub rejected : List PendingMsg → ℕ
rejected [] = 0
rejected (pm ∷ batch) = elim pm.row [ err _ ↦ suc (rejected batch) | ok _ ↦ rejected batch ]

abbrev pub fates : Bool → List PendingMsg → List (ℕ × Ack)
fates saved = map (λ pm. (pm.msg, fate saved pm))

-- What the writer is handed with the rows of a batch: the rows under the number of the write, and
-- nothing where there are none.
abbrev pub handed_over : ℕ → List TelemetryRow → List (ℕ × List TelemetryRow)
handed_over n [] = []
handed_over n (row ∷ rows) = (n, row ∷ rows) ∷ []

-- What a batch leaves behind.
pub record Settled (writer : Writer) (batch : List PendingMsg) (s s' : FlushState) : Type 0 where
  pub acked : s'.acks ≡ s.acks ++ fates (is_saved writer s.writes (valid_rows batch)) batch
  pub parsed : s'.metrics.message_parsing_errors ≡ s.metrics.message_parsing_errors + rejected batch
  pub written :
      s'.metrics.messages_written
      ≡ s.metrics.messages_written
        + (if is_saved writer s.writes (valid_rows batch) then length (valid_rows batch) else 0)
  pub failed :
      s'.metrics.write_errors
      ≡ s.metrics.write_errors
        + (if is_saved writer s.writes (valid_rows batch) then 0 else length (valid_rows batch))
  pub sized : s'.metrics.batch_sizes ≡ s.metrics.batch_sizes ++ length (valid_rows batch) ∷ []
  pub written_rows : s'.handed ≡ s.handed ++ handed_over s.writes (valid_rows batch)

handed-handed_over :
    (n : ℕ) (rows : List TelemetryRow) (log : List (ℕ × List TelemetryRow))
    → (if eqb (length rows) 0 then log else log ++ (n, rows) ∷ []) ≡ log ++ handed_over n rows
handed-handed_over n [] log = sym (append-nil log)
handed-handed_over n (row ∷ rows) log = ground arith

-- The error of a write, as the flag of its success.
abbrev no_failure : Option Bytes → Bool
no_failure none = true
no_failure (some _) = false

saved-write_rows :
    (writer : Writer) (n : ℕ) (rows : List TelemetryRow)
    → no_failure (write_rows writer n rows) ≡ is_saved writer n rows
unfolding write_rows
saved-write_rows writer n [] = refl
saved-write_rows writer n (row ∷ rows) = ground arith

record Counted (saved : Bool) (batch : List PendingMsg) (m : ConsumerMetrics)
    (r : ConsumerMetrics × List (ℕ × Ack)) : Type 0 where
  acked : r.1 ≡ fates saved batch
  parsed : r.0.message_parsing_errors ≡ m.message_parsing_errors + rejected batch
  written :
      r.0.messages_written ≡ m.messages_written + (if saved then length (valid_rows batch) else 0)
  failed : r.0.write_errors ≡ m.write_errors + (if saved then 0 else length (valid_rows batch))
  sized : r.0.batch_sizes ≡ m.batch_sizes

settle_all-Counted :
    (failure : Option Bytes) (batch : List PendingMsg) (m : ConsumerMetrics)
    → Counted (no_failure failure) batch m (settle_all failure batch m)
unfolding settle_all valid_rows
settle_all-Counted failure [] m = record {
  acked = refl;
  parsed = omega arith;
  written = ground arith;
  failed = ground arith;
  sized = refl;
}
settle_all-Counted failure (pm ∷ batch) m =
    let h = settle_all-Counted failure batch ((settle_msg failure pm.row).1 m) in
    record {
      acked = ground (arith, h.acked);
      parsed = ground (arith, h.parsed);
      written = ground (arith, h.written);
      failed = ground (arith, h.failed);
      sized = ground (arith, h.sized);
    }

-- `writeBatch` settles each message of the batch once, in order, by the rule: those that gave no
-- row are terminated and counted as parsing errors, whatever their error; the others are
-- acknowledged and counted as written if the database took the rows, and otherwise asked for again
-- and counted as write errors. It observes the number of rows as the size of the
-- batch. The writer is handed all the rows, in order, if there are any.
pub write_batch-Settled :
    (writer : Writer) (batch : List PendingMsg) (s : FlushState)
    → Settled writer batch s (write_batch writer batch s)
unfolding write_batch
write_batch-Settled writer batch s =
    let rows = valid_rows batch in
    let failure = write_rows writer s.writes rows in
    let observed = record (s.metrics) { batch_sizes = s.metrics.batch_sizes ++ length rows ∷ [] } in
    let saved = saved-write_rows writer s.writes rows in
    let h : Counted (is_saved writer s.writes rows) batch observed
        (settle_all failure batch observed) =
      rw saved at (settle_all-Counted failure batch observed) in
    record {
      acked = ap (◌++◌ s.acks) h.acked;
      parsed = h.parsed;
      written = h.written;
      failed = h.failed;
      sized = h.sized;
      written_rows = handed-handed_over s.writes rows s.handed;
    }
