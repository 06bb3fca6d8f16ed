-- ===== src/TelemetryConsumer/Persisted.antt =====
-- No message is acknowledged before the database has taken its row.
use mathlib.Core.List.{Memᴰ}
use notip_data_consumer.Prelude.{
  ℕ, ◌≡◌, ◌≢◌, refl, sym, ap, ◌∙◌, subst, true, inl, inr, none, List, [], ◌∷◌, ◌++◌, length, leb,
  arith, Bool-cases, All, All-append,
}
use notip_data_consumer.Prelude.Members.{Memᴰ-front, Memᴰ-back, All-map_in}
use notip_data_consumer.Prelude.Outcome.{Result, ok, err}
use notip_data_consumer.Model.{TelemetryRow}
use notip_data_consumer.TelemetryConsumer.{
  ProcessError, PendingMsg, Ack, ack, nak, term, valid_rows, Writer, FlushState, flush, FlushEvent,
  arrives, ctx_done, ticks, flush_round, flush_loop, start_flushing,
}
use notip_data_consumer.TelemetryConsumer.Acks.{
  is_saved, handed_over, fate, fates, write_batch-Settled,
}

-- The messages that the loop receives.
abbrev pub arrived : List FlushEvent → List PendingMsg
arrived [] = []
arrived (arrives pm ∷ events) = pm ∷ arrived events
arrived (ctx_done ∷ events) = []
arrived (ticks ∷ events) = arrived events

-- The rows of a batch, from the result of its first message and the rows of the rest.
abbrev first_row : Result ProcessError TelemetryRow → List TelemetryRow → List TelemetryRow
first_row r rest = elim r [ ok row ↦ row ∷ rest | err _ ↦ rest ]

first_row-head :
    (r : Result ProcessError TelemetryRow) (rest : List TelemetryRow) (row : TelemetryRow)
    → r ≡ ok row
    → Memᴰ row (first_row r rest)
first_row-head (ok row') rest row h = Memᴰ.head (cc h)
first_row-head (err e) rest row h = cc h

first_row-tail :
    (r : Result ProcessError TelemetryRow) (rest : List TelemetryRow) (row : TelemetryRow)
    → Memᴰ row rest
    → Memᴰ row (first_row r rest)
first_row-tail (ok row') rest row m = Memᴰ.tail m
first_row-tail (err e) rest row m = m

valid_rows-member :
    (batch : List PendingMsg) (pm : PendingMsg) (row : TelemetryRow)
    → Memᴰ pm batch
    → pm.row ≡ ok row
    → Memᴰ row (valid_rows batch)
unfolding valid_rows
valid_rows-member [] pm row here given = elim here [ ]
valid_rows-member (p ∷ batch) pm row (Memᴰ.head e) given =
    first_row-head p.row (valid_rows batch) row (ap (λ (q : PendingMsg). q.row) (sym e) ∙ given)
valid_rows-member (p ∷ batch) pm row (Memᴰ.tail m) given =
    first_row-tail p.row (valid_rows batch) row (valid_rows-member batch pm row m given)

handed_over-member :
    (n : ℕ) (rows : List TelemetryRow) (row : TelemetryRow)
    → Memᴰ row rows
    → Memᴰ (n, rows) (handed_over n rows)
handed_over-member n [] row here = elim here [ ]
handed_over-member n (r ∷ rows) row here = Memᴰ.head refl

-- What stands behind a verdict: an acknowledged message is one of the known ones, and its own row
-- is among those of one of the batches that were handed to the writer, which took the whole of it.
pub data IsPersisted (writer : Writer) (known : List PendingMsg)
    (log : List (ℕ × List TelemetryRow)) : ℕ × Ack → Type 0 where
  persisted :
      (pm : PendingMsg) (row : TelemetryRow) (n : ℕ) (rows : List TelemetryRow)
      → Memᴰ pm known
      → pm.row ≡ ok row
      → Memᴰ row rows
      → Memᴰ (n, rows) log
      → writer n rows ≡ none
      → IsPersisted writer known log (pm.msg, ack)
  not_taken :
      (msg : ℕ) (verdict : Ack) → verdict ≢ ack → IsPersisted writer known log (msg, verdict)

module _ (writer : Writer) where
  known-IsPersisted :
      (known later : List PendingMsg) (log : List (ℕ × List TelemetryRow)) (a : ℕ × Ack)
      → IsPersisted writer known log a
      → IsPersisted writer (known ++ later) log a
  known-IsPersisted known later log _ (persisted pm row n rows there given inside logged taken) =
      persisted pm row n rows (Memᴰ-front known later pm there) given inside logged taken
  known-IsPersisted known later log _ (not_taken msg verdict other) = not_taken msg verdict other

  logged-IsPersisted :
      (known : List PendingMsg) (log more : List (ℕ × List TelemetryRow)) (a : ℕ × Ack)
      → IsPersisted writer known log a
      → IsPersisted writer known (log ++ more) a
  logged-IsPersisted known log more _ (persisted pm row n rows there given inside logged taken) =
      persisted pm row n rows there given inside (Memᴰ-front log more (n, rows) logged) taken
  logged-IsPersisted known log more _ (not_taken msg verdict other) = not_taken msg verdict other

module _ (writer : Writer) (known : List PendingMsg) where
  saved_none :
      (n : ℕ) (rows : List TelemetryRow) (row : TelemetryRow)
      → Memᴰ row rows
      → is_saved writer n rows ≡ true
      → writer n rows ≡ none
  saved_none n [] row here saved = elim here [ ]
  saved_none n (r ∷ rows) row here saved = ground arith

  fate-IsPersisted :
      (log : List (ℕ × List TelemetryRow)) (n : ℕ) (batch : List PendingMsg) (pm : PendingMsg)
      (r : Result ProcessError TelemetryRow)
      → Memᴰ pm known
      → Memᴰ pm batch
      → pm.row ≡ r
      → IsPersisted writer known
          (log ++ handed_over n (valid_rows batch))
          (pm.msg, fate (is_saved writer n (valid_rows batch)) pm)
  fate-IsPersisted log n batch pm (err e) there here given =
      let ended : fate (is_saved writer n (valid_rows batch)) pm ≡ term = ground (arith, given) in
      subst (λ v. IsPersisted writer known (log ++ handed_over n (valid_rows batch)) (pm.msg, v))
        (sym ended) (not_taken pm.msg term (ground arith))
  fate-IsPersisted log n batch pm (ok row) there here given =
      elim (Bool-cases (is_saved writer n (valid_rows batch))) [
        | inl saved ↦
            let inside = valid_rows-member batch pm row here given in
            let ended : fate (is_saved writer n (valid_rows batch)) pm ≡ ack =
              ground (arith, given, saved) in
            let logged =
              Memᴰ-back log (handed_over n (valid_rows batch)) (n, valid_rows batch)
                (handed_over-member n (valid_rows batch) row inside) in
            subst
              (λ v. IsPersisted writer known (log ++ handed_over n (valid_rows batch)) (pm.msg, v))
              (sym ended)
              (persisted pm row n (valid_rows batch) there given inside logged
                (saved_none n (valid_rows batch) row inside saved))
        | inr lost ↦
            let ended : fate (is_saved writer n (valid_rows batch)) pm ≡ nak =
              ground (arith, given, lost) in
            subst
              (λ v. IsPersisted writer known (log ++ handed_over n (valid_rows batch)) (pm.msg, v))
              (sym ended) (not_taken pm.msg nak (ground arith))
      ]

  fates-IsPersisted :
      (log : List (ℕ × List TelemetryRow)) (n : ℕ) (batch part : List PendingMsg)
      → ((pm : PendingMsg) → Memᴰ pm part → Memᴰ pm batch)
      → All (λ pm. Memᴰ pm known) part
      → All
          (IsPersisted writer known (log ++ handed_over n (valid_rows batch)))
          (fates (is_saved writer n (valid_rows batch)) part)
  fates-IsPersisted log n batch [] inside there = tt
  fates-IsPersisted log n batch (pm ∷ part) inside there = (
    fate-IsPersisted log n batch pm pm.row there.0 (inside pm (Memᴰ.head refl)) refl,
    fates-IsPersisted log n batch part (λ p m. inside p (Memᴰ.tail m)) there.1,
  )

  -- The buffer holds known messages, and every verdict has what it needs behind it.
  pub record IsSafe (s : FlushState) : Type 0 where
    pub buffered_known : All (λ pm. Memᴰ pm known) s.buf
    pub verdicts : All (IsPersisted writer known s.handed) s.acks

  pub flush-IsSafe :
      (batch : List PendingMsg) (s : FlushState)
      → All (λ pm. Memᴰ pm known) batch
      → IsSafe s
      → IsSafe (flush writer batch s)
  unfolding flush
  flush-IsSafe [] s there h = h
  flush-IsSafe (pm ∷ batch) s there h =
      let settled = write_batch-Settled writer (pm ∷ batch) s in
      record {
        buffered_known = tt;
        verdicts =
            rw (settled.acked, settled.written_rows)
              (All-append
                (IsPersisted writer known
                  (s.handed ++ handed_over s.writes (valid_rows (pm ∷ batch))))
                s.acks _
                (All-map_in (IsPersisted writer known s.handed) _ s.acks
                  (λ a p. logged-IsPersisted writer known s.handed _ a p) h.verdicts)
                (fates-IsPersisted s.handed s.writes (pm ∷ batch) (pm ∷ batch) (λ p m. m) there));
      }

  buffer-IsSafe :
      (pm : PendingMsg) (s : FlushState)
      → Memᴰ pm known
      → IsSafe s
      → IsSafe (record s { buf = s.buf ++ pm ∷ [] })
  buffer-IsSafe pm s there h = record {
    buffered_known = All-append (λ p. Memᴰ p known) s.buf (pm ∷ []) h.buffered_known (there, tt);
    verdicts = h.verdicts;
  }

  pub arrival-IsSafe :
      (batch_size : ℕ) (pm : PendingMsg) (s : FlushState)
      → Memᴰ pm known
      → IsSafe s
      → IsSafe (flush_round batch_size writer (arrives pm) s).0
  unfolding flush_round
  arrival-IsSafe batch_size pm s there h =
      let h' = buffer-IsSafe pm s there h in
      elim (Bool-cases (leb batch_size (length (s.buf ++ pm ∷ [])))) [
        | inl full ↦ rw full (flush-IsSafe (s.buf ++ pm ∷ []) _ h'.buffered_known h')
        | inr room ↦ rw room h'
      ]

  loop-IsSafe :
      (batch_size : ℕ) (events : List FlushEvent) (s : FlushState)
      → ((pm : PendingMsg) → Memᴰ pm (arrived events) → Memᴰ pm known)
      → IsSafe s
      → IsSafe (flush_loop batch_size writer events s)
  unfolding flush_loop flush_round
  loop-IsSafe batch_size [] s there h = h
  loop-IsSafe batch_size (arrives pm ∷ events) s there h =
      loop-IsSafe batch_size events _ (λ p m. there p (Memᴰ.tail m))
        (arrival-IsSafe batch_size pm s (there pm (Memᴰ.head refl)) h)
  loop-IsSafe batch_size (ctx_done ∷ events) s there h = flush-IsSafe s.buf s h.buffered_known h
  loop-IsSafe batch_size (ticks ∷ events) s there h =
      loop-IsSafe batch_size events _ there (flush-IsSafe s.buf s h.buffered_known h)

-- More messages are known.
pub known-IsSafe :
    (writer : Writer) (known later : List PendingMsg) (s : FlushState)
    → IsSafe writer known s
    → IsSafe writer (known ++ later) s
known-IsSafe writer known later s h = record {
  buffered_known =
      All-map_in (λ pm. Memᴰ pm known) (λ pm. Memᴰ pm (known ++ later)) s.buf
        (λ pm m. Memᴰ-front known later pm m) h.buffered_known;
  verdicts =
      All-map_in (IsPersisted writer known s.handed) (IsPersisted writer (known ++ later) s.handed)
        s.acks (λ a p. known-IsPersisted writer known later s.handed a p) h.verdicts;
}

-- From its start on, whatever arrives and whatever the database does, `flushLoop` acknowledges a
-- message only if it is one of those that it received, `processMessage` made a row of it, and one of
-- the batches that it handed to the writer holds that row and was taken without an error.
pub acks-ArePersisted :
    (batch_size : ℕ) (writer : Writer) (events : List FlushEvent)
    → let s = flush_loop batch_size writer events start_flushing in
      All (IsPersisted writer (arrived events) s.handed) s.acks
acks-ArePersisted batch_size writer events =
    (loop-IsSafe writer (arrived events) batch_size events start_flushing (λ pm m. m)
      (record { buffered_known = tt; verdicts = tt })).verdicts
