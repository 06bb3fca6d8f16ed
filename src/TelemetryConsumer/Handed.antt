-- ===== src/TelemetryConsumer/Handed.antt =====
-- What `flushLoop` hands to the writer: the rows of messages that it has received, in batches that are
-- counted from zero.
use mathlib.Core.List.{Memᴰ, map-append}
use notip_data_consumer.Prelude.{
  ℕ, zero, suc, ◌+◌, ◌≡◌, refl, sym, ap, ◌∙◌, inl, inr, List, [], ◌∷◌, ◌++◌, map, length, leb, eqb,
  if◌then◌else◌, append-nil, arith, Bool-cases, All, All-append,
}
use notip_data_consumer.Prelude.Outcome.{Result, ok, err}
use notip_data_consumer.Model.{TelemetryRow}
use notip_data_consumer.TelemetryConsumer.{
  ProcessError, PendingMsg, valid_rows, Writer, FlushState, write_batch, flush, FlushEvent, arrives,
  ctx_done, ticks, flush_round, flush_loop, start_flushing,
}
use notip_data_consumer.TelemetryConsumer.Acks.{handed_over, write_batch-Settled}
use notip_data_consumer.TelemetryConsumer.Persisted.{arrived}

abbrev pub Batch : Type 0
Batch = ℕ × List TelemetryRow

-- The numbers below `n`, in order.
abbrev pub up_to : ℕ → List ℕ
up_to zero = []
up_to (suc n) = up_to n ++ n ∷ []

abbrev pub numbers : List Batch → List ℕ
numbers = map (λ (b : Batch). b.0)

written_once :
    (log : List Batch) (n : ℕ) (rows : List TelemetryRow)
    → numbers log ≡ up_to n
    → numbers (log ++ handed_over n rows) ≡ up_to (if eqb (length rows) 0 then n else n + 1)
written_once log n [] h = ap numbers (append-nil log) ∙ h
written_once log n (row ∷ rows) h =
    let more : (if eqb (length (row ∷ rows)) 0 then n else n + 1) ≡ suc n = ground arith in
    map-append (λ (b : Batch). b.0) log ((n, row ∷ rows) ∷ [])
    ∙ ap (λ (ns : List ℕ). ns ++ n ∷ []) h
    ∙ sym (ap up_to more)

module _ (known : List PendingMsg) where
  -- `processMessage` made the row of one of the known messages.
  pub record IsRowOf (row : TelemetryRow) : Type 0 where
    pub pm : PendingMsg
    pub there : Memᴰ pm known
    pub gave : pm.row ≡ ok row

  with_row :
      (pm : PendingMsg) (r : Result ProcessError TelemetryRow) (rest : List TelemetryRow)
      → Memᴰ pm known
      → pm.row ≡ r
      → All IsRowOf rest
      → All IsRowOf (elim r [ ok row ↦ row ∷ rest | err _ ↦ rest ])
  with_row pm (ok row) rest there gave h = (record { pm = pm; there = there; gave = gave }, h)
  with_row pm (err e) rest there gave h = h

  valid_rows-IsRowOf :
      (batch : List PendingMsg) → All (λ pm. Memᴰ pm known) batch → All IsRowOf (valid_rows batch)
  unfolding valid_rows
  valid_rows-IsRowOf [] h = tt
  valid_rows-IsRowOf (pm ∷ batch) h =
      with_row pm pm.row (valid_rows batch) h.0 refl (valid_rows-IsRowOf batch h.1)

  -- The batches so far hold rows of known messages, and are numbered in their order.
  pub record IsGenuine (s : FlushState) : Type 0 where
    pub buffered : All (λ pm. Memᴰ pm known) s.buf
    pub rows : All (λ (b : Batch). All IsRowOf b.1) s.handed
    pub numbered : numbers s.handed ≡ up_to s.writes

  handed_over-IsRowOf :
      (n : ℕ) (rows : List TelemetryRow)
      → All IsRowOf rows
      → All (λ (b : Batch). All IsRowOf b.1) (handed_over n rows)
  handed_over-IsRowOf n [] h = tt
  handed_over-IsRowOf n (row ∷ rows) h = (h, tt)

  module _ (writer : Writer) where
    counted-writes :
        (batch : List PendingMsg) (s : FlushState)
        → (write_batch writer batch s).writes
          ≡ (if eqb (length (valid_rows batch)) 0 then s.writes else s.writes + 1)
    unfolding write_batch
    counted-writes batch s = refl

    flush-IsGenuine :
        (batch : List PendingMsg) (s : FlushState)
        → All (λ pm. Memᴰ pm known) batch
        → IsGenuine s
        → IsGenuine (flush writer batch s)
    unfolding flush
    flush-IsGenuine [] s there h = h
    flush-IsGenuine (pm ∷ batch) s there h =
        let handed = (write_batch-Settled writer (pm ∷ batch) s).written_rows in
        let rows = valid_rows (pm ∷ batch) in
        record {
          buffered = tt;
          rows = rw handed (
              All-append (λ (b : Batch). All IsRowOf b.1) s.handed (handed_over s.writes rows)
                h.rows (handed_over-IsRowOf s.writes rows (valid_rows-IsRowOf (pm ∷ batch) there)));
          numbered =
              ap numbers handed
              ∙ written_once s.handed s.writes rows h.numbered
              ∙ sym (ap up_to (counted-writes (pm ∷ batch) s));
        }

    arrival-IsGenuine :
        (batch_size : ℕ) (pm : PendingMsg) (s : FlushState)
        → Memᴰ pm known
        → IsGenuine s
        → IsGenuine (flush_round batch_size writer (arrives pm) s).0
    unfolding flush_round
    arrival-IsGenuine batch_size pm s there h =
        let buffered : All (λ p. Memᴰ p known) (s.buf ++ pm ∷ []) =
          All-append (λ p. Memᴰ p known) s.buf (pm ∷ []) h.buffered (there, tt) in
        let h' : IsGenuine (record s { buf = s.buf ++ pm ∷ [] }) = record {
          buffered = buffered;
          rows = h.rows;
          numbered = h.numbered;
        } in
        elim (Bool-cases (leb batch_size (length (s.buf ++ pm ∷ [])))) [
          | inl full ↦ rw full (flush-IsGenuine (s.buf ++ pm ∷ []) _ buffered h')
          | inr room ↦ rw room h'
        ]

    loop-IsGenuine :
        (batch_size : ℕ) (events : List FlushEvent) (s : FlushState)
        → ((pm : PendingMsg) → Memᴰ pm (arrived events) → Memᴰ pm known)
        → IsGenuine s
        → IsGenuine (flush_loop batch_size writer events s)
    unfolding flush_loop flush_round
    loop-IsGenuine batch_size [] s there h = h
    loop-IsGenuine batch_size (arrives pm ∷ events) s there h =
        loop-IsGenuine batch_size events _ (λ p m. there p (Memᴰ.tail m))
          (arrival-IsGenuine batch_size pm s (there pm (Memᴰ.head refl)) h)
    loop-IsGenuine batch_size (ctx_done ∷ events) s there h = flush-IsGenuine s.buf s h.buffered h
    loop-IsGenuine batch_size (ticks ∷ events) s there h =
        loop-IsGenuine batch_size events _ there (flush-IsGenuine s.buf s h.buffered h)

-- From its start on, whatever arrives and whatever the database does, each row of each batch that
-- `flushLoop` hands to the writer is the row of one of the messages that it received, and the batches
-- are numbered from zero in their order.
pub flush_loop-IsGenuine :
    (batch_size : ℕ) (writer : Writer) (events : List FlushEvent)
    → IsGenuine (arrived events) (flush_loop batch_size writer events start_flushing)
flush_loop-IsGenuine batch_size writer events =
    loop-IsGenuine (arrived events) writer batch_size events start_flushing (λ pm m. m)
      (record { buffered = tt; rows = tt; numbered = refl })
