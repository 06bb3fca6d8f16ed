-- ===== src/TelemetryConsumer/Flush.antt =====
-- The loop that buffers messages: none is lost or settled twice, and no batch is too large.
use mathlib.Core.List.{map-append}
use notip_data_consumer.Prelude.{
  ℕ, ◌≤◌, ◌<◌, ◌≡◌, refl, sym, ap, ◌∙◌, Bool, true, false, ◌⊎◌, inl, inr, List, [], ◌∷◌, ◌++◌, map,
  length, append_assoc, append-nil, leb, arith, Bool-cases, length-append, All, All-append,
}
use notip_data_consumer.TelemetryConsumer.{
  PendingMsg, valid_rows, Writer, FlushState, flush, FlushEvent, arrives, ctx_done, ticks,
  flush_round, flush_loop,
}
use notip_data_consumer.TelemetryConsumer.Acks.{is_saved, fates, write_batch-Settled}

-- The messages that have been settled, and then those in the buffer, oldest first.
abbrev pub handled : FlushState → List ℕ
handled s = map (λ a. a.0) s.acks ++ map (λ pm. pm.msg) s.buf

-- The messages that the loop receives: those before the end of the context.
abbrev pub received_msgs : List FlushEvent → List ℕ
received_msgs [] = []
received_msgs (arrives pm ∷ events) = pm.msg ∷ received_msgs events
received_msgs (ctx_done ∷ events) = []
received_msgs (ticks ∷ events) = received_msgs events

abbrev pub is_ended : List FlushEvent → Bool
is_ended [] = false
is_ended (arrives pm ∷ events) = is_ended events
is_ended (ctx_done ∷ events) = true
is_ended (ticks ∷ events) = is_ended events

msgs-fates :
    (saved : Bool) (batch : List PendingMsg)
    → map (λ a. a.0) (fates saved batch) ≡ map (λ pm. pm.msg) batch
msgs-fates saved [] = refl
msgs-fates saved (pm ∷ batch) = ap (◌∷◌ pm.msg) (msgs-fates saved batch)

-- A flush moves the buffer's messages to the settled ones.
pub handled-flush :
    (writer : Writer) (batch : List PendingMsg) (s : FlushState)
    → batch ≡ s.buf
    → (handled (flush writer batch s) ≡ handled s) × ((flush writer batch s).buf ≡ [])
unfolding flush
handled-flush writer [] s e = (refl, sym e)
handled-flush writer (pm ∷ batch) s e =
    let h = write_batch-Settled writer (pm ∷ batch) s in
    let saved = is_saved writer s.writes (valid_rows (pm ∷ batch)) in
    (
      append-nil _
          ∙ ap (map (λ a. a.0)) h.acked
          ∙ map-append _ s.acks (fates saved (pm ∷ batch))
          ∙ ap (◌++◌ (map (λ a. a.0) s.acks))
              (msgs-fates saved (pm ∷ batch) ∙ ap (map (λ (p : PendingMsg). p.msg)) e),
      refl,
    )

pub flushed-handled :
    (writer : Writer) (s : FlushState) → handled (flush writer s.buf s) ≡ handled s
flushed-handled writer s = (handled-flush writer s.buf s refl).0

abbrev buffered : PendingMsg → FlushState → FlushState
buffered pm s = record s { buf = s.buf ++ pm ∷ [] }

handled-buffered :
    (pm : PendingMsg) (s : FlushState) → handled (buffered pm s) ≡ handled s ++ pm.msg ∷ []
handled-buffered pm s =
    ap (◌++◌ (map (λ a. a.0) s.acks)) (map-append _ s.buf (pm ∷ []))
    ∙ sym
        (append_assoc (map (λ a. a.0) s.acks) (map (λ (p : PendingMsg). p.msg) s.buf) (pm.msg ∷ []))

-- What a run of the loop on `events` makes of the state `s`.
pub record Conserved (events : List FlushEvent) (s s' : FlushState) : Type 0 where
  pub all_once : handled s' ≡ handled s ++ received_msgs events
  pub emptied : (is_ended events ≡ false) ⊎ (s'.buf ≡ [])

pub arrival-handled :
    (batch_size : ℕ) (writer : Writer) (pm : PendingMsg) (s : FlushState)
    → handled (flush_round batch_size writer (arrives pm) s).0 ≡ handled s ++ pm.msg ∷ []
unfolding flush_round
arrival-handled batch_size writer pm s =
    elim (Bool-cases (leb batch_size (length (s.buf ++ pm ∷ [])))) [
      | inl full ↦ rw full (flushed-handled writer (buffered pm s) ∙ handled-buffered pm s)
      | inr room ↦ rw room (handled-buffered pm s)
    ]

-- Each message that `flushLoop` receives is settled exactly once or is still in the buffer, in the
-- order in which they came, after those that it had before; none else is settled; and after the end
-- of the context the buffer is empty, so that each has been settled.
pub flush_loop-Conserved :
    (batch_size : ℕ) (writer : Writer) (events : List FlushEvent) (s : FlushState)
    → Conserved events s (flush_loop batch_size writer events s)
unfolding flush_loop flush_round
flush_loop-Conserved batch_size writer [] s = record {
  all_once = sym (append-nil _);
  emptied = inl refl;
}
flush_loop-Conserved batch_size writer (arrives pm ∷ events) s =
    let s' = (flush_round batch_size writer (arrives pm) s).0 in
    let h = flush_loop-Conserved batch_size writer events s' in
    record {
      all_once =
          h.all_once
          ∙ ap (λ (xs : List ℕ). xs ++ received_msgs events)
              (arrival-handled batch_size writer pm s)
          ∙ append_assoc (handled s) (pm.msg ∷ []) (received_msgs events);
      emptied = h.emptied;
    }
flush_loop-Conserved batch_size writer (ctx_done ∷ events) s = record {
  all_once = flushed-handled writer s ∙ sym (append-nil _);
  emptied = inr (handled-flush writer s.buf s refl).1;
}
flush_loop-Conserved batch_size writer (ticks ∷ events) s =
    let h = flush_loop-Conserved batch_size writer events (flush writer s.buf s) in
    record {
      all_once =
          h.all_once ∙ ap (λ (xs : List ℕ). xs ++ received_msgs events) (flushed-handled writer s);
      emptied = h.emptied;
    }

-- Between two events the buffer is short of a full batch, and no batch was larger than that.
pub record IsBounded (batch_size : ℕ) (s : FlushState) : Type 0 where
  pub short : length s.buf < batch_size
  pub small : All (λ n. n ≤ batch_size) s.metrics.batch_sizes

length-valid_rows : (batch : List PendingMsg) → length (valid_rows batch) ≤ length batch
unfolding valid_rows
length-valid_rows [] = omega arith
length-valid_rows (pm ∷ batch) = ground (arith, length-valid_rows batch)

flush-IsBounded :
    (batch_size : ℕ) (writer : Writer) (batch : List PendingMsg) (s : FlushState)
    → 0 < batch_size
    → batch ≡ s.buf
    → length s.buf ≤ batch_size
    → All (λ n. n ≤ batch_size) s.metrics.batch_sizes
    → IsBounded batch_size (flush writer batch s)
unfolding flush
flush-IsBounded batch_size writer [] s h e room small = record {
  short = omega (arith, ap length e);
  small = small;
}
flush-IsBounded batch_size writer (pm ∷ batch) s h e room small = record {
  short = h;
  small = rw (write_batch-Settled writer (pm ∷ batch) s).sized (
      All-append (λ n. n ≤ batch_size) s.metrics.batch_sizes _ small
        (omega (arith, length-valid_rows (pm ∷ batch), ap length e), tt));
}

arrival-IsBounded :
    (batch_size : ℕ) (writer : Writer) (pm : PendingMsg) (s : FlushState)
    → 0 < batch_size
    → IsBounded batch_size s
    → IsBounded batch_size (flush_round batch_size writer (arrives pm) s).0
unfolding flush_round
arrival-IsBounded batch_size writer pm s pos_size h =
    elim (Bool-cases (leb batch_size (length (s.buf ++ pm ∷ [])))) [
      | inl full ↦ rw full (
          flush-IsBounded batch_size writer (s.buf ++ pm ∷ []) (buffered pm s) pos_size refl
            (omega (arith, h.short, length-append s.buf (pm ∷ []))) h.small)
      | inr room ↦ rw room (record { short = ground arith; small = h.small })
    ]

-- If the size of a batch is positive, `flushLoop` keeps fewer messages than that in its buffer
-- between two events, and observes no batch with more rows than that.
pub flush_loop-IsBounded :
    (batch_size : ℕ) (writer : Writer) (events : List FlushEvent) (s : FlushState)
    → 0 < batch_size
    → IsBounded batch_size s
    → IsBounded batch_size (flush_loop batch_size writer events s)
unfolding flush_loop flush_round
flush_loop-IsBounded batch_size writer [] s pos_size h = h
flush_loop-IsBounded batch_size writer (arrives pm ∷ events) s pos_size h =
    flush_loop-IsBounded batch_size writer events (flush_round batch_size writer (arrives pm) s).0
      pos_size (arrival-IsBounded batch_size writer pm s pos_size h)
flush_loop-IsBounded batch_size writer (ctx_done ∷ events) s pos_size h =
    flush-IsBounded batch_size writer s.buf s pos_size refl (omega (arith, h.short)) h.small
flush_loop-IsBounded batch_size writer (ticks ∷ events) s pos_size h =
    flush_loop-IsBounded batch_size writer events (flush writer s.buf s) pos_size
      (flush-IsBounded batch_size writer s.buf s pos_size refl (omega (arith, h.short)) h.small)
