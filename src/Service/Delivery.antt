-- ===== src/Service/Delivery.antt =====
-- From the message on the stream to the statement in the database: nothing is acknowledged that was
-- not stored, and nothing is stored that did not come as it is.
use mathlib.Core.List.{Memᴰ}
use notip_data_consumer.Prelude.{
  ℕ, ◌≡◌, ◌≢◌, refl, sym, ap, subst, ◌∙◌, Option, none, List, [], ◌∷◌, length, arith, All,
}
use notip_data_consumer.Prelude.Bytes.{Bytes}
use notip_data_consumer.Prelude.Members.{Memᴰ-map, All-member}
use notip_data_consumer.Prelude.Outcome.{Outcome, returns, Result, ok, >>=-returns}
use notip_data_consumer.Model.{Time, TelemetryEnvelope, TelemetryRow}
use notip_data_consumer.Tracker.{Tracker}
use notip_data_consumer.TelemetryConsumer.{
  ProcessError, PendingMsg, Ack, ack, process_message, FlushState, FlushEvent, flush_loop,
  start_flushing, arrives, ctx_done, ticks,
}
use notip_data_consumer.TelemetryConsumer.Message.{
  stored, IsFor, Processed, bad_subject, bad_content, broke, refused, accepted,
  process_message-Processed,
}
use notip_data_consumer.TelemetryConsumer.Persisted.{
  arrived, IsPersisted, persisted, not_taken, acks-ArePersisted,
}
use notip_data_consumer.Adapters.{InsertArgs, insert_args, write_batch}
use notip_data_consumer.Adapters.Rows.{
  AllSucceeded, IsReported, no_error, first_error, write_batch-IsReported,
}
use notip_data_consumer.Service.{
  RawMsg, tracker_handler, receive_msg, Incoming, message, interval, stop, queue_all, Database,
  error_of, row_writer, run_consumer,
}

-- The messages among what comes in.
abbrev pub messages : List Incoming → List RawMsg
messages [] = []
messages (message now raw ∷ incoming) = raw ∷ messages incoming
messages (interval ∷ incoming) = messages incoming
messages (stop ∷ incoming) = messages incoming

module _ (unmarshal : Bytes → Result Bytes TelemetryEnvelope) where
  -- The pending message with a row is that of a message of the stream.
  pub record ComesFrom (raws : List RawMsg) (pm : PendingMsg) : Type 0 where
    pub raw : RawMsg
    pub now : Time
    pub before : Tracker
    pub after : Tracker
    pub there : Memᴰ raw raws
    pub same_number : raw.number ≡ pm.msg
    pub processed :
        process_message (tracker_handler now) unmarshal raw.subject raw.content before
        ≡ returns (after, pm.row)

  receive-ComesFrom :
      (now : Time) (raw : RawMsg) (t t' : Tracker) (pm : PendingMsg) (raws : List RawMsg)
      → Memᴰ raw raws
      → receive_msg unmarshal now raw t ≡ returns (t', pm)
      → ComesFrom raws pm
  unfolding receive_msg
  receive-ComesFrom now raw t t' pm raws there h =
      let (r, run, same) =
        >>=-returns (process_message (tracker_handler now) unmarshal raw.subject raw.content t) _
          h in
      record {
        raw = raw;
        now = now;
        before = t;
        after = r.0;
        there = there;
        same_number = ground (arith, same);
        processed = run ∙ ap (λ x. returns (r.0, x)) (ground (arith, same));
      }

  -- Every message that the loop receives comes from the stream.
  pub queued-ComeFrom :
      (incoming : List Incoming) (raws : List RawMsg) (t t' : Tracker) (events : List FlushEvent)
      → ((raw : RawMsg) → Memᴰ raw (messages incoming) → Memᴰ raw raws)
      → queue_all unmarshal incoming t ≡ returns (t', events)
      → All (ComesFrom raws) (arrived events)
  unfolding queue_all
  queued-ComeFrom [] raws t t' events inside h =
      let e : [] ≡ events = ground (arith, h) in
      subst (λ es. All (ComesFrom raws) (arrived es)) e tt
  queued-ComeFrom (message now raw ∷ incoming) raws t t' events inside h =
      let (r, one, rest) = >>=-returns (receive_msg unmarshal now raw t) _ h in
      let (q, more, same) = >>=-returns (queue_all unmarshal incoming r.0) _ rest in
      let later = queued-ComeFrom incoming raws r.0 q.0 q.1 (λ x m. inside x (Memᴰ.tail m)) more in
      let e : arrives r.1 ∷ q.1 ≡ events = ground (arith, same) in
      subst (λ es. All (ComesFrom raws) (arrived es)) e
        (receive-ComesFrom now raw t r.0 r.1 raws (inside raw (Memᴰ.head refl)) one, later)
  queued-ComeFrom (interval ∷ incoming) raws t t' events inside h =
      let (q, more, same) = >>=-returns (queue_all unmarshal incoming t) _ h in
      let later = queued-ComeFrom incoming raws t q.0 q.1 inside more in
      let e : ticks ∷ q.1 ≡ events = ground (arith, same) in
      subst (λ es. All (ComesFrom raws) (arrived es)) e later
  queued-ComeFrom (stop ∷ incoming) raws t t' events inside h =
      let (q, more, same) = >>=-returns (queue_all unmarshal incoming t) _ h in
      let e : ctx_done ∷ q.1 ≡ events = ground (arith, same) in
      subst (λ es. All (ComesFrom raws) (arrived es)) e tt

  -- The content of a message that gave the row, as it is stored.
  pub record IsContentOf (raw : RawMsg) (args : InsertArgs) : Type 0 where
    pub tenant_id : Bytes
    pub envelope : TelemetryEnvelope
    pub addressed : IsFor raw.subject tenant_id
    pub decodes : unmarshal raw.content ≡ ok envelope
    pub verbatim : args ≡ stored tenant_id envelope

  pub row_content :
      (now : Time) (raw : RawMsg) (t t' : Tracker) (row : TelemetryRow)
      (out : Outcome (Tracker × Result ProcessError TelemetryRow))
      → Processed (tracker_handler now) unmarshal raw.subject raw.content t out
      → out ≡ returns (t', ok row)
      → IsContentOf raw (insert_args row)
  row_content now raw t t' row _ (bad_subject _) h = cc
  row_content now raw t t' row _ (bad_content _ _ _ _) h = cc
  row_content now raw t t' row _ (broke _ _ _ _ _) h = cc
  row_content now raw t t' row _ (refused _ _ _ _ _ _ _) h = cc
  row_content now raw t t' row _ (accepted tenant_id env s' row' for there called same) h = record {
    tenant_id = tenant_id;
    envelope = env;
    addressed = for;
    decodes = there;
    verbatim = ap insert_args (sym (ground (arith, h))) ∙ same;
  }

all_fine :
    (result : ℕ → Option Bytes) (n : ℕ) (end : Option (ℕ × Bytes))
    → IsReported result 0 n end
    → error_of end ≡ none
    → AllSucceeded result 0 n
all_fine result n _ (no_error all) h = all
all_fine result n _ (first_error k m e below at all failed) h = cc

module _ (unmarshal : Bytes → Result Bytes TelemetryEnvelope) (db : Database) (raws : List RawMsg)
    (log : List (ℕ × List TelemetryRow)) where
  -- What stands behind a verdict: an acknowledged message is one of the stream, and its content
  -- was stored by a statement of a batch of the log all of whose statements succeeded.
  pub data IsDelivered : ℕ × Ack → Type 0 where
    delivered :
        (raw : RawMsg) (args : InsertArgs) (n : ℕ) (rows : List TelemetryRow)
        → Memᴰ raw raws
        → IsContentOf unmarshal raw args
        → Memᴰ (n, rows) log
        → Memᴰ args (write_batch (db n) rows).queued
        → AllSucceeded (db n) 0 (length rows)
        → IsDelivered (raw.number, ack)
    withheld : (msg : ℕ) (verdict : Ack) → verdict ≢ ack → IsDelivered (msg, verdict)

  persisted-IsDelivered :
      (known : List PendingMsg) (a : ℕ × Ack)
      → All (ComesFrom unmarshal raws) known
      → IsPersisted (row_writer db) known log a
      → IsDelivered a
  unfolding row_writer
  persisted-IsDelivered known _ from (persisted pm row n rows there given inside logged taken) =
      let c = All-member (ComesFrom unmarshal raws) known pm from there in
      let w = write_batch-IsReported (db n) rows in
      let content =
        row_content unmarshal c.now c.raw c.before c.after row _
          (process_message-Processed (tracker_handler c.now) unmarshal c.raw.subject c.raw.content
            c.before)
          (c.processed ∙ ap (λ x. returns (c.after, x)) given) in
      subst (λ m. IsDelivered (m, ack)) c.same_number
        (delivered c.raw (insert_args row) n rows c.there content logged
          (subst (Memᴰ (insert_args row)) (sym w.0) (Memᴰ-map insert_args row rows inside))
          (all_fine (db n) (length rows) _ w.1 taken))
  persisted-IsDelivered known _ from (not_taken msg verdict other) = withheld msg verdict other

  All-IsDelivered :
      (known : List PendingMsg) (acks : List (ℕ × Ack))
      → All (ComesFrom unmarshal raws) known
      → All (IsPersisted (row_writer db) known log) acks
      → All IsDelivered acks
  All-IsDelivered known [] from h = tt
  All-IsDelivered known (a ∷ acks) from h =
      (persisted-IsDelivered known a from h.0, All-IsDelivered known acks from h.1)

-- In every run of the consumer that returns, with the tracker as its handler and whatever the
-- database answers, a message is acknowledged only if it came on the stream under a subject that
-- names its tenant, its content decodes, and a statement with exactly the fields of the decoded
-- envelope and that tenant stood in one of the batches that this run handed to the database, all of
-- whose statements succeeded.
pub acks-AreDelivered :
    (unmarshal : Bytes → Result Bytes TelemetryEnvelope) (batch_size : ℕ) (db : Database)
    (incoming : List Incoming) (t t' : Tracker) (s : FlushState)
    → run_consumer unmarshal batch_size db incoming t ≡ returns (t', s)
    → All (IsDelivered unmarshal db (messages incoming) s.handed) s.acks
unfolding run_consumer
acks-AreDelivered unmarshal batch_size db incoming t t' s h =
    let (q, queued, same) = >>=-returns (queue_all unmarshal incoming t) _ h in
    let from =
      queued-ComeFrom unmarshal incoming (messages incoming) t q.0 q.1 (λ raw m. m) queued in
    let safe = acks-ArePersisted batch_size (row_writer db) q.1 in
    let end : flush_loop batch_size (row_writer db) q.1 start_flushing ≡ s = ground (arith, same) in
    subst (λ (x : FlushState). All (IsDelivered unmarshal db (messages incoming) x.handed) x.acks)
      end (All-IsDelivered unmarshal db (messages incoming) _ (arrived q.1) _ from safe)
