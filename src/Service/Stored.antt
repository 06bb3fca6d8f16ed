-- ===== src/Service/Stored.antt =====
-- What a run of the consumer hands to the database, seen from the messages of the stream.
use mathlib.Core.List.{Memᴰ}
use notip_data_consumer.Prelude.{ℕ, ◌≡◌, ap, subst, ◌∙◌, List, [], ◌∷◌, arith, All}
use notip_data_consumer.Prelude.Bytes.{Bytes}
use notip_data_consumer.Prelude.Members.{All-member}
use notip_data_consumer.Prelude.Outcome.{returns, Result, >>=-returns}
use notip_data_consumer.Model.{TelemetryEnvelope, TelemetryRow}
use notip_data_consumer.Tracker.{Tracker}
use notip_data_consumer.TelemetryConsumer.{PendingMsg, FlushState, flush_loop, start_flushing}
use notip_data_consumer.TelemetryConsumer.Message.{process_message-Processed}
use notip_data_consumer.TelemetryConsumer.Persisted.{arrived}
use notip_data_consumer.TelemetryConsumer.Handed.{
  Batch, up_to, numbers, IsRowOf, flush_loop-IsGenuine,
}
use notip_data_consumer.Adapters.{insert_args}
use notip_data_consumer.Service.{
  tracker_handler, RawMsg, Incoming, queue_all, Database, row_writer, run_consumer,
}
use notip_data_consumer.Service.Delivery.{
  messages, ComesFrom, IsContentOf, row_content, queued-ComeFrom,
}

module _ (unmarshal : Bytes → Result Bytes TelemetryEnvelope) (raws : List RawMsg) where
  -- The row is stored with the content of one of the messages.
  pub record IsFromStream (row : TelemetryRow) : Type 0 where
    pub raw : RawMsg
    pub there : Memᴰ raw raws
    pub content : IsContentOf unmarshal raw (insert_args row)

  row-IsFromStream :
      (known : List PendingMsg) (row : TelemetryRow)
      → All (ComesFrom unmarshal raws) known
      → IsRowOf known row
      → IsFromStream row
  row-IsFromStream known row from h =
      let c = All-member (ComesFrom unmarshal raws) known h.pm from h.there in
      record {
        raw = c.raw;
        there = c.there;
        content =
            row_content unmarshal c.now c.raw c.before c.after row _
              (process_message-Processed (tracker_handler c.now) unmarshal c.raw.subject
                c.raw.content c.before)
              (c.processed ∙ ap (λ x. returns (c.after, x)) h.gave);
      }

  rows-AreFromStream :
      (known : List PendingMsg) (rows : List TelemetryRow)
      → All (ComesFrom unmarshal raws) known
      → All (IsRowOf known) rows
      → All IsFromStream rows
  rows-AreFromStream known [] from h = tt
  rows-AreFromStream known (row ∷ rows) from h =
      (row-IsFromStream known row from h.0, rows-AreFromStream known rows from h.1)

  batches-AreFromStream :
      (known : List PendingMsg) (log : List Batch)
      → All (ComesFrom unmarshal raws) known
      → All (λ (b : Batch). All (IsRowOf known) b.1) log
      → All (λ (b : Batch). All IsFromStream b.1) log
  batches-AreFromStream known [] from h = tt
  batches-AreFromStream known (b ∷ log) from h =
      (rows-AreFromStream known b.1 from h.0, batches-AreFromStream known log from h.1)

  -- The batches of a run.
  pub record IsStored (s : FlushState) : Type 0 where
    pub from_stream : All (λ (b : Batch). All IsFromStream b.1) s.handed
    pub numbered : numbers s.handed ≡ up_to s.writes

-- In every run of the consumer that returns, with the tracker as its handler and whatever the database
-- answers, every row of every batch that is handed to the database is stored as exactly the fields of
-- the decoded envelope of a message of the stream, with the tenant that the message's subject names;
-- and the batches are numbered from zero in their order, each number once.
pub run_consumer-IsStored :
    (unmarshal : Bytes → Result Bytes TelemetryEnvelope) (batch_size : ℕ) (db : Database)
    (incoming : List Incoming) (t t' : Tracker) (s : FlushState)
    → run_consumer unmarshal batch_size db incoming t ≡ returns (t', s)
    → IsStored unmarshal (messages incoming) s
unfolding run_consumer
run_consumer-IsStored unmarshal batch_size db incoming t t' s h =
    let (q, queued, same) = >>=-returns (queue_all unmarshal incoming t) _ h in
    let from =
      queued-ComeFrom unmarshal incoming (messages incoming) t q.0 q.1 (λ raw m. m) queued in
    let genuine = flush_loop-IsGenuine batch_size (row_writer db) q.1 in
    let end : flush_loop batch_size (row_writer db) q.1 start_flushing ≡ s = ground (arith, same) in
    subst (IsStored unmarshal (messages incoming)) end (record {
      from_stream =
          batches-AreFromStream unmarshal (messages incoming) (arrived q.1) _ from genuine.rows;
      numbered = genuine.numbered;
    })
