-- ===== src/Outbox.antt =====
-- The transactional outbox that every service has a copy of: apps/orders/src/infrastructure/outbox
-- (outbox-recorder.ts, outbox-envelope-mapper.ts, outbox-relay.ts, kafka-fact-publisher.ts). The
-- table is the list of its rows in the order of `seq`; transactions follow one another. The payload
-- is its JSON text. The gauges, the spans and the trace parent of a row are left out.
pub mod Stamps
pub mod Delivery
pub mod Recording
pub mod Once
use order_to_cash_nestjs.Errors.{plain_error}
use order_to_cash_nestjs.Result.{Result, ok, err}
use order_to_cash_nestjs.Base.{
  Bool, List, ℕ, Option, none, ◌∷◌, filter, take, is_some, map, if◌then◌else◌, ◌||◌, ◌+◌, not, any,
  is_empty, ◌++◌, [], some, length,
}
use order_to_cash_nestjs.Base.Text.{Text, ◌=t◌}

-- What a service appends, and what the relay publishes again.
pub record StoredEnvelope : Type 0 where
  pub event_id : Text
  pub event_type : Text
  pub aggregate_id : Text
  pub correlation_id : Text
  pub causation_id : Text
  pub occurred_at : ℕ
  pub payload : Text

pub record OutboxRow : Type 0 where
  pub id : Text
  pub event_id : Text
  pub event_type : Text
  pub aggregate_id : Text
  pub correlation_id : Text
  pub causation_id : Text
  pub occurred_at : ℕ
  pub payload : Text
  pub published_at : Option ℕ
  pub created_at : ℕ

-- The primary key and the unique index of the event id.
abbrev pub rows_clash : OutboxRow → OutboxRow → Bool
rows_clash a b = (a.id =t b.id) || (a.event_id =t b.event_id)

abbrev pub outbox_row : Text → ℕ → StoredEnvelope → OutboxRow
outbox_row id created_at event = record {
  id = id;
  event_id = event.event_id;
  event_type = event.event_type;
  aggregate_id = event.aggregate_id;
  correlation_id = event.correlation_id;
  causation_id = event.causation_id;
  occurred_at = event.occurred_at;
  payload = event.payload;
  published_at = none;
  created_at = created_at;
}

-- The rows of one INSERT: a clash with a row makes the statement fail.
unfoldable pub insert_rows : List OutboxRow → List OutboxRow → Result (List OutboxRow)
insert_rows [] rows = ok rows
insert_rows (row ∷ more) rows =
    let rest = insert_rows more (rows ++ row ∷ []) in
    if any (λ r. rows_clash r row) rows then err plain_error else rest

abbrev pub new_rows : (ℕ → Text) → ℕ → ℕ → List StoredEnvelope → List OutboxRow
new_rows fresh k now [] = []
new_rows fresh k now (event ∷ events) =
    outbox_row (fresh k) now event ∷ new_rows fresh (k + 1) now events

-- `OutboxRecorder.record`, `fresh k` the k-th id drawn.
unfoldable pub record_events :
    (ℕ → Text) → ℕ → List StoredEnvelope → List OutboxRow → Result (List OutboxRow)
unfolding insert_rows
record_events fresh now events rows = insert_rows (new_rows fresh 0 now events) rows

-- `outboxRowToEnvelope`
abbrev pub outbox_row_to_envelope : OutboxRow → StoredEnvelope
outbox_row_to_envelope row = record {
  event_id = row.event_id;
  event_type = row.event_type;
  aggregate_id = row.aggregate_id;
  correlation_id = row.correlation_id;
  causation_id = row.causation_id;
  occurred_at = row.occurred_at;
  payload = row.payload;
}

-- `PublishableFact`, without its headers.
pub record PublishableFact : Type 0 where
  pub key : Text
  pub envelope : StoredEnvelope

abbrev pub fact_of : OutboxRow → PublishableFact
fact_of row = record { key = row.correlation_id; envelope = outbox_row_to_envelope row }

-- What comes of `publish` within the timeout: every fact is acknowledged, or the call fails after the
-- broker has taken the first `n k` facts of each key `k`. A producer that is idempotent with one
-- request in flight keeps the facts of a key in their order.
pub data Publication : Type 0 where
  acknowledged : Publication
  publication_failed : (Text → ℕ) → Publication

-- The topic, by key.
abbrev pub Topic : Type 0
Topic = Text → List PublishableFact

abbrev pub of_key : Text → List PublishableFact → List PublishableFact
of_key k facts = filter (λ f. f.key =t k) facts

abbrev pub sent_of : Publication → Text → List PublishableFact → List PublishableFact
sent_of acknowledged k facts = of_key k facts
sent_of (publication_failed n) k facts = take (n k) (of_key k facts)

pub record OutboxState : Type 0 where
  pub rows : List OutboxRow
  pub topic : Topic

-- `OutboxRelayResult`
pub record RelayResult : Type 0 where
  pub claimed : ℕ
  pub published : ℕ

abbrev pub is_published : OutboxRow → Bool
is_published row = is_some row.published_at

-- `WHERE published_at IS NULL ORDER BY seq ASC LIMIT batch`
unfoldable pub claim_unpublished : ℕ → List OutboxRow → List OutboxRow
claim_unpublished batch_size rows = take batch_size (filter (λ r. not (is_published r)) rows)

-- `SET published_at = now WHERE id IN (...)`
unfoldable pub stamp : ℕ → List OutboxRow → List OutboxRow → List OutboxRow
stamp now claimed rows =
    map (λ r. if any (λ c. c.id =t r.id) claimed then record r { published_at = some now } else r)
      rows

abbrev pub stamped_if : Publication → ℕ → List OutboxRow → List OutboxRow → List OutboxRow
stamped_if acknowledged now claimed rows = stamp now claimed rows
stamped_if (publication_failed n) now claimed rows = rows

abbrev pub counted_if : Publication → ℕ → ℕ
counted_if acknowledged n = n
counted_if (publication_failed sent) n = 0

-- `OutboxRelay.runOnce`
unfoldable pub relay_once : ℕ → Publication → ℕ → OutboxState → RelayResult × OutboxState
unfolding claim_unpublished stamp
relay_once batch_size publication now s =
    let claimed = claim_unpublished batch_size s.rows in
    if is_empty claimed then (record { claimed = 0; published = 0 }, s) else (
      record { claimed = length claimed; published = counted_if publication (length claimed) },
      record {
        rows = stamped_if publication now claimed s.rows;
        topic = λ k. s.topic k ++ sent_of publication k (map fact_of claimed);
      },
    )
