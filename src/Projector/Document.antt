-- ===== src/Projector/Document.antt =====
-- The read model of the Projector: apps/projector/src/infrastructure/persistence/
-- order-timeline.document.ts, the update of delta-to-pipeline.ts, the two phases of
-- mongo-read-model-writer.ts and the filter of
-- apps/projector/src/infrastructure/messaging/idempotent-consumer.ts, and the service over them
-- (apps/projector/src/application/projection-apply.service.ts).
-- The store applies an update to a document atomically, so an apply is a function on the document.
-- The fields of the header are written together and are one optional value, absent in a placeholder;
-- `headerComplete` says whether it is there. The names of the parties, which no update writes, are
-- left out.
pub mod Fields
pub mod Updates
pub mod Routed
pub mod Replay
pub mod Redelivery
use order_to_cash_nestjs.Base.{ℕ, List, [], ◌∷◌, ◌++◌, Option, none, some, any, ltb, if◌then◌else◌}
use order_to_cash_nestjs.Base.Text.{Text, codes, ◌=t◌}
use order_to_cash_nestjs.Base.Sorting.{text_ltb, sort}
use order_to_cash_nestjs.Result.{Result, ok, ◌>>=◌, err}
use order_to_cash_nestjs.Orders.Status.{OrderStatus, placed}
use order_to_cash_nestjs.Projector.Timeline.{TimelineEntry, causal_timeline_order}
use order_to_cash_nestjs.Projector.Facts.{FactEnvelope}
use order_to_cash_nestjs.Projector.Delta.{OrderHeader, ProjectionDelta, project_fact}

-- `OrderTimelineDocument`
pub record Document : Type 0 where
  pub order_id : Text
  pub header : Option OrderHeader
  pub status : OrderStatus
  pub cancellation_reason : Option Text
  pub despatch_reference : Option Text
  pub invoice_reference : Option Text
  pub payment_reference : Option Text
  pub events : List TimelineEntry
  pub updated_at : Text
  pub status_rank : ℕ
  pub processed_event_keys : List Text
  pub timeline_order_version : ℕ

-- TIMELINE_ORDER_VERSION
abbrev pub timeline_order_version : ℕ
timeline_order_version = 2

-- `dedupKeyOf`, for the consumer `projector`.
abbrev pub dedup_key_of : Text → Text
dedup_key_of event_id = codes "projector:" ++ event_id

-- `placeholderSkeleton`
abbrev pub placeholder_skeleton : Text → Text → Document
placeholder_skeleton order_id seed_occurred_at = record {
  order_id = order_id;
  header = none;
  status = placed;
  cancellation_reason = none;
  despatch_reference = none;
  invoice_reference = none;
  payment_reference = none;
  events = [];
  updated_at = seed_occurred_at;
  status_rank = 0;
  processed_event_keys = [];
  timeline_order_version = timeline_order_version;
}

-- `$ifNull: [field, value]` where the delta has a value.
unfoldable pub fill_if_absent : Option Text → Option Text → Option Text
fill_if_absent (some old) value = some old
fill_if_absent none value = value

-- `$setUnion` with one key.
unfoldable pub set_union : List Text → Text → List Text
set_union keys key = if any (λ k. k =t key) keys then keys else keys ++ key ∷ []

unfoldable pub max_text : Text → Text → Text
max_text a b = if text_ltb a b then b else a

unfoldable pub max_rank : ℕ → ℕ → ℕ
max_rank a b = if ltb a b then b else a

-- `$cond` of the status: raised on a strictly greater rank than the document's before the update.
unfoldable pub raised_status : Option OrderStatus → ℕ → ℕ → OrderStatus → OrderStatus
raised_status none rank old_rank status = status
raised_status (some implied) rank old_rank status = if ltb old_rank rank then implied else status

-- The header, written unconditionally where there is one.
unfoldable pub written_header : Option OrderHeader → Option OrderHeader → Option OrderHeader
written_header (some header) old = some header
written_header none old = old

-- `deltaToPipeline`
unfoldable pub delta_to_pipeline : ProjectionDelta → Text → Document → Document
unfolding fill_if_absent set_union max_text max_rank raised_status written_header
delta_to_pipeline delta dedup_key document = record document {
  processed_event_keys = sort text_ltb (set_union document.processed_event_keys dedup_key);
  events = causal_timeline_order (document.events ++ delta.entry ∷ []);
  timeline_order_version = timeline_order_version;
  status_rank = max_rank document.status_rank delta.status_rank;
  status =
      raised_status delta.implied_status delta.status_rank document.status_rank document.status;
  updated_at = max_text document.updated_at delta.entry.occurred_at;
  despatch_reference = fill_if_absent document.despatch_reference delta.despatch_reference;
  invoice_reference = fill_if_absent document.invoice_reference delta.invoice_reference;
  payment_reference = fill_if_absent document.payment_reference delta.payment_reference;
  cancellation_reason = fill_if_absent document.cancellation_reason delta.cancellation_reason;
  header = written_header delta.header document.header;
}

pub data ConsumptionOutcome : Type 0 where
  processed duplicate : ConsumptionOutcome

-- `MongoIdempotentConsumer.runOnce` on the document: the filter is the check.
unfoldable pub run_once : ProjectionDelta → Text → Document → ConsumptionOutcome × Document
unfolding delta_to_pipeline
run_once delta event_id document =
    if any (λ k. k =t dedup_key_of event_id) document.processed_event_keys
    then (duplicate, document)
    else (processed, delta_to_pipeline delta (dedup_key_of event_id) document)

-- The collection, by order id.
abbrev pub Collection : Type 0
Collection = Text → Option Document

abbrev pub put : Text → Document → Collection → Collection
put id document collection k = if k =t id then some document else collection k

-- `upsertPlaceholder`: the document that is there after it.
unfoldable pub upsert_placeholder : Text → Text → Option Document → Document
upsert_placeholder order_id seed (some document) = document
upsert_placeholder order_id seed none = placeholder_skeleton order_id seed

-- `MongoReadModelWriter.apply`
unfoldable pub write : ProjectionDelta → Text → Collection → ConsumptionOutcome × Collection
unfolding run_once upsert_placeholder
write delta event_id collection =
    let document =
      upsert_placeholder delta.order_id delta.entry.occurred_at (collection delta.order_id) in
    let (outcome, after) = run_once delta event_id document in
    (outcome, put delta.order_id after collection)

-- `ProjectionApplyService.apply`; the signal that it publishes after an apply changes nothing, even
-- where it fails.
unfoldable pub apply : FactEnvelope → Collection → Result (ConsumptionOutcome × Collection)
unfolding project_fact write
apply envelope collection = do
  delta ← project_fact envelope
  ok (write delta envelope.event_id collection)

-- `route` of apps/projector/src/presentation/projector-facts.controller.ts, on an envelope: a fact
-- that throws writes nothing and is acknowledged, an unknown type at once and any other after the
-- retries, which throw alike.
unfoldable pub route : FactEnvelope → Collection → Collection
unfolding apply
route envelope collection = elim (apply envelope collection) [
  | err thrown ↦ collection
  | ok done ↦ done.1
]

unfoldable pub route_all : List FactEnvelope → Collection → Collection
unfolding route
route_all [] collection = collection
route_all (fact ∷ facts) collection = route_all facts (route fact collection)
