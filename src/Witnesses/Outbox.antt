-- ===== src/Witnesses/Outbox.antt =====
-- The theorem on the outbox, at two facts of one order and a publication that fails half-way.
use order_to_cash_nestjs.Outbox.Once.{relay-once_in_order}
use order_to_cash_nestjs.Outbox.Stamps.{facts_of}
use order_to_cash_nestjs.Result.{ok}
use order_to_cash_nestjs.Outbox.Delivery.{handle_all, then_step, no_rows, recording, relaying}
use order_to_cash_nestjs.Base.Text.{codes, ◌=t◌}
use order_to_cash_nestjs.Base.{List, [], ◌≡◌, length, if◌then◌else◌, ◌==◌, ◌∷◌, refl, filter, ◌++◌}
use order_to_cash_nestjs.Outbox.{
  StoredEnvelope, record_events, OutboxState, relay_once, insert_rows, publication_failed,
  acknowledged, PublishableFact, claim_unpublished, stamp, OutboxRow, of_key, is_published,
}

abbrev first_event : StoredEnvelope
first_event = record {
  event_id = codes "e1";
  event_type = codes "order.placed.v1";
  aggregate_id = codes "o1";
  correlation_id = codes "o1";
  causation_id = codes "q1";
  occurred_at = 1000;
  payload = codes "{}";
}

abbrev second_event : StoredEnvelope
second_event = record first_event { event_id = codes "e2"; event_type = codes "order.confirmed.v1" }

recording_run :
    (rows : List OutboxRow) × (record_events
        (λ k. if k == 0 then codes "r1" else codes "r2")
        1000
        (first_event ∷ second_event ∷ [])
        []
      ≡ ok rows)
unfolding record_events insert_rows ◌=t◌
recording_run = (_, refl)

abbrev recorded : OutboxState
recorded = record { rows = recording_run.0; topic = λ k. [] }

-- The broker takes one fact of each key and the call fails; the next cycle sends both again.
abbrev half_way : OutboxState
half_way = (relay_once 10 (publication_failed (λ k. 1)) 2000 recorded).1

abbrev both_sent : OutboxState
both_sent = (relay_once 10 acknowledged 3000 half_way).1

relay-once_in_order_example :
    (ahead rest : List PublishableFact) × (handle_all [] (both_sent.topic (codes "o1"))
      ≡ of_key (codes "o1") (facts_of (filter is_published both_sent.rows)) ++ ahead)
    × (of_key (codes "o1") (facts_of both_sent.rows)
        ≡ handle_all [] (both_sent.topic (codes "o1")) ++ rest)
relay-once_in_order_example =
    relay-once_in_order
      (then_step
        (then_step
          (then_step no_rows (
            recording (λ k. if k == 0 then codes "r1" else codes "r2") 1000
              (first_event ∷ second_event ∷ []) recording_run.0 recording_run.1))
          (relaying (publication_failed (λ k. 1)) 2000))
        (relaying acknowledged 3000))
      (codes "o1")

-- The topic holds the first fact twice.
topic_run : length (both_sent.topic (codes "o1")) ≡ 3
unfolding recording_run relay_once claim_unpublished stamp ◌=t◌
topic_run = refl
