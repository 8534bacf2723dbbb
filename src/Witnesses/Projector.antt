-- ===== src/Witnesses/Projector.antt =====
-- The theorems on the Projector, at one order and its first facts.
use order_to_cash_nestjs.Projector.Delta.Errors.{project_fact-Answers}
use order_to_cash_nestjs.Projector.Document.Replay.{empty, route_all-perm}
use order_to_cash_nestjs.Base.Int.{pos}
use order_to_cash_nestjs.Projector.Delta.Projected.{status_at}
use order_to_cash_nestjs.Errors.{plain_error}
use order_to_cash_nestjs.Projector.Document.Redelivery.{
  get_or_placed, route-again, status_never_falls_back,
}
use order_to_cash_nestjs.Projector.Timeline.Causality.{Precedes, cause-Precedes, uncaused}
use order_to_cash_nestjs.Result.{err}
use order_to_cash_nestjs.Projector.Document.Fields.{Admits}
use order_to_cash_nestjs.Base.{◌≡◌, ◌∷◌, [], refl, none, some, ◌≤◌}
use order_to_cash_nestjs.Projector.Timeline.{TimelineEntry, causal_timeline_order}
use order_to_cash_nestjs.Projector.Delta.{project_fact}
use order_to_cash_nestjs.Projector.Document.{route_all, route, apply, write, Document}
use order_to_cash_nestjs.Base.Text.{◌=t◌, codes}
use order_to_cash_nestjs.Projector.Facts.{
  FactEnvelope, stock_rejected, order_placed, stock_reserved,
}
use mathlib.Core.List.{Memᴰ, Permᴰ}

abbrev placed_fact : FactEnvelope
placed_fact = record {
  event_id = codes "f1";
  correlation_id = codes "o1";
  causation_id = codes "q1";
  occurred_at = codes "2026-01-01T10:00:00.000Z";
  payload = order_placed (record {
    order_reference = codes "ORD-000001";
    order_date = codes "2026-01-01";
    retailer_code = codes "R1";
    buyer_gln = codes "4006381333931";
    company_code = codes "C1";
    supplier_gln = codes "4006381333931";
    currency = codes "EUR";
    initial_amount = pos 2000;
    initial_discount = pos 0;
    total_amount = pos 2000;
    lines = [];
  });
}

abbrev reserved_fact : FactEnvelope
reserved_fact = record {
  event_id = codes "f2";
  correlation_id = codes "o1";
  causation_id = codes "f1";
  occurred_at = codes "2026-01-01T10:00:00.000Z";
  payload = stock_reserved 1;
}

abbrev rejected_fact : FactEnvelope
rejected_fact = record reserved_fact { payload = stock_rejected [] (codes "insufficient_stock") }

admits : Admits placed_fact reserved_fact
unfolding ◌=t◌
admits = record { other_id = refl; other_field = refl }

route_all-perm_example :
    route_all (placed_fact ∷ reserved_fact ∷ []) empty (codes "o1")
    ≡ route_all (reserved_fact ∷ placed_fact ∷ []) empty (codes "o1")
unfolding route_all
route_all-perm_example =
    route_all-perm [] (placed_fact ∷ reserved_fact ∷ []) (reserved_fact ∷ placed_fact ∷ [])
      (codes "o1") (Permᴰ.swap refl refl) ((admits, tt), (tt, tt))

route-again_example :
    route placed_fact (route_all (reserved_fact ∷ []) (route placed_fact empty)) (codes "o1")
    ≡ route_all (reserved_fact ∷ []) (route placed_fact empty) (codes "o1")
route-again_example = route-again placed_fact (reserved_fact ∷ []) empty (codes "o1")

project_fact-Answers_example : project_fact rejected_fact ≡ err plain_error
project_fact-Answers_example = project_fact-Answers rejected_fact

abbrev cause_entry : TimelineEntry
cause_entry = record {
  event_id = codes "f2";
  event_type = codes "order.placed.v1";
  occurred_at = codes "2026-01-01T10:00:00.000Z";
  summary = codes "cause";
  causation_id = codes "q1";
  detail = none;
}

abbrev effect_entry : TimelineEntry
effect_entry = record cause_entry {
  event_id = codes "f1";
  event_type = codes "stock.reserved.v1";
  summary = codes "effect";
  causation_id = codes "f2";
}

cause-Precedes_example :
    Precedes cause_entry effect_entry (causal_timeline_order (effect_entry ∷ cause_entry ∷ []))
unfolding ◌=t◌
cause-Precedes_example =
    cause-Precedes (effect_entry ∷ cause_entry ∷ []) effect_entry cause_entry ((refl, tt), (tt, tt))
      (Memᴰ.tail (Memᴰ.head refl)) (Memᴰ.head refl) refl (uncaused refl)

placed_run : (doc : Document) × (route_all (placed_fact ∷ []) empty (codes "o1") ≡ some doc)
unfolding route_all route apply write ◌=t◌
placed_run = (_, refl)

status_never_falls_back_example :
    (placed_run.0.status ≡ get_or_placed (status_at placed_run.0.status_rank))
    × ((doc' : Document) × (route_all
            (reserved_fact ∷ [])
            (route_all (placed_fact ∷ []) empty)
            (codes "o1")
          ≡ some doc')
        × (doc'.status ≡ get_or_placed (status_at doc'.status_rank))
        × (placed_run.0.status_rank ≤ doc'.status_rank)
        × (doc'.status_rank ≡ placed_run.0.status_rank → doc'.status ≡ placed_run.0.status))
status_never_falls_back_example =
    status_never_falls_back (placed_fact ∷ []) (reserved_fact ∷ []) (codes "o1") placed_run.1
