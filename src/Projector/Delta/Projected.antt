-- ===== src/Projector/Delta/Projected.antt =====
-- The fields of the delta that `projectFact` (fact-projection.ts) answers.
use order_to_cash_nestjs.Projector.Timeline.{TimelineEntry}
use order_to_cash_nestjs.Projector.Summaries.{summary_of, SummaryResult}
use order_to_cash_nestjs.Errors.{unknown_fact_type}
use mathlib.Core.Path.{subst}
use order_to_cash_nestjs.Result.{ok, bind-ok, throw_if, ok-injective}
use order_to_cash_nestjs.Orders.Status.{
  OrderStatus, placed, stock_reserved, credit_approved, confirmed, despatched, invoiced, paid,
  completed, cancelled,
}
use order_to_cash_nestjs.Base.Text.{Text, ◌=t◌}
use order_to_cash_nestjs.Projector.Facts.{Payload, FactEnvelope}
use order_to_cash_nestjs.Projector.Delta.{
  ProjectionDelta, project_fact, fill, order_placed, event_type, handled_event_types, OrderHeader,
  order_despatched, invoice_issued, payment_received, order_cancelled, header_of, entry_of,
}
use order_to_cash_nestjs.Projector.Rank.{
  RankEntry, entry_for, rank_table, implied_status_of, rank_of,
}
use order_to_cash_nestjs.Base.{
  ℕ, All, Option, ◌≡◌, Bool, none, List, if◌then◌else◌, refl, find?, Option-cases, ◌==◌, some, ◌∷◌,
  inl, Bool-cases, inr, not, arith, any, [], sym, ◌∙◌, ap,
}

-- The status that a rank stands for.
abbrev pub status_at : ℕ → Option OrderStatus
status_at rank =
    if rank == 1
    then some placed
    else if rank == 2
    then some stock_reserved
    else if rank == 3
    then some credit_approved
    else if rank == 4
    then some confirmed
    else if rank == 5
    then some despatched
    else if rank == 6
    then some invoiced
    else if rank == 7
    then some paid
    else if rank == 98
    then some completed
    else if rank == 99
    then some cancelled
    else none

abbrev IsRanked : RankEntry → Type 0
IsRanked e = (e.status ≡ status_at e.rank) × (e.status ≡ none → e.rank ≡ 0)

rank_table-IsRanked : All IsRanked rank_table
rank_table-IsRanked = (
  (refl, λ h. cc),
  (
    (refl, λ h. cc),
    (
      (refl, λ h. cc),
      (
        (refl, λ h. cc),
        (
          (refl, λ h. cc),
          (
            (refl, λ h. cc),
            (
              (refl, λ h. cc),
              (
                (refl, λ h. cc),
                (
                  (refl, λ h. cc),
                  (
                    (refl, λ h. refl),
                    (
                      (refl, λ h. refl),
                      ((refl, λ h. refl), ((refl, λ h. refl), ((refl, λ h. refl), tt))),
                    ),
                  ),
                ),
              ),
            ),
          ),
        ),
      ),
    ),
  ),
)

find?-All :
    (P : RankEntry → Type 0) (p : RankEntry → Bool) (xs : List RankEntry) {e : RankEntry}
    → All P xs
    → find? p xs ≡ some e
    → P e
find?-All P p [] h f = cc
find?-All P p (x ∷ xs) {e} h f = elim (Bool-cases (p x)) [
  | inl at ↦ let same : x ≡ e = ground (arith, at, f) in subst P same h.0
  | inr not_at ↦ find?-All P p xs h.1 (ground (arith, not_at, f))
]

entry_for-IsRanked : (t : Text) {e : RankEntry} → entry_for t ≡ ok e → IsRanked e
unfolding entry_for
entry_for-IsRanked t h =
    elim (Option-cases (find? (λ (e : RankEntry). e.event_type =t t) rank_table)) [
      | inl none_there ↦ let bad = rw (none_there, entry_for) at h in cc bad
      | inr (e, found) ↦
          let same = rw (found, entry_for) at h in
          subst IsRanked (ok-injective same) (
            find?-All IsRanked (λ (e : RankEntry). e.event_type =t t) rank_table rank_table-IsRanked
              found)
    ]

-- What a payload writes of the fields that one fact alone may write.
abbrev pub header_in : Payload → Option OrderHeader
header_in (order_placed p) = some (header_of p)
header_in _ = none

abbrev pub despatch_in : Payload → Option Text
despatch_in (order_despatched reference) = some reference
despatch_in _ = none

abbrev pub invoice_in : Payload → Option Text
invoice_in (invoice_issued reference) = some reference
invoice_in _ = none

abbrev pub payment_in : Payload → Option Text
payment_in (payment_received reference) = some reference
payment_in _ = none

abbrev pub reason_in : Payload → Option Text
reason_in (order_cancelled order_reference reason steps) = some reason
reason_in _ = none

-- A delta that `projectFact` makes of a fact.
pub record IsProjected (d : ProjectionDelta) (f : FactEnvelope) : Type 0 where
  pub of_order : d.order_id ≡ f.correlation_id
  pub of_event : d.entry.event_id ≡ f.event_id
  pub at_instant : d.entry.occurred_at ≡ f.occurred_at
  pub ranked : d.implied_status ≡ status_at d.status_rank
  pub unranked : d.implied_status ≡ none → d.status_rank ≡ 0
  pub header : d.header ≡ header_in f.payload
  pub despatch : d.despatch_reference ≡ despatch_in f.payload
  pub invoice : d.invoice_reference ≡ invoice_in f.payload
  pub payment : d.payment_reference ≡ payment_in f.payload
  pub reason : d.cancellation_reason ≡ reason_in f.payload

-- The base of every delta.
abbrev base : FactEnvelope → SummaryResult → Option OrderStatus → ℕ → ProjectionDelta
base envelope built status rank = record {
  order_id = envelope.correlation_id;
  entry = entry_of envelope built;
  implied_status = status;
  status_rank = rank;
  cancellation_reason = none;
  despatch_reference = none;
  invoice_reference = none;
  payment_reference = none;
  header = none;
}

record IsFilled (p : Payload) (d d' : ProjectionDelta) : Type 0 where
  order : d'.order_id ≡ d.order_id
  entry : d'.entry ≡ d.entry
  status : d'.implied_status ≡ d.implied_status
  rank : d'.status_rank ≡ d.status_rank
  header : d'.header ≡ header_in p
  despatch : d'.despatch_reference ≡ despatch_in p
  invoice : d'.invoice_reference ≡ invoice_in p
  payment : d'.payment_reference ≡ payment_in p
  reason : d'.cancellation_reason ≡ reason_in p

fill-IsFilled :
    (p : Payload) (f : FactEnvelope) (b : SummaryResult) (s : Option OrderStatus) (r : ℕ)
    → IsFilled p (base f b s r) (fill p (base f b s r))
fill-IsFilled (order_placed p) f b s r = record {
  order = refl;
  entry = refl;
  status = refl;
  rank = refl;
  header = refl;
  despatch = refl;
  invoice = refl;
  payment = refl;
  reason = refl;
}
fill-IsFilled _ f b s r = record {
  order = refl;
  entry = refl;
  status = refl;
  rank = refl;
  header = refl;
  despatch = refl;
  invoice = refl;
  payment = refl;
  reason = refl;
}

pub project_fact-IsProjected :
    (f : FactEnvelope) {d : ProjectionDelta} → project_fact f ≡ ok d → IsProjected d f
unfolding project_fact implied_status_of rank_of
project_fact-IsProjected f h =
    let t = event_type f.payload in
    let (u, handled, h1) =
      bind-ok (throw_if (not (any (λ s. s =t t) handled_event_types)) (unknown_fact_type t)) _ h in
    let (status, implied, h2) = bind-ok (implied_status_of t) _ h1 in
    let (rank, ranks, h3) = bind-ok (rank_of t) _ h2 in
    let (built, summed, h4) = bind-ok (summary_of f.payload) _ h3 in
    let (e, for_status, s1) = bind-ok (entry_for t) _ implied in
    let (e', for_rank, r1) = bind-ok (entry_for t) _ ranks in
    let one : e ≡ e' = ok-injective (sym for_status ∙ for_rank) in
    let filled = fill-IsFilled f.payload f built status rank in
    let (good, zero') = entry_for-IsRanked t for_status in
    let st : e.status ≡ status = ok-injective s1 in
    let rk : e'.rank ≡ rank = ok-injective r1 in
    subst (λ d. IsProjected d f) (ok-injective h4)
      (record {
        of_order = filled.order;
        of_event = ap (λ (x : TimelineEntry). x.event_id) filled.entry;
        at_instant = ap (λ (x : TimelineEntry). x.occurred_at) filled.entry;
        ranked =
            filled.status
            ∙ sym st
            ∙ good
            ∙ ap status_at (ap (λ (x : RankEntry). x.rank) one ∙ rk ∙ sym filled.rank);
        unranked = λ n.
            filled.rank
            ∙ sym rk
            ∙ sym (ap (λ (x : RankEntry). x.rank) one)
            ∙ zero' (st ∙ sym filled.status ∙ n);
        header = filled.header;
        despatch = filled.despatch;
        invoice = filled.invoice;
        payment = filled.payment;
        reason = filled.reason;
      })
