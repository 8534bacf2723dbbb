-- ===== src/Projector/Delta/Errors.antt =====
-- The answers of `projectFact` (fact-projection.ts), fact by fact.
use order_to_cash_nestjs.Base.Text.{Text, ◌=t◌}
use order_to_cash_nestjs.Projector.Summaries.{
  summary_of, stock_rejected_summary, stock_released_summary, credit_rejected_summary,
  order_cancelled_summary, order_saga_failed_summary,
}
use order_to_cash_nestjs.Result.{Result, err, is_ok, ◌>>=◌, ok}
use order_to_cash_nestjs.Projector.Rank.{implied_status_of, rank_of, entry_for, RankEntry}
use order_to_cash_nestjs.Errors.{DomainError, unknown_fact_type, plain_error}
use order_to_cash_nestjs.Projector.Delta.{project_fact, ProjectionDelta, handled_event_types}
use order_to_cash_nestjs.Base.{
  Option, some, ◌≡◌, none, true, ◌∷◌, refl, [], any, arith, Bool-cases, inr, inl,
}
use order_to_cash_nestjs.Projector.Facts.{Payload, FactEnvelope, unknown_fact, stock_rejected}

-- The error of a fact that is refused.
abbrev pub refusal : Payload → Option DomainError
refusal (unknown_fact name) = some (unknown_fact_type name)
refusal (stock_rejected [] reason) = some plain_error
refusal _ = none

abbrev pub Answers : Option DomainError → Result ProjectionDelta → Type 0
Answers (some thrown) answer = answer ≡ err thrown
Answers none answer = is_ok answer ≡ true

-- Every type that is handled has a rank.
handled-entry_for :
    (name : Text) → any (λ t. t =t name) handled_event_types ≡ true → is_ok (entry_for name) ≡ true
unfolding entry_for
handled-entry_for name h = ground (arith, h)

refuse : Text → Result ProjectionDelta
refuse name = err (unknown_fact_type name)

refused_unknown :
    (f : FactEnvelope) (name : Text)
    → project_fact (record f { payload = unknown_fact name }) ≡ err (unknown_fact_type name)
unfolding project_fact implied_status_of rank_of summary_of refuse
refused_unknown f name = elim (Bool-cases (any (λ t. t =t name) handled_event_types)) [
  | inr e ↦ rw e refl
  | inl e ↦ rw e (after_entry (entry_for name) (handled-entry_for name e))
]
  where
    after_entry :
        (r : Result RankEntry)
        → is_ok r ≡ true
        → ((r >>= λ entry. ok entry.status) >>= λ status.
            (r >>= λ entry. ok entry.rank) >>= λ rank. refuse name)
          ≡ err (unknown_fact_type name)
    after_entry (err e) h = cc
    after_entry (ok entry) h = refl

Answers-payload :
    (p : Payload) (f : FactEnvelope) → Answers (refusal p) (project_fact (record f { payload = p }))
unfolding project_fact implied_status_of rank_of entry_for summary_of stock_rejected_summary
    stock_released_summary credit_rejected_summary order_cancelled_summary order_saga_failed_summary
    ◌=t◌
Answers-payload (unknown_fact name) f = refused_unknown f name
Answers-payload (stock_rejected [] reason) f = refl
Answers-payload (stock_rejected (s ∷ ss) reason) f = refl
Answers-payload _ f = refl

-- `projectFact` throws `UnknownFactTypeError` on a fact whose type is none of the fourteen, a plain
-- error on a `stock.rejected.v1` without shortages, and answers a delta on every other fact.
pub project_fact-Answers : (f : FactEnvelope) → Answers (refusal f.payload) (project_fact f)
project_fact-Answers f = Answers-payload f.payload f
