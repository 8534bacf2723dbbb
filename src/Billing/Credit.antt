-- ===== src/Billing/Credit.antt =====
-- apps/billing/src/domain/buyer-credit.ts: the credit line of a buyer, with credit-events.ts and
-- buyer-credit-snapshot.ts. A method that throws assigns nothing before it throws; the ids that the
-- code draws are arguments. The amounts are integers; where the code calls `Money.of`, its range test
-- is here too.
pub mod Evaluation
pub mod Changes
pub mod Repeats
use order_to_cash_nestjs.Billing.Line.{
  BuyerCredit, BuyerCreditSnapshot, HoldRequest, CreditPayload, CreditRejectionReason,
  CreditReleaseReason, HoldEvaluation, is_fits, over_limit, credit_was_rejected, credit_released,
  other_currency, already_held, credit_approved, exceeds, fits,
}
use order_to_cash_nestjs.Base.{
  Bool, true, false, not, List, [], ◌∷◌, ◌++◌, Option, none, some, filter, find?, any,
  if◌then◌else◌, ◌&&◌,
}
use order_to_cash_nestjs.Base.Int.{ℤ, pos, ◌+ℤ◌, ◌-ℤ◌, ltb_ℤ, leb_ℤ, eqb_ℤ}
use order_to_cash_nestjs.Base.Text.{Text, ◌=t◌}
use order_to_cash_nestjs.Errors.{
  credit_limit_exceeded, credit_refusal_mismatch, credit_release_underflow, no_active_hold,
  invalid_buyer_credit_snapshot, fact_aggregate_mismatch,
}
use order_to_cash_nestjs.Result.{Result, ok, err, ◌>>=◌, ◌>>◌, throw_if}
use order_to_cash_nestjs.Kernel.Money.{Money}
use order_to_cash_nestjs.Kernel.Money
use order_to_cash_nestjs.Kernel.Envelope.{Envelope, Context}
use order_to_cash_nestjs.Billing.Ledger.{
  Entry, EntryType, hold_entry, consume_entry, release_entry, is_hold, figure, summarise_ledger,
}

abbrev pub all_entries : BuyerCredit → List Entry
all_entries credit = credit.loaded_entries ++ credit.appended

-- `entriesOf`
unfoldable pub entries_of : BuyerCredit → Text → List Entry
entries_of credit order_reference =
    filter (λ entry. entry.order_reference =t order_reference) (all_entries credit)

-- `BuyerCredit.reconstitute`
unfoldable pub reconstitute : BuyerCreditSnapshot → Result BuyerCredit
reconstitute snapshot = do
  throw_if (ltb_ℤ snapshot.credit_limit (pos 0)) (invalid_buyer_credit_snapshot snapshot.id)
  throw_if (ltb_ℤ snapshot.credit_limit snapshot.committed_exposure)
      (invalid_buyer_credit_snapshot snapshot.id)
  throw_if (any (λ entry. not (entry.amount.currency =t snapshot.currency)) snapshot.order_entries)
      (invalid_buyer_credit_snapshot snapshot.id)
  ok (record {
    id = snapshot.id;
    code = snapshot.code;
    retailer_code = snapshot.retailer_code;
    company_code = snapshot.company_code;
    credit_limit = snapshot.credit_limit;
    currency = snapshot.currency;
    committed_exposure = snapshot.committed_exposure;
    loaded_entries = snapshot.order_entries;
    appended = [];
    domain_events = [];
  })

unfoldable pub to_snapshot : BuyerCredit → BuyerCreditSnapshot
to_snapshot credit = record {
  id = credit.id;
  code = credit.code;
  retailer_code = credit.retailer_code;
  company_code = credit.company_code;
  credit_limit = credit.credit_limit;
  currency = credit.currency;
  committed_exposure = credit.committed_exposure;
  order_entries = all_entries credit;
}

abbrev pub available : BuyerCredit → ℤ
available credit = credit.credit_limit -ℤ credit.committed_exposure

-- The tests of `evaluateHold` after the search for an earlier hold.
unfoldable pub evaluate_new : HoldRequest → BuyerCredit → Result HoldEvaluation
evaluate_new request credit =
    if not (request.amount.currency =t credit.currency)
    then ok (other_currency credit.currency)
    else if ltb_ℤ (available credit) request.amount.amount
    then (do left ← Money.of (available credit) credit.currency; ok (exceeds left))
    else ok fits

unfoldable pub evaluate_found : Option Entry → HoldRequest → BuyerCredit → Result HoldEvaluation
unfolding evaluate_new
evaluate_found (some hold) request credit = ok (already_held hold.amount)
evaluate_found none request credit = evaluate_new request credit

-- `evaluateHold`
unfoldable pub evaluate_hold : HoldRequest → BuyerCredit → Result HoldEvaluation
unfolding evaluate_found entries_of
evaluate_hold request credit =
    evaluate_found
      (find? (λ entry. is_hold entry.type_) (entries_of credit request.order_reference)) request
      credit

-- `createDomainEvent` with the line as aggregate.
abbrev pub credit_event :
    Text → BuyerCredit → Text → Context → CreditPayload → Envelope CreditPayload
credit_event event_id credit correlation_id ctx payload = record {
  event_id = event_id;
  aggregate_id = credit.id;
  correlation_id = correlation_id;
  causation_id = ctx.causation_id;
  occurred_at = ctx.occurred_at;
  payload = payload;
}

-- `appendFact`
unfoldable pub append_fact : Envelope CreditPayload → BuyerCredit → Result BuyerCredit
append_fact event credit = do
  throw_if (not (event.aggregate_id =t credit.id))
      (fact_aggregate_mismatch credit.id event.aggregate_id)
  ok (record credit { domain_events = credit.domain_events ++ event ∷ [] })

abbrev pub new_entry : Text → Text → Money → EntryType → Context → Entry
new_entry id order_reference amount type_ ctx = record {
  id = id;
  order_reference = order_reference;
  amount = amount;
  type_ = type_;
  entry_date = ctx.occurred_at;
}

abbrev pub with_hold : Text → HoldRequest → Context → BuyerCredit → BuyerCredit
with_hold id request ctx credit = record credit {
  committed_exposure = credit.committed_exposure +ℤ request.amount.amount;
  appended =
      credit.appended ++ new_entry id request.order_reference request.amount hold_entry ctx ∷ [];
}

-- `approveHold`; `id` is the entry's, `event_id` the fact's.
unfoldable pub approve_hold :
    Text → Text → HoldRequest → Context → BuyerCredit → Result (Entry × BuyerCredit)
unfolding append_fact
approve_hold id event_id request ctx credit = do
  evaluation ← evaluate_hold request credit
  throw_if (not (is_fits evaluation))
      (credit_limit_exceeded request.amount.amount (available credit))
  after ←
      append_fact
        (credit_event event_id credit request.correlation_id ctx (
          credit_approved request.order_reference request.amount.amount
            (available (with_hold id request ctx credit))))
        (with_hold id request ctx credit)
  ok (new_entry id request.order_reference request.amount hold_entry ctx, after)

abbrev is_over_limit : CreditRejectionReason → Bool
is_over_limit over_limit = true
is_over_limit _ = false

-- `refuseHold`
unfoldable pub refuse_hold :
    Text → HoldRequest → CreditRejectionReason → Context → BuyerCredit → Result BuyerCredit
unfolding append_fact
refuse_hold event_id request reason ctx credit = do
  throw_if (is_over_limit reason && leb_ℤ request.amount.amount (available credit))
      credit_refusal_mismatch
  append_fact
      (credit_event event_id credit request.correlation_id ctx (
        credit_was_rejected request.order_reference request.amount.amount (available credit)
          reason))
      credit

-- `summary.byOrder.find(...)?.f ?? 0` over the entries of the order.
unfoldable pub outstanding : BuyerCredit → Text → ℤ
unfolding entries_of summarise_ledger
outstanding credit order_reference =
    figure (λ x. x.exposure)
      (find? (λ x. x.order_reference =t order_reference)
        (summarise_ledger (entries_of credit order_reference)).by_order)

unfoldable pub active_hold : BuyerCredit → Text → ℤ
unfolding entries_of summarise_ledger
active_hold credit order_reference =
    figure (λ x. x.active_hold)
      (find? (λ x. x.order_reference =t order_reference)
        (summarise_ledger (entries_of credit order_reference)).by_order)

pub record ReleaseInput : Type 0 where
  pub order_reference : Text
  pub reason : CreditReleaseReason
  pub correlation_id : Text

abbrev pub with_release : Text → Text → ℤ → Money → Context → BuyerCredit → BuyerCredit
with_release id order_reference out amount ctx credit = record credit {
  committed_exposure = credit.committed_exposure -ℤ out;
  appended = credit.appended ++ new_entry id order_reference amount release_entry ctx ∷ [];
}

-- `releaseHold` past its two guards.
unfoldable pub release_outstanding :
    ℤ → Text → Text → ReleaseInput → Context → BuyerCredit → Result (Option Entry × BuyerCredit)
unfolding append_fact
release_outstanding out id event_id input ctx credit = do
  amount ← Money.of out credit.currency
  after ←
      append_fact
        (credit_event event_id credit input.correlation_id ctx (
          credit_released input.order_reference out
            (available (with_release id input.order_reference out amount ctx credit)) input.reason))
        (with_release id input.order_reference out amount ctx credit)
  ok (some (new_entry id input.order_reference amount release_entry ctx), after)

-- `releaseHold`
unfoldable pub release_hold :
    Text → Text → ReleaseInput → Context → BuyerCredit → Result (Option Entry × BuyerCredit)
unfolding outstanding release_outstanding
release_hold id event_id input ctx credit =
    let out = outstanding credit input.order_reference in
    if ltb_ℤ out (pos 0)
    then err (credit_release_underflow input.order_reference out)
    else if eqb_ℤ out (pos 0)
    then ok (none, credit)
    else release_outstanding out id event_id input ctx credit

abbrev pub with_consumption : Text → Text → Money → Context → BuyerCredit → BuyerCredit
with_consumption id order_reference amount ctx credit = record credit {
  appended = credit.appended ++ new_entry id order_reference amount consume_entry ctx ∷ [];
}

-- `consumeHold`
unfoldable pub consume_hold : Text → Text → Context → BuyerCredit → Result (Entry × BuyerCredit)
unfolding active_hold
consume_hold id order_reference ctx credit = do
  throw_if (leb_ℤ (active_hold credit order_reference) (pos 0)) (no_active_hold order_reference)
  amount ← Money.of (active_hold credit order_reference) credit.currency
  ok (
    new_entry id order_reference amount consume_entry ctx,
    with_consumption id order_reference amount ctx credit,
  )
