-- ===== src/Witnesses/Billing.antt =====
-- The theorems on credit, at one credit line and one order.
use order_to_cash_nestjs.Errors.{no_active_hold}
use order_to_cash_nestjs.Billing.Credit.Repeats.{
  release_hold-twice, approve_hold-twice, consume_hold-twice,
}
use order_to_cash_nestjs.Billing.Ledger.Exposure.{net, summarise_ledger-committed}
use order_to_cash_nestjs.Witnesses.Samples.{
  credit_line, release_request, hold_request, an_order, ctx,
}
use order_to_cash_nestjs.Billing.Ledger.{summarise_ledger}
use order_to_cash_nestjs.Billing.Credit.Changes.{
  CreditInvariant, ReachableCredit-invariant, changing, loading, consuming, releasing,
}
use order_to_cash_nestjs.Billing.Line.{BuyerCreditSnapshot, already_held}
use order_to_cash_nestjs.Billing.Credit.{
  release_hold, evaluate_hold, consume_hold, reconstitute, all_entries,
}
use order_to_cash_nestjs.Base.{◌≡◌, refl, none, []}
use order_to_cash_nestjs.Base.Int.{pos}
use order_to_cash_nestjs.Base.Text.{codes}
use order_to_cash_nestjs.Billing.Credit.Changes.{approving, consuming, releasing, changing, loading}
use order_to_cash_nestjs.Result.{ok, err}
use order_to_cash_nestjs.Witnesses.CreditRuns.{approve_run, consumption_run, give_back_run}

abbrev line_snapshot : BuyerCreditSnapshot
line_snapshot = record {
  id = codes "b1";
  code = codes "CR-000001";
  retailer_code = codes "RET";
  company_code = codes "COM";
  credit_limit = pos 1000;
  currency = codes "EUR";
  committed_exposure = pos 300;
  order_entries = [];
}

ReachableCredit-invariant_example : CreditInvariant line_snapshot give_back_run.1
unfolding reconstitute
ReachableCredit-invariant_example = ReachableCredit-invariant (
    changing
      (changing
        (changing (loading refl)
          (approving (codes "h1") (codes "e1") hold_request ctx approve_run.0 approve_run.2))
        (consuming (codes "h2") an_order ctx consumption_run.0 consumption_run.2))
      (releasing (codes "h3") (codes "e2") release_request ctx give_back_run.0 give_back_run.2))

release_hold-twice_example :
    release_hold (codes "h4") (codes "e4") release_request ctx give_back_run.1
    ≡ ok (none, give_back_run.1)
release_hold-twice_example =
    release_hold-twice (codes "h3") (codes "h4") (codes "e2") (codes "e4") release_request ctx ctx
      consumption_run.1 give_back_run.2

approve_hold-twice_example :
    evaluate_hold hold_request approve_run.1 ≡ ok (already_held hold_request.amount)
approve_hold-twice_example =
    approve_hold-twice (codes "h1") (codes "e1") hold_request hold_request ctx credit_line
      approve_run.2 refl

consume_hold-twice_example :
    consume_hold (codes "h5") an_order ctx consumption_run.1 ≡ err (no_active_hold an_order)
consume_hold-twice_example =
    consume_hold-twice (codes "h2") (codes "h5") an_order ctx ctx approve_run.1 consumption_run.2

summarise_ledger-committed_example :
    (summarise_ledger (all_entries give_back_run.1)).committed_exposure
    ≡ net (all_entries give_back_run.1)
summarise_ledger-committed_example = summarise_ledger-committed (all_entries give_back_run.1)
