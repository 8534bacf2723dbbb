-- ===== src/Witnesses/CreditRuns.antt =====
-- A credit line through a hold, its consumption and its release.
use order_to_cash_nestjs.Witnesses.Samples.{
  hold_request, an_order, release_request, ctx, credit_line,
}
use order_to_cash_nestjs.Base.{◌≡◌, refl, Option}
use order_to_cash_nestjs.Base.Int.{◌+ℤ◌, ◌-ℤ◌, min_ℤ}
use order_to_cash_nestjs.Base.Text.{codes, ◌=t◌}
use order_to_cash_nestjs.Result.{ok}
use order_to_cash_nestjs.Kernel.Money.{
  validate_currency, matches_currency_code, to_upper_case, upper, is_upper_letter, is_lower_letter,
  is_safe_integer,
}
use order_to_cash_nestjs.Kernel.Money
use order_to_cash_nestjs.Billing.Ledger.{
  book, accumulate, accumulate_all, exposure_of, sum_by, summarise_ledger, Entry,
}
use order_to_cash_nestjs.Billing.Line.{BuyerCredit}
use order_to_cash_nestjs.Billing.Credit.{
  append_fact, evaluate_hold, evaluate_found, evaluate_new, entries_of, outstanding, active_hold,
  approve_hold, consume_hold, release_hold, release_outstanding,
}

unfoldable pub approve_run :
    (e : Entry) × (c : BuyerCredit) × (approve_hold
        (codes "h1")
        (codes "e1")
        hold_request
        ctx
        credit_line
      ≡ ok (e, c))
unfolding approve_hold append_fact evaluate_hold evaluate_found evaluate_new entries_of ◌=t◌ ◌+ℤ◌
    ◌-ℤ◌
approve_run = (_, _, refl)

unfoldable pub consumption_run :
    (e : Entry) × (c : BuyerCredit) × (consume_hold (codes "h2") an_order ctx approve_run.1
      ≡ ok (e, c))
unfolding approve_run consume_hold active_hold entries_of summarise_ledger accumulate_all accumulate
    book exposure_of sum_by min_ℤ Money.of validate_currency matches_currency_code to_upper_case
    upper is_upper_letter is_lower_letter is_safe_integer ◌=t◌ ◌+ℤ◌ ◌-ℤ◌
consumption_run = (_, _, refl)

unfoldable pub give_back_run :
    (e : Option Entry) × (c : BuyerCredit) × (release_hold
        (codes "h3")
        (codes "e2")
        release_request
        ctx
        consumption_run.1
      ≡ ok (e, c))
unfolding consumption_run release_hold release_outstanding append_fact outstanding entries_of
    summarise_ledger accumulate_all accumulate book exposure_of sum_by min_ℤ Money.of
    validate_currency matches_currency_code to_upper_case upper is_upper_letter is_lower_letter
    is_safe_integer ◌=t◌ ◌+ℤ◌ ◌-ℤ◌
give_back_run = (_, _, refl)
