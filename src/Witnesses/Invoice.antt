-- ===== src/Witnesses/Invoice.antt =====
-- An invoice, issued and paid.
use order_to_cash_nestjs.Billing.Invoice.{
  Invoice, InvoiceLineInput, IssueInvoiceInput, MarkPaidInput, is_paid, issue, create_invoice_lines,
  sum_line_totals, append_fact, mark_paid, reconstitute, to_snapshot,
}
use order_to_cash_nestjs.Billing.Invoice.Life.{
  mark_paid-once, reconstitute-to_snapshot, issuing, paying,
}
use order_to_cash_nestjs.Witnesses.Samples.{fresh, ctx, eur, an_order}
use order_to_cash_nestjs.Base.{◌≡◌, refl, List, [], ◌∷◌, false}
use order_to_cash_nestjs.Base.Int.{◌+ℤ◌, ◌-ℤ◌, ◌*ℤ◌}
use order_to_cash_nestjs.Base.Text.{◌=t◌, codes}
use order_to_cash_nestjs.Errors.{invoice_already_paid}
use order_to_cash_nestjs.Result.{ok, err}
use order_to_cash_nestjs.Kernel.Money.{
  zero_money, add, subtract, multiply, validate_currency, matches_currency_code, to_upper_case,
  upper, is_upper_letter, is_lower_letter, is_safe_integer, assert_same_currency, is_negative,
}
use order_to_cash_nestjs.Kernel.Money

abbrev invoice_lines : List InvoiceLineInput
invoice_lines =
    record { product_code = codes "P1"; units = 3; unit_price = eur 250 }
    ∷ record { product_code = codes "P2"; units = 1; unit_price = eur 100 }
    ∷ []

abbrev issue_input : IssueInvoiceInput
issue_input = record {
  id = codes "i1";
  invoice_reference = codes "INV-000001";
  invoice_date = 950;
  order_reference = an_order;
  retailer_code = codes "RET";
  company_code = codes "COM";
  currency = codes "EUR";
  lines = invoice_lines;
  discount = eur 50;
  correlation_id = codes "o1";
}

abbrev payment : MarkPaidInput
payment = record {
  payment_reference = codes "PAY-1";
  amount = eur 800;
  value_date = 990;
  source = codes "bank";
  correlation_id = codes "o1";
}

unfoldable issued_run : (v : Invoice) × (issue fresh (codes "e1") issue_input ctx ≡ ok v)
unfolding issue create_invoice_lines sum_line_totals append_fact zero_money Money.of add subtract
    multiply validate_currency matches_currency_code to_upper_case upper is_upper_letter
    is_lower_letter is_safe_integer assert_same_currency ◌=t◌ ◌+ℤ◌ ◌-ℤ◌ ◌*ℤ◌
issued_run = (_, refl)

unfoldable paid_run : (v : Invoice) × (mark_paid (codes "e2") payment ctx issued_run.0 ≡ ok v)
unfolding issued_run mark_paid append_fact ◌=t◌
paid_run = (_, refl)

mark_paid-once_example :
    (payment.amount ≡ issued_run.0.total_amount)
    × (paid_run.0.state ≡ is_paid ctx.occurred_at)
    × (paid_run.0.total_amount ≡ issued_run.0.total_amount)
    × (mark_paid (codes "e3") payment ctx paid_run.0
        ≡ err (invoice_already_paid issued_run.0.invoice_reference))
mark_paid-once_example =
    mark_paid-once (codes "e2") (codes "e3") payment payment ctx ctx issued_run.0 paid_run.1

reconstitute-to_snapshot_example :
    (reconstitute (to_snapshot paid_run.0) ≡ ok (record paid_run.0 { domain_events = [] }))
    × (is_negative paid_run.0.total_amount ≡ false)
reconstitute-to_snapshot_example = reconstitute-to_snapshot (
    paying (codes "e2") payment ctx (issuing fresh (codes "e1") issue_input ctx issued_run.1)
      paid_run.1)
