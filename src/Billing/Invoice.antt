-- ===== src/Billing/Invoice.antt =====
-- apps/billing/src/domain/invoice.ts: the invoice aggregate, with invoice-line.ts, invoice-events.ts
-- and invoice-snapshot.ts. The ids that the code draws are arguments.
pub mod Life
use order_to_cash_nestjs.Base.{
  ℕ, ◌+◌, Bool, true, false, not, ◌&&◌, List, [], ◌∷◌, ◌++◌, Option, none, some, is_some, is_empty,
  any, map,
}
use order_to_cash_nestjs.Base.Int.{ℤ}
use order_to_cash_nestjs.Base.Text.{Text, ◌=t◌}
use order_to_cash_nestjs.Errors.{
  empty_invoice_lines, invoice_line_currency_mismatch, negative_invoice_total,
  invalid_invoice_snapshot, invoice_already_paid, invoice_payment_amount_mismatch,
  invoice_payment_currency_mismatch,
}
use order_to_cash_nestjs.Result.{Result, ok, ◌>>=◌, ◌>>◌, throw_if}
use order_to_cash_nestjs.Kernel.Money.{
  Money, zero_money, add, subtract, multiply, is_negative, equals,
}
use order_to_cash_nestjs.Kernel.Envelope.{Envelope, Context}

pub record InvoiceLine : Type 0 where
  pub id : Text
  pub product_code : Text
  pub units : ℕ
  pub unit_price : Money

pub record InvoiceLineInput : Type 0 where
  pub product_code : Text
  pub units : ℕ
  pub unit_price : Money

-- B9: the status and the instant of payment are one value.
pub data InvoiceState : Type 0 where
  is_issued : InvoiceState
  is_paid : ℕ → InvoiceState

pub data InvoiceStatus : Type 0 where
  status_issued status_paid : InvoiceStatus

pub record IssuedPayload : Type 0 where
  pub order_reference : Text
  pub invoice_reference : Text
  pub invoice_date : ℕ
  pub retailer_code : Text
  pub company_code : Text
  pub currency : Text
  pub lines : List (Text × ℕ × ℤ)
  pub amount : ℤ
  pub discount : ℤ
  pub total_amount : ℤ

pub record PaidPayload : Type 0 where
  pub order_reference : Text
  pub invoice_reference : Text
  pub payment_reference : Text
  pub currency : Text
  pub amount : ℤ
  pub value_date : ℕ
  pub source : Text

pub data InvoicePayload : Type 0 where
  invoice_issued : IssuedPayload → InvoicePayload
  payment_received : PaidPayload → InvoicePayload

pub record Invoice : Type 0 where
  pub id : Text
  pub invoice_reference : Text
  pub invoice_date : ℕ
  pub order_reference : Text
  pub retailer_code : Text
  pub company_code : Text
  pub currency : Text
  pub lines : List InvoiceLine
  pub amount : Money
  pub discount : Money
  pub total_amount : Money
  pub state : InvoiceState
  pub domain_events : List (Envelope InvoicePayload)

pub record InvoiceSnapshot : Type 0 where
  pub id : Text
  pub invoice_reference : Text
  pub invoice_date : ℕ
  pub order_reference : Text
  pub retailer_code : Text
  pub company_code : Text
  pub currency : Text
  pub lines : List InvoiceLine
  pub amount : Money
  pub discount : Money
  pub total_amount : Money
  pub status : InvoiceStatus
  pub paid_at : Option ℕ

pub record IssueInvoiceInput : Type 0 where
  pub id : Text
  pub invoice_reference : Text
  pub invoice_date : ℕ
  pub order_reference : Text
  pub retailer_code : Text
  pub company_code : Text
  pub currency : Text
  pub lines : List InvoiceLineInput
  pub discount : Money
  pub correlation_id : Text

pub record MarkPaidInput : Type 0 where
  pub payment_reference : Text
  pub amount : Money
  pub value_date : ℕ
  pub source : Text
  pub correlation_id : Text

-- `input.lines.map(...)`, with the check of each line; `fresh k` is the k-th id.
unfoldable pub create_invoice_lines :
    (ℕ → Text) → ℕ → Text → List InvoiceLineInput → Result (List InvoiceLine)
create_invoice_lines fresh k currency [] = ok []
create_invoice_lines fresh k currency (line ∷ lines) = do
  throw_if (not (line.unit_price.currency =t currency))
      (invoice_line_currency_mismatch currency line.unit_price.currency)
  rest ← create_invoice_lines fresh (k + 1) currency lines
  ok (
      record {
        id = fresh k;
        product_code = line.product_code;
        units = line.units;
        unit_price = line.unit_price;
      }
      ∷ rest)

-- `reduce((sum, line) => sum.add(line.lineTotal), ...)`
unfoldable pub sum_line_totals : Money → List InvoiceLine → Result Money
sum_line_totals sum [] = ok sum
sum_line_totals sum (line ∷ lines) = do
  total ← multiply line.unit_price line.units
  next ← add sum total
  sum_line_totals next lines

-- `createDomainEvent` with the invoice as aggregate.
abbrev pub invoice_event :
    Text → Invoice → Text → Context → InvoicePayload → Envelope InvoicePayload
invoice_event event_id invoice correlation_id ctx payload = record {
  event_id = event_id;
  aggregate_id = invoice.id;
  correlation_id = correlation_id;
  causation_id = ctx.causation_id;
  occurred_at = ctx.occurred_at;
  payload = payload;
}

unfoldable pub append_fact : Envelope InvoicePayload → Invoice → Result Invoice
append_fact event invoice = do
  throw_if (not (event.aggregate_id =t invoice.id)) (invalid_invoice_snapshot invoice.id)
  ok (record invoice { domain_events = invoice.domain_events ++ event ∷ [] })

abbrev pub issued_payload : Invoice → InvoicePayload
issued_payload invoice = invoice_issued (record {
  order_reference = invoice.order_reference;
  invoice_reference = invoice.invoice_reference;
  invoice_date = invoice.invoice_date;
  retailer_code = invoice.retailer_code;
  company_code = invoice.company_code;
  currency = invoice.currency;
  lines = map (λ line. (line.product_code, line.units, line.unit_price.amount)) invoice.lines;
  amount = invoice.amount.amount;
  discount = invoice.discount.amount;
  total_amount = invoice.total_amount.amount;
})

abbrev pub issued_invoice : IssueInvoiceInput → List InvoiceLine → Money → Money → Invoice
issued_invoice input lines amount total = record {
  id = input.id;
  invoice_reference = input.invoice_reference;
  invoice_date = input.invoice_date;
  order_reference = input.order_reference;
  retailer_code = input.retailer_code;
  company_code = input.company_code;
  currency = input.currency;
  lines = lines;
  amount = amount;
  discount = input.discount;
  total_amount = total;
  state = is_issued;
  domain_events = [];
}

-- `Invoice.issue`
unfoldable pub issue : (ℕ → Text) → Text → IssueInvoiceInput → Context → Result Invoice
issue fresh event_id input ctx = do
  throw_if (is_empty input.lines) (empty_invoice_lines input.order_reference)
  lines ← create_invoice_lines fresh 0 input.currency input.lines
  zero ← zero_money input.currency
  amount ← sum_line_totals zero lines
  total ← subtract amount input.discount
  throw_if (is_negative total) (negative_invoice_total amount.amount input.discount.amount)
  append_fact
      (invoice_event event_id (issued_invoice input lines amount total) input.correlation_id ctx
        (issued_payload (issued_invoice input lines amount total)))
      (issued_invoice input lines amount total)

abbrev is_status_paid : InvoiceStatus → Bool
is_status_paid status_paid = true
is_status_paid status_issued = false

-- The state of a row that passed the two checks on its status.
abbrev pub state_of : InvoiceStatus → Option ℕ → InvoiceState
state_of status_paid (some at) = is_paid at
state_of _ _ = is_issued

-- `Invoice.reconstitute`
unfoldable pub reconstitute : InvoiceSnapshot → Result Invoice
reconstitute snapshot = do
  throw_if (is_status_paid snapshot.status && not (is_some snapshot.paid_at))
      (invalid_invoice_snapshot snapshot.id)
  throw_if (not (is_status_paid snapshot.status) && is_some snapshot.paid_at)
      (invalid_invoice_snapshot snapshot.id)
  throw_if (any (λ line. not (line.unit_price.currency =t snapshot.currency)) snapshot.lines)
      (invalid_invoice_snapshot snapshot.id)
  zero ← zero_money snapshot.currency
  amount ← sum_line_totals zero snapshot.lines
  throw_if (not (equals amount snapshot.amount)) (invalid_invoice_snapshot snapshot.id)
  total ← subtract amount snapshot.discount
  throw_if (not (equals total snapshot.total_amount)) (invalid_invoice_snapshot snapshot.id)
  ok (record {
    id = snapshot.id;
    invoice_reference = snapshot.invoice_reference;
    invoice_date = snapshot.invoice_date;
    order_reference = snapshot.order_reference;
    retailer_code = snapshot.retailer_code;
    company_code = snapshot.company_code;
    currency = snapshot.currency;
    lines = snapshot.lines;
    amount = snapshot.amount;
    discount = snapshot.discount;
    total_amount = snapshot.total_amount;
    state = state_of snapshot.status snapshot.paid_at;
    domain_events = [];
  })

abbrev pub status_of : InvoiceState → InvoiceStatus
status_of is_issued = status_issued
status_of (is_paid at) = status_paid

abbrev pub paid_at_of : InvoiceState → Option ℕ
paid_at_of is_issued = none
paid_at_of (is_paid at) = some at

unfoldable pub to_snapshot : Invoice → InvoiceSnapshot
to_snapshot invoice = record {
  id = invoice.id;
  invoice_reference = invoice.invoice_reference;
  invoice_date = invoice.invoice_date;
  order_reference = invoice.order_reference;
  retailer_code = invoice.retailer_code;
  company_code = invoice.company_code;
  currency = invoice.currency;
  lines = invoice.lines;
  amount = invoice.amount;
  discount = invoice.discount;
  total_amount = invoice.total_amount;
  status = status_of invoice.state;
  paid_at = paid_at_of invoice.state;
}

abbrev pub paid_payload : MarkPaidInput → Invoice → InvoicePayload
paid_payload input invoice = payment_received (record {
  order_reference = invoice.order_reference;
  invoice_reference = invoice.invoice_reference;
  payment_reference = input.payment_reference;
  currency = invoice.currency;
  amount = input.amount.amount;
  value_date = input.value_date;
  source = input.source;
})

-- `markPaid`; the id that it returns is the argument `event_id`.
unfoldable pub mark_paid : Text → MarkPaidInput → Context → Invoice → Result Invoice
unfolding append_fact
mark_paid event_id input ctx invoice = do
  throw_if (is_status_paid (status_of invoice.state))
      (invoice_already_paid invoice.invoice_reference)
  throw_if (not (input.amount.currency =t invoice.currency))
      (invoice_payment_currency_mismatch invoice.currency input.amount.currency)
  throw_if (not (equals input.amount invoice.total_amount))
      (invoice_payment_amount_mismatch invoice.total_amount.amount input.amount.amount)
  append_fact (invoice_event event_id invoice input.correlation_id ctx (paid_payload input invoice))
      (record invoice { state = is_paid ctx.occurred_at })
