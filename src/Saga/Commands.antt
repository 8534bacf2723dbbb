-- ===== src/Saga/Commands.antt =====
-- apps/orders/src/application/saga-command-payloads.ts, and the table of owed commands behind
-- apps/orders/src/infrastructure/saga/drizzle-saga-command-store.ts: its enqueueing and its search
-- for an operator's cancellation.
pub mod Unique
use order_to_cash_nestjs.Base.{
  ℕ, Bool, true, false, not, ◌&&◌, ◌||◌, List, [], ◌∷◌, ◌++◌, any, map, is_empty, Option,
  if◌then◌else◌,
}
use order_to_cash_nestjs.Base.Int.{ℤ}
use order_to_cash_nestjs.Base.Text.{Text, ◌=t◌}
use order_to_cash_nestjs.Errors.{plain_error}
use order_to_cash_nestjs.Result.{Result, ok, ◌>>◌, throw_if}
use order_to_cash_nestjs.Kernel.Money.{Money}
use order_to_cash_nestjs.Fulfillment.Facts.{StockReleaseReason, credit_was_rejected}
use order_to_cash_nestjs.Orders.Order.Line.{OrderLine}
use order_to_cash_nestjs.Orders.Order.Aggregate.{Order}
use order_to_cash_nestjs.Saga.Steps.{
  FactType, credit_rejected_v1, cancel_requested, Fact, CommandKind, reserve_stock, release_stock,
  create_despatch, hold_credit, issue_invoice, release_credit,
}

pub record InvoiceLine : Type 0 where
  pub product_code : Text
  pub units : ℕ
  pub unit_price : ℤ

pub data CommandPayload : Type 0 where
  to_reserve_stock : Text → Text → Text → List (Text × ℕ) → CommandPayload
  to_release_stock : Text → StockReleaseReason → CommandPayload
  to_create_despatch : Text → CommandPayload
  to_hold_credit : Text → Text → Text → Money → CommandPayload
  to_issue_invoice : Text → Text → Text → Text → List InvoiceLine → ℤ → CommandPayload
  to_release_credit : Text → Text → Text → CommandPayload

abbrev invoice_line : OrderLine → InvoiceLine
invoice_line line = record {
  product_code = line.product_code;
  units = line.quantity;
  unit_price = line.unit_price.amount;
}

abbrev is_credit_rejected_v1 : FactType → Bool
is_credit_rejected_v1 credit_rejected_v1 = true
is_credit_rejected_v1 _ = false

-- `buildSagaCommandPayload` for a fact: a release of stock names the one reason that a fact gives it.
unfoldable pub build_saga_command_payload : CommandKind → Order → Fact → Result CommandPayload
build_saga_command_payload reserve_stock order fact = do
  throw_if (is_empty order.lines) plain_error
  ok (
      to_reserve_stock order.order_reference order.retailer_code order.company_code
        (map (λ line. (line.product_code, line.quantity)) order.lines))
build_saga_command_payload release_stock order fact = do
  throw_if (not (is_credit_rejected_v1 fact.event_type)) plain_error
  ok (to_release_stock order.order_reference credit_was_rejected)
build_saga_command_payload create_despatch order fact =
    ok (to_create_despatch order.order_reference)
build_saga_command_payload hold_credit order fact = ok (
    to_hold_credit order.order_reference order.retailer_code order.company_code
      order.totals.total_amount)
build_saga_command_payload issue_invoice order fact = do
  throw_if (is_empty order.lines) plain_error
  ok (
      to_issue_invoice order.order_reference order.retailer_code order.company_code order.currency
        (map invoice_line order.lines) order.totals.initial_discount.amount)
build_saga_command_payload release_credit order fact =
    ok (to_release_credit order.order_reference order.retailer_code order.company_code)

pub data CommandStatus : Type 0 where
  pending sent parked rejected : CommandStatus

-- A row of `saga_commands`, with the type of the triggering envelope for the envelope, and without
-- `updated_at`, which nothing reads. Instants are milliseconds.
pub record CommandRow : Type 0 where
  pub id : Text
  pub order_id : Text
  pub order_reference : Text
  pub command : CommandKind
  pub payload : CommandPayload
  pub triggering_event_id : Text
  pub triggering_event_type : FactType
  pub triggering_event_topic : Text
  pub status : CommandStatus
  pub attempts : ℕ
  pub last_error : Option Text
  pub next_attempt_at : Option ℕ
  pub dead_lettered_at : Option ℕ
  pub created_at : ℕ
  pub sent_at : Option ℕ

abbrev pub kind_eq : CommandKind → CommandKind → Bool
kind_eq reserve_stock reserve_stock = true
kind_eq release_stock release_stock = true
kind_eq create_despatch create_despatch = true
kind_eq hold_credit hold_credit = true
kind_eq issue_invoice issue_invoice = true
kind_eq release_credit release_credit = true
kind_eq _ _ = false

abbrev pub is_row_of : Text → CommandKind → CommandRow → Bool
is_row_of order_id command row = (row.order_id =t order_id) && kind_eq row.command command

-- An existing row that the insert would clash with: under the unique key (order_id, command), or
-- under the primary key.
abbrev pub clashes : CommandRow → CommandRow → Bool
clashes row r = is_row_of row.order_id row.command r || (r.id =t row.id)

-- `INSERT ... ON DUPLICATE KEY UPDATE id = id`: an existing row is left untouched.
unfoldable pub enqueue : CommandRow → List CommandRow → List CommandRow
enqueue row rows = if any (clashes row) rows then rows else rows ++ row ∷ []

abbrev is_cancel_requested : FactType → Bool
is_cancel_requested cancel_requested = true
is_cancel_requested _ = false

-- `hasAcceptedOperatorCancel`
unfoldable pub has_accepted_operator_cancel : Text → List CommandRow → Bool
has_accepted_operator_cancel order_id rows =
    any
      (λ row.
        (row.order_id =t order_id)
        && (kind_eq row.command release_credit || kind_eq row.command release_stock)
        && is_cancel_requested row.triggering_event_type)
      rows
