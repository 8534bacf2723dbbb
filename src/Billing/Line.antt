-- ===== src/Billing/Line.antt =====
-- The credit line of a buyer: the state of apps/billing/src/domain/buyer-credit.ts, with
-- credit-events.ts and buyer-credit-snapshot.ts.
use order_to_cash_nestjs.Base.{Bool, true, false, List}
use order_to_cash_nestjs.Base.Int.{ℤ}
use order_to_cash_nestjs.Base.Text.{Text}
use order_to_cash_nestjs.Kernel.Money.{Money}
use order_to_cash_nestjs.Kernel.Envelope.{Envelope}
use order_to_cash_nestjs.Billing.Ledger.{Entry}

pub data CreditRejectionReason : Type 0 where
  over_limit simulated_cents_rule simulated_failure_rate : CreditRejectionReason

pub data CreditReleaseReason : Type 0 where
  invoice_paid order_cancelled : CreditReleaseReason

-- The payloads after the order reference; retailer, company, code and currency are the line's own.
pub data CreditPayload : Type 0 where
  credit_approved : Text → ℤ → ℤ → CreditPayload
  credit_was_rejected : Text → ℤ → ℤ → CreditRejectionReason → CreditPayload
  credit_released : Text → ℤ → ℤ → CreditReleaseReason → CreditPayload

-- `BuyerCreditProps` with the line's id and its uncommitted events.
pub record BuyerCredit : Type 0 where
  pub id : Text
  pub code : Text
  pub retailer_code : Text
  pub company_code : Text
  pub credit_limit : ℤ
  pub currency : Text
  pub committed_exposure : ℤ
  pub loaded_entries : List Entry
  pub appended : List Entry
  pub domain_events : List (Envelope CreditPayload)

pub record BuyerCreditSnapshot : Type 0 where
  pub id : Text
  pub code : Text
  pub retailer_code : Text
  pub company_code : Text
  pub credit_limit : ℤ
  pub currency : Text
  pub committed_exposure : ℤ
  pub order_entries : List Entry

pub record HoldRequest : Type 0 where
  pub order_reference : Text
  pub amount : Money
  pub correlation_id : Text

pub data HoldEvaluation : Type 0 where
  already_held : Money → HoldEvaluation
  other_currency : Text → HoldEvaluation
  fits : HoldEvaluation
  exceeds : Money → HoldEvaluation

abbrev pub is_fits : HoldEvaluation → Bool
is_fits fits = true
is_fits _ = false
