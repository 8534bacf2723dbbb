-- ===== src/Projector/Summaries.antt =====
-- apps/projector/src/domain/summaries.ts and money-format.ts: the summary and the detail of an entry.
use order_to_cash_nestjs.Base.{ℕ, List, [], ◌∷◌, ◌++◌, Option, none, some, map, if◌then◌else◌, ◌+◌}
use order_to_cash_nestjs.Base.Int.{ℤ, pos, ◌+ℤ◌, ◌-ℤ◌, ltb_ℤ, pos_part, neg_part}
use order_to_cash_nestjs.Base.Text.{Text, codes, ◌=t◌}
use order_to_cash_nestjs.Errors.{plain_error, unknown_fact_type}
use order_to_cash_nestjs.Result.{Result, ok, err}
use order_to_cash_nestjs.Kernel.MoneyText.{format_money, decimal_text}
use order_to_cash_nestjs.Projector.Timeline.{
  Detail, shortages_detail, released_detail, refusal_detail, cancellation_detail, failure_detail,
}
use order_to_cash_nestjs.Projector.Facts.{
  Payload, order_placed, stock_reserved, stock_rejected, stock_released, credit_approved,
  credit_rejected, credit_released, order_confirmed, order_despatched, invoice_issued,
  payment_received, order_completed, order_cancelled, order_saga_failed, unknown_fact, Shortage,
  Released,
}

-- `SummaryResult`
pub record SummaryResult : Type 0 where
  pub summary : Text
  pub detail : Option Detail

-- A number in a template.
unfoldable pub number_text : ℤ → Text
unfolding decimal_text
number_text n =
    (if ltb_ℤ n (pos 0) then b'-' ∷ [] else []) ++ decimal_text (pos_part n + neg_part n)

abbrev only : Text → Result SummaryResult
only summary = ok (record { summary = summary; detail = none })

abbrev with_detail : Text → Detail → Result SummaryResult
with_detail summary detail = ok (record { summary = summary; detail = some detail })

-- `shortages.reduce(...)` and `released.reduce(...)`
unfoldable pub total_short : ℤ → List Shortage → ℤ
total_short sum [] = sum
total_short sum (s ∷ ss) = total_short (sum +ℤ (s.requested -ℤ s.available)) ss

unfoldable pub total_units : ℕ → List Released → ℕ
total_units sum [] = sum
total_units sum (r ∷ rs) = total_units (sum + r.units) rs

abbrev shortage_rows : List Shortage → List (Text × ℤ × ℤ)
shortage_rows = map (λ s. (s.product_code, s.requested, s.available))

-- `stockRejectedSummary`: `shortages[0]!.productCode` of no shortage is a TypeError.
unfoldable pub stock_rejected_summary : List Shortage → Text → Result SummaryResult
unfolding number_text total_short
stock_rejected_summary [] reason = err plain_error
stock_rejected_summary (s ∷ ss) reason =
    with_detail
      (codes "Stock rejected: "
        ++ number_text (total_short (pos 0) (s ∷ ss))
        ++ codes " unit(s) short on "
        ++ s.product_code)
      (shortages_detail (shortage_rows (s ∷ ss)) reason)

unfoldable pub stock_released_summary : List Released → Text → Result SummaryResult
unfolding total_units decimal_text
stock_released_summary released reason =
    with_detail
      (decimal_text (total_units 0 released)
        ++ codes " unit(s) released back to stock"
        ++ (if reason =t codes "credit_rejected" then codes " (compensation)" else []))
      (released_detail (map (λ r. (r.product_code, r.units)) released) reason)

unfoldable pub credit_rejected_summary : ℤ → Text → Text → Result SummaryResult
credit_rejected_summary requested currency reason =
    with_detail
      (codes "Credit hold of "
        ++ format_money requested currency
        ++ codes " rejected ("
        ++ reason
        ++ codes ")")
      (refusal_detail reason requested)

unfoldable pub order_cancelled_summary : Text → Text → List Text → Result SummaryResult
order_cancelled_summary order_reference reason steps =
    with_detail (codes "Order " ++ order_reference ++ codes " cancelled (" ++ reason ++ codes ")")
      (cancellation_detail reason steps)

unfoldable pub order_saga_failed_summary : Text → ℕ → Text → Result SummaryResult
unfolding decimal_text
order_saga_failed_summary command attempts last_error =
    with_detail
      (codes "Saga command \""
        ++ command
        ++ codes "\" dead-lettered after "
        ++ decimal_text attempts
        ++ codes " attempt(s)")
      (failure_detail command attempts last_error)

-- The builder of each arm of the switch.
unfoldable pub summary_of : Payload → Result SummaryResult
unfolding stock_rejected_summary stock_released_summary credit_rejected_summary
    order_cancelled_summary order_saga_failed_summary decimal_text
summary_of (order_placed p) =
    only (codes "Order " ++ p.order_reference ++ codes " placed for " ++ p.retailer_code)
summary_of (stock_reserved reservations) =
    only (codes "Stock reserved for " ++ decimal_text reservations ++ codes " line(s)")
summary_of (stock_rejected shortages reason) = stock_rejected_summary shortages reason
summary_of (stock_released released reason) = stock_released_summary released reason
summary_of (credit_approved held currency) =
    only (codes "Credit hold of " ++ format_money held currency ++ codes " approved")
summary_of (credit_rejected requested currency reason) =
    credit_rejected_summary requested currency reason
summary_of (credit_released reason) = only (
    codes "Credit exposure released — "
    ++ (if reason =t codes "invoice_paid" then codes "invoice paid" else codes "order cancelled"))
summary_of order_confirmed = only (codes "Order confirmed (ORDRSP)")
summary_of (order_despatched reference) = only (codes "Despatch " ++ reference ++ codes " created")
summary_of (invoice_issued reference) = only (codes "Invoice " ++ reference ++ codes " issued")
summary_of (payment_received reference) = only (codes "Payment " ++ reference ++ codes " received")
summary_of (order_completed reference) = only (codes "Order " ++ reference ++ codes " completed")
summary_of (order_cancelled reference reason steps) = order_cancelled_summary reference reason steps
summary_of (order_saga_failed command attempts last_error) =
    order_saga_failed_summary command attempts last_error
summary_of (unknown_fact name) = err (unknown_fact_type name)
