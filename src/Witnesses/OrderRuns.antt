-- ===== src/Witnesses/OrderRuns.antt =====
-- Orders taken through their life.
use order_to_cash_nestjs.Orders.Status.{operator_cancelled}
use order_to_cash_nestjs.Orders.Order.Commands.StateMachine.{
  Reachable, changing, placing, reserving, approving, cancelling, confirming, despatching,
  invoicing, paying, completing,
}
use order_to_cash_nestjs.Witnesses.Samples.{fresh, order_input, ctx, extra_line}
use order_to_cash_nestjs.Orders.Transitions.{find_transition, find_in, order_transitions}
use order_to_cash_nestjs.Orders.Order.Commands.{
  place, mark_stock_reserved, create_lines, transition_to, assert_currencies, assert_line_currency,
  approve_credit, confirm, mark_despatched, mark_invoiced, mark_paid, complete, cancel, add_line,
  commit_lines,
}
use order_to_cash_nestjs.Base.{◌≡◌, refl, []}
use order_to_cash_nestjs.Base.Int.{◌+ℤ◌, ◌-ℤ◌, ◌*ℤ◌}
use order_to_cash_nestjs.Base.Text.{◌=t◌, codes}
use order_to_cash_nestjs.Result.{ok}
use order_to_cash_nestjs.Kernel.Money.{
  zero_money, add, subtract, multiply, validate_currency, matches_currency_code, to_upper_case,
  upper, is_upper_letter, is_lower_letter, is_safe_integer, assert_same_currency,
}
use order_to_cash_nestjs.Kernel.Money
use order_to_cash_nestjs.Orders.Order.Line.{create_line}
use order_to_cash_nestjs.Orders.Order.Totals.{
  totals_for, compute_order_totals, sum_prices, sum_discounts,
}
use order_to_cash_nestjs.Orders.Order.Aggregate.{
  Order, order_placed_event, add_domain_event, order_confirmed_event, order_completed_event,
  order_cancelled_event,
}

unfoldable pub placed_run : (o : Order) × (place fresh order_input ctx ≡ ok o)
unfolding place create_lines create_line assert_currencies assert_line_currency totals_for
    compute_order_totals sum_prices sum_discounts order_placed_event add_domain_event zero_money
    Money.of add subtract multiply validate_currency matches_currency_code to_upper_case upper
    is_upper_letter is_lower_letter is_safe_integer assert_same_currency ◌=t◌ ◌+ℤ◌ ◌-ℤ◌ ◌*ℤ◌
placed_run = (_, refl)

unfoldable pub reserved_run : (o : Order) × (mark_stock_reserved ctx placed_run.0 ≡ ok o)
unfolding placed_run mark_stock_reserved transition_to find_transition find_in order_transitions
reserved_run = (_, refl)

unfoldable pub approved_run : (o : Order) × (approve_credit ctx reserved_run.0 ≡ ok o)
unfolding reserved_run approve_credit transition_to find_transition find_in order_transitions
approved_run = (_, refl)

unfoldable pub confirmed_run : (o : Order) × (confirm (codes "e1") ctx approved_run.0 ≡ ok o)
unfolding approved_run confirm add_domain_event order_confirmed_event transition_to find_transition
    find_in order_transitions
confirmed_run = (_, refl)

unfoldable pub despatched_run : (o : Order) × (mark_despatched ctx confirmed_run.0 ≡ ok o)
unfolding confirmed_run mark_despatched transition_to find_transition find_in order_transitions
despatched_run = (_, refl)

unfoldable pub invoiced_run : (o : Order) × (mark_invoiced ctx despatched_run.0 ≡ ok o)
unfolding despatched_run mark_invoiced transition_to find_transition find_in order_transitions
invoiced_run = (_, refl)

unfoldable pub paid_run : (o : Order) × (mark_paid ctx invoiced_run.0 ≡ ok o)
unfolding invoiced_run mark_paid transition_to find_transition find_in order_transitions
paid_run = (_, refl)

unfoldable pub completed_run : (o : Order) × (complete (codes "e2") ctx paid_run.0 ≡ ok o)
unfolding paid_run complete add_domain_event order_completed_event transition_to find_transition
    find_in order_transitions
completed_run = (_, refl)

-- An order that the operator cancels after its stock is reserved.
unfoldable pub cancelled_run :
    (o : Order) × (cancel operator_cancelled (codes "e3") ctx [] reserved_run.0 ≡ ok o)
unfolding reserved_run cancel add_domain_event order_cancelled_event transition_to find_transition
    find_in order_transitions
cancelled_run = (_, refl)

-- A line added to it before that.
unfoldable pub extended_run : (o : Order) × (add_line (codes "l9") extra_line placed_run.0 ≡ ok o)
unfolding placed_run add_line create_line commit_lines assert_line_currency totals_for
    compute_order_totals sum_prices sum_discounts zero_money Money.of add subtract multiply
    validate_currency matches_currency_code to_upper_case upper is_upper_letter is_lower_letter
    is_safe_integer assert_same_currency ◌=t◌ ◌+ℤ◌ ◌-ℤ◌ ◌*ℤ◌
extended_run = (_, refl)

pub completed-Reachable : Reachable completed_run.0
completed-Reachable =
    changing
      (changing
        (changing
          (changing
            (changing
              (changing
                (changing (placing fresh order_input ctx placed_run.1)
                  (reserving ctx reserved_run.1))
                (approving ctx approved_run.1))
              (confirming (codes "e1") ctx confirmed_run.1))
            (despatching ctx despatched_run.1))
          (invoicing ctx invoiced_run.1))
        (paying ctx paid_run.1))
      (completing (codes "e2") ctx completed_run.1)

pub confirmed-Reachable : Reachable confirmed_run.0
confirmed-Reachable =
    changing
      (changing
        (changing (placing fresh order_input ctx placed_run.1) (reserving ctx reserved_run.1))
        (approving ctx approved_run.1))
      (confirming (codes "e1") ctx confirmed_run.1)

pub cancelled-Reachable : Reachable cancelled_run.0
cancelled-Reachable =
    changing (changing (placing fresh order_input ctx placed_run.1) (reserving ctx reserved_run.1))
      (cancelling operator_cancelled (codes "e3") ctx [] cancelled_run.1)
