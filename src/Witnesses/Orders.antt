-- ===== src/Witnesses/Orders.antt =====
-- The theorems on orders, at orders placed and taken through their life.
use order_to_cash_nestjs.Orders.Order.Totals.{compute_order_totals, totals_for, sum_prices}
use order_to_cash_nestjs.Orders.Status.{order_status?, cancellation_reason?, status_eq, cancelled}
use order_to_cash_nestjs.Witnesses.Samples.{ctx, extra_line, fresh, order_input}
use order_to_cash_nestjs.Orders.Order.Snapshot.Accepted.{reconstitute-ok}
use order_to_cash_nestjs.Orders.Order.Totals.Sums.{gross, discounts, compute_order_totals_lem}
use order_to_cash_nestjs.Orders.Order.Commands.{record_saga_failure, lines_mutable_in}
use order_to_cash_nestjs.Orders.Order.Events.{SagaFailure}
use order_to_cash_nestjs.Orders.Order.Commands.StateMachine.{
  Lawful, Reachable-IsOrder, Change-Lawful, lines_frozen_for_good, adding, terminal_for_good, after,
  now, placing, failing, despatching,
}
use order_to_cash_nestjs.Orders.Order.Commands.Facts.{Told, Reachable-Told}
use order_to_cash_nestjs.Orders.Order.Aggregate.{IsOrder, Order}
use order_to_cash_nestjs.Base.{◌≡◌, refl, [], false, is_empty, some, none, is_some}
use order_to_cash_nestjs.Base.Int.{pos, ◌-ℤ◌, ◌≤ℤ◌}
use order_to_cash_nestjs.Base.Text.{codes, ◌=t◌}
use order_to_cash_nestjs.Result.{ok}
use order_to_cash_nestjs.Orders.Order.Snapshot.{reconstitute, OrderSnapshot, reconstitute_as}
use order_to_cash_nestjs.Witnesses.OrderRuns.{
  placed_run, confirmed_run, despatched_run, cancelled_run, completed_run, extended_run,
  completed-Reachable, confirmed-Reachable, cancelled-Reachable,
}

Reachable-IsOrder_example : IsOrder completed_run.0
Reachable-IsOrder_example = Reachable-IsOrder completed-Reachable

Reachable-Told_example : Told completed_run.0
Reachable-Told_example = Reachable-Told completed-Reachable

Change-Lawful_example : Lawful placed_run.0 extended_run.0
Change-Lawful_example =
    Change-Lawful (adding (codes "l9") extra_line extended_run.1)
      (Reachable-IsOrder (placing fresh order_input ctx placed_run.1))

abbrev a_failure : SagaFailure
a_failure = record { command = codes "stock.release"; attempts = 5; last_error = codes "timeout" }

terminal_for_good_example :
    let o' = record_saga_failure a_failure (codes "e9") ctx cancelled_run.0 in
    (o'.status ≡ cancelled_run.0.status)
    × (o'.lines ≡ cancelled_run.0.lines)
    × (o'.totals ≡ cancelled_run.0.totals)
unfolding cancelled_run
terminal_for_good_example =
    terminal_for_good (Reachable-IsOrder cancelled-Reachable) refl
      (after now (failing a_failure (codes "e9") ctx refl))

lines_frozen_for_good_example :
    (lines_mutable_in despatched_run.0.status ≡ false)
    × (despatched_run.0.lines ≡ confirmed_run.0.lines)
    × (despatched_run.0.totals ≡ confirmed_run.0.totals)
unfolding confirmed_run
lines_frozen_for_good_example =
    lines_frozen_for_good (Reachable-IsOrder confirmed-Reachable) refl
      (after now (despatching ctx despatched_run.1))

compute_order_totals_lem_example :
    (placed_run.0.totals.initial_amount.amount ≡ gross placed_run.0.lines)
    × (placed_run.0.totals.initial_discount.amount ≡ discounts placed_run.0.lines)
    × (placed_run.0.totals.total_amount.amount
        ≡ gross placed_run.0.lines -ℤ discounts placed_run.0.lines)
    × (pos 0 ≤ℤ placed_run.0.totals.total_amount.amount)
compute_order_totals_lem_example =
    compute_order_totals_lem placed_run.0.currency placed_run.0.lines
      (Reachable-IsOrder (placing fresh order_input ctx placed_run.1)).totals_derived

abbrev stored_order : OrderSnapshot
stored_order = record {
  id = cancelled_run.0.id;
  order_reference = codes "ORD-000001";
  order_date = 900;
  buyer_gln = codes "4006381333931";
  retailer_code = codes "RET";
  supplier_gln = codes "4006381333931";
  company_code = codes "COM";
  currency = codes "EUR";
  lines = placed_run.0.lines;
  status = codes "cancelled";
  cancellation_reason = some (codes "operator_cancelled");
  notes = none;
}

reconstituted : (o : Order) × (reconstitute stored_order ≡ ok o)
unfolding placed_run reconstitute reconstitute_as order_status? cancellation_reason? ◌=t◌ totals_for
    compute_order_totals sum_prices
reconstituted = (_, refl)

reconstitute-ok_example :
    (reconstituted.0.id ≡ stored_order.id)
    × (reconstituted.0.lines ≡ stored_order.lines)
    × (is_empty reconstituted.0.lines ≡ false)
    × (compute_order_totals reconstituted.0.currency reconstituted.0.lines
        ≡ ok reconstituted.0.totals)
    × (is_some reconstituted.0.cancellation_reason ≡ status_eq reconstituted.0.status cancelled)
    × (reconstituted.0.domain_events ≡ [])
reconstitute-ok_example = reconstitute-ok stored_order reconstituted.1
