-- ===== src/Witnesses/Saga.antt =====
-- The theorems on the saga, at one order and a fact or two.
use order_to_cash_nestjs.Kernel.UniqueId.{is_uuid_v4, unique_id, matches, to_lower_case}
use order_to_cash_nestjs.Fulfillment.Facts.{order_was_cancelled}
use order_to_cash_nestjs.Orders.Transitions.{find_transition, find_in, order_transitions}
use order_to_cash_nestjs.Orders.Order.Commands.{
  mark_stock_reserved, transition_to, approve_credit, confirm,
}
use order_to_cash_nestjs.Saga.Handler.Total.{handle-is_ok}
use order_to_cash_nestjs.Saga.Handler.Runs.{Fine}
use order_to_cash_nestjs.Witnesses.Samples.{fresh, an_order_id}
use order_to_cash_nestjs.Orders.Order.Aggregate.{Order, pull_domain_events}
use order_to_cash_nestjs.Saga.Handler.Repeats.{handle-again, returned, no_more}
use order_to_cash_nestjs.Saga.Commands.{
  CommandRow, to_release_stock, has_accepted_operator_cancel, pending, build_saga_command_payload,
}
use order_to_cash_nestjs.Saga.Handler.{
  Database, handle, nothing_to_do, find_by_id, late_for_an_accepted_cancel, run_once, duplicate,
  work_on, dispatch_step, owe, Outcome, run_step, save, work,
}
use order_to_cash_nestjs.Saga.Steps.{
  Fact, stock_reserved_v1, credit_approved_v1, release_stock, step_variants_for, no_reason,
  cancel_requested, step_for_status, find_step, transition_context_from, approve_and_confirm,
}
use order_to_cash_nestjs.Base.{◌≡◌, refl, [], ◌∷◌, none, some, true, ap, sym, Option, is_empty}
use order_to_cash_nestjs.Base.Text.{Text, codes, ◌=t◌}
use order_to_cash_nestjs.Result.{ok, is_ok}
use order_to_cash_nestjs.Witnesses.OrderRuns.{placed_run, reserved_run}

abbrev pub topic : Text
topic = codes "fulfillment"

abbrev stock_fact : Fact
stock_fact = record {
  event_id = codes "0a1b2c3d-0000-4000-8000-0000000000F1";
  event_type = stock_reserved_v1;
  correlation_id = an_order_id;
  occurred_at = 2000;
  payload = no_reason;
}

abbrev pub approval : Fact
approval = record {
  event_id = codes "0a1b2c3d-0000-4000-8000-0000000000F2";
  event_type = credit_approved_v1;
  correlation_id = an_order_id;
  occurred_at = 3000;
  payload = no_reason;
}

abbrev one_placed : Database
one_placed = record {
  orders = placed_run.0 ∷ [];
  outbox = [];
  processed_events = [];
  saga_commands = [];
  ignored_facts = [];
  now = 4000;
}

-- The operator cancels while the stock of the order is reserved.
abbrev pub cancel_row : CommandRow
cancel_row = record {
  id = codes "k1";
  order_id = an_order_id;
  order_reference = codes "ORD-000001";
  command = release_stock;
  payload = to_release_stock (codes "ORD-000001") order_was_cancelled;
  triggering_event_id = codes "0a1b2c3d-0000-4000-8000-0000000000c1";
  triggering_event_type = cancel_requested;
  triggering_event_topic = [];
  status = pending;
  attempts = 0;
  last_error = none;
  next_attempt_at = none;
  dead_lettered_at = none;
  created_at = 2000;
  sent_at = none;
}

abbrev pub one_cancelling : Database
one_cancelling = record {
  orders = reserved_run.0 ∷ [];
  outbox = [];
  processed_events = [];
  saga_commands = cancel_row ∷ [];
  ignored_facts = [];
  now = 4000;
}

unfoldable stock_run :
    (out : Outcome) × (db : Database) × (handle fresh topic stock_fact one_placed ≡ ok (out, db))
unfolding placed_run handle nothing_to_do step_variants_for run_once find_by_id work_on
    dispatch_step step_for_status find_step run_step mark_stock_reserved transition_to
    find_transition find_in order_transitions owe save pull_domain_events build_saga_command_payload
    transition_context_from work unique_id is_uuid_v4 matches to_lower_case ◌=t◌
stock_run = (_, _, refl)

-- An approval is handled after the stock fact, which then comes again.
approval_between :
    (out : Outcome) × (db : Database) × (handle fresh topic approval stock_run.1 ≡ ok (out, db))
unfolding stock_run placed_run handle nothing_to_do step_variants_for run_once work find_by_id
    work_on late_for_an_accepted_cancel has_accepted_operator_cancel dispatch_step step_for_status
    find_step run_step approve_and_confirm approve_credit confirm transition_to find_transition
    find_in order_transitions owe save pull_domain_events build_saga_command_payload
    transition_context_from unique_id is_uuid_v4 matches to_lower_case ◌=t◌
approval_between = (_, _, refl)

handle-again_example :
    handle fresh topic stock_fact approval_between.1 ≡ ok (duplicate, approval_between.1)
unfolding nothing_to_do step_variants_for
handle-again_example =
    handle-again fresh fresh topic topic stock_fact one_placed refl stock_run.2
      (returned fresh topic approval approval_between.2 no_more)

placed-Fine :
    (o : Order)
    → find_by_id (to_lower_case stock_fact.correlation_id) one_placed.orders ≡ some o
    → Fine stock_fact o
unfolding placed_run find_by_id is_uuid_v4 matches to_lower_case ◌=t◌
placed-Fine o found = record {
  event_id_valid = refl;
  has_lines =
      ap (λ (x : Option Order). is_empty (elim x [ none ↦ [] | some o ↦ o.lines ])) (sym found);
  answerable = tt;
}

handle-is_ok_example : is_ok (handle fresh topic stock_fact one_placed) ≡ true
unfolding is_uuid_v4 matches
handle-is_ok_example = handle-is_ok fresh topic stock_fact one_placed refl refl placed-Fine
