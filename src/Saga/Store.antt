-- ===== src/Saga/Store.antt =====
-- apps/orders/src/infrastructure/saga/drizzle-saga-command-store.ts after the enqueueing: the reads
-- and the conditional updates of the table of owed commands. An update answers whether it met a row
-- (`affectedRows > 0`). The order in which the store reads rows is that of the list.
pub mod Claims
pub mod Lives
use order_to_cash_nestjs.Base.{
  ℕ, ◌+◌, Bool, true, false, not, ◌&&◌, ◌||◌, List, Option, none, some, any, filter, find?, map,
  take, ltb, leb, if◌then◌else◌, is_some,
}
use order_to_cash_nestjs.Base.Text.{Text, ◌=t◌}
use order_to_cash_nestjs.Saga.Steps.{CommandKind}
use order_to_cash_nestjs.Saga.Commands.{
  CommandRow, CommandStatus, pending, sent, parked, rejected, is_row_of,
}

abbrev pub is_sent : CommandStatus → Bool
is_sent sent = true
is_sent _ = false

-- `findByOrderAndCommand`
unfoldable pub find_by_order_and_command : Text → CommandKind → List CommandRow → Option CommandRow
find_by_order_and_command order_id command rows = find? (is_row_of order_id command) rows

-- `UPDATE ... SET set WHERE id = id AND where`
unfoldable pub update_where :
    (CommandRow → Bool)
    → (CommandRow → CommandRow)
    → Text
    → List CommandRow
    → Bool × List CommandRow
update_where where' set' id rows = (
  any (λ r. (r.id =t id) && where' r) rows,
  map (λ r. if (r.id =t id) && where' r then set' r else r) rows,
)

-- `notAlreadySent`
abbrev pub not_already_sent : CommandRow → Bool
not_already_sent row = not (is_sent row.status)

-- `markSent`
unfoldable pub mark_sent : ℕ → Text → List CommandRow → Bool × List CommandRow
unfolding update_where
mark_sent now id rows =
    update_where not_already_sent (λ r. record r { status = sent; sent_at = some now }) id rows

-- `park`
unfoldable pub park : Text → ℕ → Text → ℕ → List CommandRow → Bool × List CommandRow
unfolding update_where
park id attempts last_error next_attempt_at rows =
    update_where not_already_sent
      (λ r. record r {
        status = parked;
        attempts = attempts;
        last_error = some last_error;
        next_attempt_at = some next_attempt_at;
      })
      id rows

-- `markRejected`
unfoldable pub mark_rejected : Text → ℕ → Text → List CommandRow → Bool × List CommandRow
unfolding update_where
mark_rejected id attempts last_error rows =
    update_where not_already_sent
      (λ r. record r {
        status = rejected;
        attempts = attempts;
        last_error = some last_error;
        next_attempt_at = none;
      })
      id rows

-- `claimDeadLetter`
unfoldable pub claim_dead_letter : ℕ → Text → List CommandRow → Bool × List CommandRow
unfolding update_where
claim_dead_letter now id rows =
    update_where (λ r. not (is_some r.dead_lettered_at))
      (λ r. record r { dead_lettered_at = some now }) id rows

-- The predicate of `claimDue`: `created_at < now - grace`, or `next_attempt_at <= now` (a null is
-- neither).
abbrev pub is_due_pending : ℕ → ℕ → CommandStatus → ℕ → Bool
is_due_pending now grace pending created_at = ltb (created_at + grace) now
is_due_pending now grace _ created_at = false

abbrev pub is_due_parked : ℕ → CommandStatus → Option ℕ → Bool
is_due_parked now parked (some next_attempt_at) = leb next_attempt_at now
is_due_parked now _ _ = false

abbrev pub is_due : ℕ → ℕ → CommandRow → Bool
is_due now grace row =
    is_due_pending now grace row.status row.created_at
    || is_due_parked now row.status row.next_attempt_at

-- `claimDue`
unfoldable pub claim_due : ℕ → ℕ → ℕ → List CommandRow → List CommandRow
claim_due now limit grace rows = take limit (filter (is_due now grace) rows)
