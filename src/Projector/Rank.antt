-- ===== src/Projector/Rank.antt =====
-- apps/projector/src/domain/order-status-rank.ts: the status that a fact proves, and its rank.
-- `OrderStatus` of that file has the statuses of the Orders service.
use order_to_cash_nestjs.Base.{ℕ, List, [], ◌∷◌, Option, none, some, find?}
use order_to_cash_nestjs.Base.Text.{Text, codes, ◌=t◌}
use order_to_cash_nestjs.Errors.{unknown_event_type_for_rank}
use order_to_cash_nestjs.Result.{Result, ok, err, ◌>>=◌}
use order_to_cash_nestjs.Orders.Status.{
  OrderStatus, placed, stock_reserved, credit_approved, confirmed, despatched, invoiced, paid,
  completed, cancelled,
}

pub record RankEntry : Type 0 where
  pub event_type : Text
  pub status : Option OrderStatus
  pub rank : ℕ

abbrev proves : Text → OrderStatus → ℕ → RankEntry
proves name status rank = record { event_type = name; status = some status; rank = rank }

abbrev proves_nothing : Text → RankEntry
proves_nothing name = record { event_type = name; status = none; rank = 0 }

-- RANK_TABLE
abbrev pub rank_table : List RankEntry
rank_table =
    proves (codes "order.placed.v1") placed 1
    ∷ proves (codes "stock.reserved.v1") stock_reserved 2
    ∷ proves (codes "credit.approved.v1") credit_approved 3
    ∷ proves (codes "order.confirmed.v1") confirmed 4
    ∷ proves (codes "order.despatched.v1") despatched 5
    ∷ proves (codes "invoice.issued.v1") invoiced 6
    ∷ proves (codes "payment.received.v1") paid 7
    ∷ proves (codes "order.completed.v1") completed 98
    ∷ proves (codes "order.cancelled.v1") cancelled 99
    ∷ proves_nothing (codes "stock.rejected.v1")
    ∷ proves_nothing (codes "stock.released.v1")
    ∷ proves_nothing (codes "credit.rejected.v1")
    ∷ proves_nothing (codes "credit.released.v1")
    ∷ proves_nothing (codes "order.saga_failed.v1")
    ∷ []

-- `entryFor`
unfoldable pub entry_for : Text → Result RankEntry
entry_for event_type = elim (find? (λ e. e.event_type =t event_type) rank_table) [
  | none ↦ err (unknown_event_type_for_rank event_type)
  | some entry ↦ ok entry
]

-- `impliedStatusOf`
unfoldable pub implied_status_of : Text → Result (Option OrderStatus)
unfolding entry_for
implied_status_of event_type = do entry ← entry_for event_type; ok entry.status

-- `rankOf`
unfoldable pub rank_of : Text → Result ℕ
unfolding entry_for
rank_of event_type = do entry ← entry_for event_type; ok entry.rank
