-- ===== src/Orders/Order/Snapshot/Accepted.antt =====
-- What `Order.reconstitute` (order.ts) accepts.
use order_to_cash_nestjs.Orders.Order.Commands.Invariant.{totals_for-ok}
use mathlib.Core.Path.{subst}
use order_to_cash_nestjs.Errors.{order_has_no_lines, order_snapshot_invalid}
use order_to_cash_nestjs.Orders.Order.Totals.{compute_order_totals, totals_for}
use order_to_cash_nestjs.Result.{ok, bind-ok, throw_if, ok-injective}
use order_to_cash_nestjs.Base.{
  ◌≡◌, [], is_empty, refl, false, is_some, Option-cases, inl, arith, inr, ◌&&◌, not,
}
use order_to_cash_nestjs.Orders.Order.Snapshot.{
  OrderSnapshot, reconstitute, reason_of, reconstitute_as,
}
use order_to_cash_nestjs.Orders.Status.{order_status?, OrderStatus, status_eq, cancelled}
use order_to_cash_nestjs.Orders.Order.Aggregate.{Order}

reconstitute_as-ok :
    (snapshot : OrderSnapshot) (status : OrderStatus) {o : Order}
    → reconstitute_as snapshot status ≡ ok o
    → (o.id ≡ snapshot.id)
      × (o.lines ≡ snapshot.lines)
      × (is_empty o.lines ≡ false)
      × (compute_order_totals o.currency o.lines ≡ ok o.totals)
      × (is_some o.cancellation_reason ≡ status_eq o.status cancelled)
      × (o.domain_events ≡ [])
unfolding reconstitute_as
reconstitute_as-ok snapshot status h =
    let (u, full, h1) =
      bind-ok (throw_if (is_empty snapshot.lines) (order_has_no_lines snapshot.id)) _ h in
    let (w, reasoned, h2) =
      bind-ok
        (throw_if
          (status_eq status cancelled && not (is_some (reason_of snapshot.cancellation_reason)))
          (order_snapshot_invalid snapshot.id))
        _ h1 in
    let (x, unreasoned, h3) =
      bind-ok
        (throw_if (not (status_eq status cancelled) && is_some snapshot.cancellation_reason)
          (order_snapshot_invalid snapshot.id))
        _ h2 in
    let (totals, derived, h4) =
      bind-ok (totals_for snapshot.id snapshot.currency snapshot.lines) _ h3 in
    subst
      (λ (o : Order).
        (o.id ≡ snapshot.id)
        × (o.lines ≡ snapshot.lines)
        × (is_empty o.lines ≡ false)
        × (compute_order_totals o.currency o.lines ≡ ok o.totals)
        × (is_some o.cancellation_reason ≡ status_eq o.status cancelled)
        × (o.domain_events ≡ []))
      (ok-injective h4)
      (
        refl,
        refl,
        ground arith,
        totals_for-ok snapshot.id snapshot.currency snapshot.lines derived,
        ground arith,
        refl,
      )

-- An order that `Order.reconstitute` returns, from any snapshot, has the id and the lines of the
-- snapshot, a line, the totals that `computeOrderTotals` derives from its lines, a cancellation
-- reason exactly when it is cancelled, and no pending events.
pub reconstitute-ok :
    (snapshot : OrderSnapshot) {o : Order}
    → reconstitute snapshot ≡ ok o
    → (o.id ≡ snapshot.id)
      × (o.lines ≡ snapshot.lines)
      × (is_empty o.lines ≡ false)
      × (compute_order_totals o.currency o.lines ≡ ok o.totals)
      × (is_some o.cancellation_reason ≡ status_eq o.status cancelled)
      × (o.domain_events ≡ [])
unfolding reconstitute
reconstitute-ok snapshot h = elim (Option-cases (order_status? snapshot.status)) [
  | inl unknown ↦ ground arith
  | inr (status, known) ↦ reconstitute_as-ok snapshot status (rw (known, reconstitute) at h)
]
