-- ===== src/Fulfillment/OrderStock/AllOrNothing.antt =====
-- F3: every line of an order is reserved, or none is.
use order_to_cash_nestjs.Fulfillment.OrderStock.Booking.{refs_of, snapshot_in, booked_in}
use order_to_cash_nestjs.Fulfillment.OrderStock.Telling.{say-Said}
use mathlib.Core.Path.{subst}
use order_to_cash_nestjs.Fulfillment.OrderStock.Shortages.{
  Known, survey-Known, survey-clear, Can, survey-full,
}
use order_to_cash_nestjs.Fulfillment.StockItem.Counters.{IsStocked}
use order_to_cash_nestjs.Result.{ok, Result, ◌>>=◌}
use order_to_cash_nestjs.Fulfillment.OrderStock.Lookup.{
  facts_of, reserved_of, requested, sum_requested_lem,
}
use order_to_cash_nestjs.Fulfillment.Facts.{
  Shortage, ReservationRef, RejectReason, stock_was_reserved, stock_was_rejected,
}
use order_to_cash_nestjs.Fulfillment.StockItem.{StockItem, to_snapshot}
use order_to_cash_nestjs.Fulfillment.OrderStock.{
  ReserveOrderInput, reject_order, accept_order, reserve_order_stock, ReserveOrderOutcome, Survey,
  sum_requested, order_reserved, no_survey, order_rejected, survey_of, reject_by, accept_by,
  by_product,
}
use order_to_cash_nestjs.Kernel.Envelope.{Context}
use order_to_cash_nestjs.Base.{
  ℕ, ◌+◌, ◌≡◌, refl, sym, ◌∙◌, ap, true, false, List, [], Option, none, some, arith, is_empty,
  if◌then◌else◌, All, Bool-cases, inl, inr, map, All-map, is_some,
}
use order_to_cash_nestjs.Base.Int.{pos, ◌+ℤ◌}
use order_to_cash_nestjs.Base.Text.{Text}
use order_to_cash_nestjs.Fulfillment.OrderStock.Loop.{Ready, Filled, reserve_lines-Filled}

-- Every line can have the whole total of its product.
abbrev AllFit : ReserveOrderInput → List StockItem → Type 0
AllFit input items = Ready input.lines items

-- What `reserveOrderStock` answers and leaves behind. Reserved: every line fits, the references are
-- those of the lines, the item of every product has a reservation more for each line of the product
-- and is otherwise as stored, every product's reserved units grow by exactly what the order asks of
-- it, and one fact is said. Rejected: some line does not fit, no counter, reservation or other
-- stored field of an item changes, and one fact is said if there is an item to say it.
abbrev Settled :
    (ℕ → Text) → ReserveOrderInput → List StockItem → List StockItem → ReserveOrderOutcome → Type 0
Settled fresh input items items' (order_reserved refs carrier) =
    AllFit input items
    × (refs ≡ refs_of fresh 0 input.lines)
    × ((code : Text)
        → snapshot_in (by_product code items')
          ≡ booked_in fresh 0 input input.lines (by_product code items))
    × ((code : Text)
        → reserved_of code items' ≡ reserved_of code items +ℤ pos (requested code input.lines))
    × (facts_of items' ≡ facts_of items + 1)
Settled fresh input items items' (order_rejected shortages reason carrier) =
    (AllFit input items → ⊥)
    × (is_empty shortages ≡ false)
    × (map to_snapshot items' ≡ map to_snapshot items)
    × (facts_of items' ≡ facts_of items + (if is_some carrier then 1 else 0))

-- A call that returns, with what it leaves behind.
abbrev pub Answers :
    (ℕ → Text)
    → ReserveOrderInput
    → List StockItem
    → Result (ReserveOrderOutcome × List StockItem)
    → Type 0
Answers fresh input items m =
    (out : ReserveOrderOutcome) × (items' : List StockItem) × (m ≡ ok (out, items'))
    × Settled fresh input items items' out
    × (All IsStocked items → All IsStocked items')

reject-Answers :
    (fresh : ℕ → Text) (first : Option StockItem) (event_id : Text) (input : ReserveOrderInput)
    (ctx : Context) (shortages : List Shortage) (reason : RejectReason) (items : List StockItem)
    → is_empty shortages ≡ false
    → (AllFit input items → ⊥)
    → Known items first
    → Answers fresh input items (reject_by first event_id input ctx shortages reason items)
unfolding reject_by
reject-Answers fresh none event_id input ctx shortages reason items short unfit known =
    (order_rejected shortages reason none, items, refl, (unfit, short, refl, omega arith), λ v. v)
reject-Answers fresh (some first) event_id input ctx shortages reason items short unfit known =
    let (told, items', run, said) =
      say-Said event_id input.correlation_id ctx
        (stock_was_rejected input.order_reference input.company_code (some input.retailer_code)
          shortages reason)
        first items (known first refl) in
    (
      order_rejected shortages reason (some told),
      items',
      ap (λ m. m >>= λ told. ok (order_rejected shortages reason (some told.0), told.1)) run,
      (unfit, short, said.same_snapshots, said.one_fact),
      said.still_stocked,
    )

accept-Answers :
    (fresh : ℕ → Text) (first : Option StockItem) (event_id : Text) (input : ReserveOrderInput)
    (ctx : Context) (refs : List ReservationRef) (items items' : List StockItem)
    → AllFit input items
    → is_some first ≡ true
    → Known items first
    → Filled fresh 0 input input.lines [] refs items items'
    → Answers fresh input items (accept_by first event_id input ctx refs items')
unfolding accept_by
accept-Answers fresh none event_id input ctx refs items items' fit some_ known filled = cc
accept-Answers fresh (some first) event_id input ctx refs items items' fit some_ known filled =
    let (told, items'', run, said) =
      say-Said event_id input.correlation_id ctx
        (stock_was_reserved input.order_reference input.company_code (some input.retailer_code)
          refs)
        first items' (filled.same_products first.product_code ∙ known first refl) in
    (
      order_reserved refs told,
      items'',
      ap (λ m. m >>= λ told. ok (order_reserved refs told.0, told.1)) run,
      (
        fit,
        filled.a_reference_each,
        λ code. said.same_stored code ∙ filled.all_booked code,
        λ code. said.same_reserved code ∙ filled.totals_reserved code,
        said.one_fact ∙ ap (λ n. n + 1) filled.same_facts,
      ),
      λ v. said.still_stocked (filled.stocked v),
    )

accept_order-Answers :
    (fresh : ℕ → Text) (event_id : Text) (input : ReserveOrderInput) (ctx : Context) (s : Survey)
    (items : List StockItem)
    → AllFit input items
    → is_some s.first_known_item ≡ true
    → Known items s.first_known_item
    → Answers fresh input items (accept_order fresh event_id input ctx s items)
unfolding accept_order
accept_order-Answers fresh event_id input ctx s items fit some_ known =
    let (refs, items', run, filled) = reserve_lines-Filled fresh 0 input input.lines [] items fit in
    subst
      (λ m.
        Answers fresh input items
          (m >>= λ done. accept_by s.first_known_item event_id input ctx done.0 done.1))
      (sym run)
      (accept-Answers fresh s.first_known_item event_id input ctx refs items items' fit some_ known
        filled)

-- The total that the map holds is the sum over the lines.
total_requested :
    (input : ReserveOrderInput) (code : Text)
    → sum_requested (λ code. 0) input.lines code ≡ requested code input.lines
total_requested input code = sum_requested_lem (λ code. 0) input.lines code ∙ omega arith

-- For an order with at least one line, `reserveOrderStock` never throws. It answers `reserved` only
-- if every line can have the whole total that the order asks of its product; then it answers one
-- reference for each line, in their order, with the id drawn for it and the product and units of
-- the line; the item of every product is as it was stored, but for a new `reserved` reservation for
-- each line of the product, under these ids and in the order of the lines, and for reserved units
-- that grow by exactly the total; and the items carry one fact more. Otherwise it answers
-- `rejected` with a shortage, no stored field of any item changes, and the items carry one fact
-- more exactly if there is a carrier. If every item has reserved units between 0 and its units
-- (F1), and its loaded reservations in status `reserved` come to no more than the reserved units,
-- this holds afterwards too.
pub reserve_order_stock-Answers :
    (fresh : ℕ → Text) (event_id : Text) (input : ReserveOrderInput) (ctx : Context)
    (items : List StockItem)
    → is_empty input.lines ≡ false
    → Answers fresh input items (reserve_order_stock fresh event_id input ctx items)
unfolding reserve_order_stock reject_order
reserve_order_stock-Answers fresh event_id input ctx items full =
    let totals = sum_requested (λ code. 0) input.lines in
    let known = survey-Known items totals input.lines no_survey (λ item e. cc) in
    elim (Bool-cases (is_empty (survey_of input items).shortages)) [
      | inl clear ↦
          let (none_before, can, first) = survey-clear items totals input.lines no_survey clear in
          let fit =
            All-map
              (λ m c.
                subst (λ n. Can m.product_code n items) (total_requested input m.product_code) c)
              input.lines can in
          rw clear (
            accept_order-Answers fresh event_id input ctx (survey_of input items) items fit
              (first full) known)
      | inr short ↦
          let can = λ (fit : AllFit input items).
            All-map
              (λ m c.
                subst (λ n. Can m.product_code n items) (sym (total_requested input m.product_code))
                  c)
              input.lines fit in
          rw short (
            reject-Answers fresh (survey_of input items).first_known_item event_id input ctx _ _
              items short
              (λ fit. cc (survey-full items totals input.lines no_survey refl (can fit), short))
              known)
    ]
