-- ===== src/Fulfillment/Despatch/Once.antt =====
-- The despatch of an order (order-despatch.ts) as a whole, and once more.
use mathlib.Core.List.{append-nil, append_assoc}
use mathlib.Core.Path.{subst}
use order_to_cash_nestjs.Kernel.Envelope.{Envelope, Context}
use order_to_cash_nestjs.Fulfillment.Status.{consumed, is_released}
use order_to_cash_nestjs.Result.{ok, ok-injective, bind-ok}
use order_to_cash_nestjs.Fulfillment.StockItem.Counters.{
  released_one, open_of, consumed_item, consume-ok, mark, consumed_item-none, consume_lem,
}
use order_to_cash_nestjs.Fulfillment.StockItem.{StockItem, Reservation, with_status, is_of}
use order_to_cash_nestjs.Fulfillment.Despatch.{
  consume_items, DespatchLine, despatch_line, consume, CreateDespatchOutcome, create_despatch,
  create_despatch_for_order, created, CreateDespatchInput, no_reservations, OrderDespatchedPayload,
  despatch_consumed,
}
use order_to_cash_nestjs.Base.{
  List, All, ◌∷◌, map, ◌++◌, ◌≡◌, ap, [], none, refl, sym, ◌∙◌, find?, arith, is_empty, filter,
}
use order_to_cash_nestjs.Base.Text.{Text}

-- A reservation of the order that was released, on some item.
abbrev pub NoneReleased : Text → List StockItem → Type 0
NoneReleased o items = All (λ item. released_one o item ≡ none) items

-- The open reservations of the order, as lines.
unfoldable pub open_lines : Text → List StockItem → List DespatchLine
open_lines o [] = []
open_lines o (item ∷ items) = map despatch_line (open_of o item.reservations) ++ open_lines o items

consumed_lines :
    (rs : List Reservation)
    → map despatch_line (map (with_status consumed) rs) ≡ map despatch_line rs
consumed_lines [] = refl
consumed_lines (r ∷ rs) = ap (λ (l : List DespatchLine). despatch_line r ∷ l) (consumed_lines rs)

consume_items-ok :
    (o : Text) (lines : List DespatchLine) (items : List StockItem) {lines' : List DespatchLine}
    {items' : List StockItem}
    → consume_items o lines items ≡ ok (lines', items')
    → (lines' ≡ lines ++ open_lines o items)
      × (items' ≡ map (consumed_item o) items)
      × NoneReleased o items
unfolding consume_items open_lines
consume_items-ok o lines [] h = (
  ap (λ (x : List DespatchLine × List StockItem). x.0) (sym (ok-injective h))
      ∙ sym (append-nil lines),
  ap (λ (x : List DespatchLine × List StockItem). x.1) (sym (ok-injective h)),
  tt,
)
consume_items-ok o lines (item ∷ items) h =
    let ((rs, item'), c, h1) = bind-ok (consume o item) _ h in
    let ((lines1, items1), r, h2) =
      bind-ok (consume_items o (lines ++ map despatch_line rs) items) _ h1 in
    let (free, same, after) = consume-ok o item c in
    let (l, i, frees) = consume_items-ok o (lines ++ map despatch_line rs) items r in
    let got = ok-injective h2 in
    (
      ap (λ (x : List DespatchLine × List StockItem). x.0) (sym got)
          ∙ l
          ∙ append_assoc lines (map despatch_line rs) (open_lines o items)
          ∙ ap (λ (x : List DespatchLine). lines ++ (x ++ open_lines o items))
              (ap (map despatch_line) same ∙ consumed_lines (open_of o item.reservations)),
      ap (λ (x : List DespatchLine × List StockItem). x.1) (sym got) ∙ (λ j. after j ∷ i j),
      (free, frees),
    )

closed : (o : Text) (rs : List Reservation) → open_of o (mark consumed o rs) ≡ []
closed o [] = refl
closed o (r ∷ rs) = ground (arith, closed o rs)

still_unreleased :
    (o : Text) (rs : List Reservation)
    → find? (λ r. is_released r.status) (filter (is_of o) rs) ≡ none
    → find? (λ r. is_released r.status) (filter (is_of o) (mark consumed o rs)) ≡ none
still_unreleased o [] h = refl
still_unreleased o (r ∷ rs) h = ground (arith, h, still_unreleased o rs)

consume-again :
    (o : Text) (item : StockItem)
    → released_one o item ≡ none
    → consume o (consumed_item o item) ≡ ok ([], consumed_item o item)
consume-again o item h =
    let none_open = closed o item.reservations in
    let same : consumed_item o (consumed_item o item) ≡ consumed_item o item =
      consumed_item-none o (consumed_item o item) (ap is_empty none_open) in
    consume_lem o (consumed_item o item)
    ∙ rw (still_unreleased o item.reservations h)
        (λ i. ok (map (with_status consumed) (none_open i), same i))

consume_items-again :
    (o : Text) (items : List StockItem)
    → NoneReleased o items
    → consume_items o [] (map (consumed_item o) items) ≡ ok ([], map (consumed_item o) items)
unfolding consume_items
consume_items-again o [] h = refl
consume_items-again o (item ∷ items) h =
    rw (consume-again o item h.0, consume_items-again o items h.1) refl

-- The lines of the advice, and the fact that it says.
abbrev pub despatched : CreateDespatchOutcome → List DespatchLine
despatched (created advice) = advice.lines
despatched no_reservations = []

abbrev pub SaysDespatched : CreateDespatchOutcome → Type 0
SaysDespatched (created advice) =
    (event : Envelope OrderDespatchedPayload) × (advice.domain_events ≡ event ∷ [])
    × (event.aggregate_id ≡ advice.id)
    × (event.payload.lines ≡ advice.lines)
SaysDespatched no_reservations = Unit

outcome_lem :
    (id event_id reference : Text) (input : CreateDespatchInput) (ctx : Context)
    (lines : List DespatchLine) (items : List StockItem) {outcome : CreateDespatchOutcome}
    {items' : List StockItem}
    → despatch_consumed id event_id reference input ctx lines items ≡ ok (outcome, items')
    → (despatched outcome ≡ lines) × SaysDespatched outcome × (items' ≡ items)
unfolding despatch_consumed create_despatch
outcome_lem id event_id reference input ctx [] items h =
    let got = ok-injective h in
    (
      ap (λ (x : CreateDespatchOutcome × List StockItem). despatched x.0) (sym got),
      subst SaysDespatched (ap (λ (x : CreateDespatchOutcome × List StockItem). x.0) got) tt,
      ap (λ (x : CreateDespatchOutcome × List StockItem). x.1) (sym got),
    )
outcome_lem id event_id reference input ctx (l ∷ lines) items h =
    let got = ok-injective h in
    (
      ap (λ (x : CreateDespatchOutcome × List StockItem). despatched x.0) (sym got),
      subst SaysDespatched (ap (λ (x : CreateDespatchOutcome × List StockItem). x.0) got)
          (_, refl, refl, refl),
      ap (λ (x : CreateDespatchOutcome × List StockItem). x.1) (sym got),
    )

-- A `createDespatchForOrder` that does not throw answers the open reservations of the order on the
-- items as the lines of the advice, or `no_reservations` if there are none; the advice says one
-- fact, with its lines; the items are left with exactly those reservations consumed. The same call
-- on those items, with any ids and context, answers `no_reservations` and leaves them as they are
-- (F6, F7).
pub create_despatch_for_order-once :
    (id event_id reference : Text) (input : CreateDespatchInput) (ctx : Context)
    (items : List StockItem) {outcome : CreateDespatchOutcome} {items' : List StockItem}
    → create_despatch_for_order id event_id reference input ctx items ≡ ok (outcome, items')
    → (despatched outcome ≡ open_lines input.order_reference items)
      × SaysDespatched outcome
      × (items' ≡ map (consumed_item input.order_reference) items)
      × ((id' event_id' reference' : Text) (ctx' : Context)
          → create_despatch_for_order id' event_id' reference' input ctx' items'
            ≡ ok (no_reservations, items'))
unfolding create_despatch_for_order despatch_consumed
create_despatch_for_order-once id event_id reference input ctx items h =
    let o = input.order_reference in
    let ((lines, consumed'), c, h1) = bind-ok (consume_items o [] items) _ h in
    let (l, i, free) = consume_items-ok o [] items c in
    let (said, told, after) = outcome_lem id event_id reference input ctx lines consumed' h1 in
    let items_after = after ∙ i in
    (
      said ∙ l,
      told,
      items_after,
      λ id' event_id' reference' ctx'. rw (items_after, consume_items-again o items free) refl,
    )
