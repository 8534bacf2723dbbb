-- ===== src/Fulfillment/OrderStock/Telling.antt =====
-- A fact that a carrier says changes nothing else.
use mathlib.Core.Path.{subst}
use order_to_cash_nestjs.Fulfillment.OrderStock.Booking.{snapshot_in}
use order_to_cash_nestjs.Errors.{plain_error}
use order_to_cash_nestjs.Fulfillment.StockItem.Counters.{IsStocked}
use order_to_cash_nestjs.Result.{ok, Result, ◌>>=◌, err}
use order_to_cash_nestjs.Fulfillment.OrderStock.Lookup.{
  facts_of, reserved_of, by_product-has, has-by_product, facts_of-set_product,
  snapshots-set_product, reserved_of-set_product, All-set_product, by_product-set_product,
  by_product-set_other,
}
use order_to_cash_nestjs.Fulfillment.Facts.{StockPayload}
use order_to_cash_nestjs.Fulfillment.StockItem.{StockItem, to_snapshot}
use order_to_cash_nestjs.Fulfillment.OrderStock.{
  record_order_fact, stock_event, by_product, has_product, set_product, say,
}
use order_to_cash_nestjs.Kernel.Envelope.{Envelope, Context}
use order_to_cash_nestjs.Base.{
  ◌+◌, ◌≡◌, refl, ◌∙◌, ap, Bool, true, false, List, [], ◌∷◌, ◌++◌, none, some, if◌then◌else◌, All,
  map, length-append, Bool-cases, inl, inr,
}
use order_to_cash_nestjs.Base.Int.{ℤ, pos, ◌+ℤ◌, int_laws}
use order_to_cash_nestjs.Base.Text.{Text, text_eq_refl, ◌=t◌, text_eq_iff}
use order_to_cash_nestjs.Fulfillment.OrderStock.Loop.{by_product-All}

-- The carrier with one more fact.
abbrev told_item : Envelope StockPayload → StockItem → StockItem
told_item event item = record item { domain_events = item.domain_events ++ event ∷ [] }

record_order_fact-own :
    (id corr : Text) (ctx : Context) (payload : StockPayload) (item : StockItem)
    → record_order_fact (stock_event id item corr ctx payload) item
      ≡ ok (told_item (stock_event id item corr ctx payload) item)
unfolding record_order_fact
record_order_fact-own id corr ctx payload item = rw (text_eq_refl item.id)

-- What saying a fact comes to: one more fact on the items, and nothing else.
pub record Said (items items' : List StockItem) : Type 0 where
  pub one_fact : facts_of items' ≡ facts_of items + 1
  pub same_snapshots : map to_snapshot items' ≡ map to_snapshot items
  pub same_stored :
      (code : Text) → snapshot_in (by_product code items') ≡ snapshot_in (by_product code items)
  pub same_reserved : (code : Text) → reserved_of code items' ≡ reserved_of code items
  pub still_stocked : All IsStocked items → All IsStocked items'

sub_nothing : (a : ℤ) (b : Bool) → a +ℤ pos (if b then 0 else 0) ≡ a
sub_nothing a true = omega int_laws
sub_nothing a false = omega int_laws

stored-told :
    (event : Envelope StockPayload) (code c : Text) (item : StockItem) (items : List StockItem)
    → by_product code items ≡ some item
    → (item.product_code =t code) ≡ true
    → snapshot_in (by_product c (set_product code (told_item event item) items))
      ≡ snapshot_in (by_product c items)
unfolding to_snapshot
stored-told event code c item items found same = elim (Bool-cases (code =t c)) [
  | inl here ↦
      subst
        (λ c.
          snapshot_in (by_product c (set_product code (told_item event item) items))
          ≡ snapshot_in (by_product c items))
        ((text_eq_iff code c).0 here)
        (rw
          (
            by_product-set_product code (told_item event item) items
                (by_product-has code items found).0 same,
            found,
          )
          refl)
  | inr there ↦ rw (by_product-set_other code c (told_item event item) items same there) refl
]

told-Said :
    (event : Envelope StockPayload) (code : Text) (item : StockItem) (items : List StockItem)
    → by_product code items ≡ some item
    → Said items (set_product code (told_item event item) items)
told-Said event code item items found =
    let same = (by_product-has code items found).1 in
    record {
      one_fact =
          facts_of-set_product code 1 item (told_item event item) items found
            (length-append item.domain_events (event ∷ []));
      same_snapshots =
          snapshots-set_product code item (told_item event item) items found
            (unfold to_snapshot in refl);
      same_stored = λ c. stored-told event code c item items found same;
      same_reserved = λ c.
          reserved_of-set_product code c 0 item (told_item event item) items found same
            (omega int_laws)
          ∙ sub_nothing _ _;
      still_stocked = λ v. All-set_product IsStocked code (told_item event item) items v (
          let kept = by_product-All IsStocked code items found v in
          record {
            reserved_nonneg = kept.reserved_nonneg;
            reserved_le_units = kept.reserved_le_units;
            loaded_are_counted = kept.loaded_are_counted;
          });
    }

say-found :
    (id corr : Text) (ctx : Context) (payload : StockPayload) (first : StockItem)
    (items : List StockItem) {item : StockItem}
    → by_product first.product_code items ≡ some item
    → say id corr ctx payload first items
      ≡ ok (
        told_item (stock_event id item corr ctx payload) item,
        set_product first.product_code
            (told_item (stock_event id item corr ctx payload) item)
            items,
      )
unfolding say
say-found id corr ctx payload first items {item} found =
    let step : Result StockItem → Result (StockItem × List StockItem) =
      λ m. m >>= λ told. ok (told, set_product first.product_code told items) in
    (λ i. elim (found i) [
      | none ↦ err plain_error
      | some carrier ↦ step (record_order_fact (stock_event id carrier corr ctx payload) carrier)
    ])
    ∙ ap step (record_order_fact-own id corr ctx payload item)

pub say-Said :
    (id corr : Text) (ctx : Context) (payload : StockPayload) (first : StockItem)
    (items : List StockItem)
    → has_product first.product_code items ≡ true
    → (told : StockItem) × (items' : List StockItem) × (say id corr ctx payload first items
        ≡ ok (told, items'))
      × Said items items'
say-Said id corr ctx payload first items has =
    let (item, found) = has-by_product first.product_code items has in
    let event = stock_event id item corr ctx payload in
    (
      told_item event item,
      set_product first.product_code (told_item event item) items,
      say-found id corr ctx payload first items found,
      told-Said event first.product_code item items found,
    )
