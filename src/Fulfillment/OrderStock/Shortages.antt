-- ===== src/Fulfillment/OrderStock/Shortages.antt =====
-- The first loop of `reserveOrderStock`: what it decides.
use mathlib.Core.Path.{subst}
use order_to_cash_nestjs.Base.{
  ℕ, ◌+◌, ◌≡◌, refl, sym, ◌∙◌, ap, true, false, List, [], ◌∷◌, ◌++◌, Option, none, some, arith,
  is_empty, if◌then◌else◌, All, Bool-cases, inl, inr, is_some,
}
use order_to_cash_nestjs.Base.Int.{pos, ◌≤ℤ◌, ◌-ℤ◌, int_laws, pos_part, neg_part}
use order_to_cash_nestjs.Base.Text.{Text, ◌=t◌, text_eq_iff}
use order_to_cash_nestjs.Fulfillment.OrderStock.Lookup.{
  by_product-set_product, by_product-has, by_product-set_other,
}
use order_to_cash_nestjs.Fulfillment.StockItem.{StockItem, available_units}
use order_to_cash_nestjs.Fulfillment.OrderStock.{
  ReserveOrderLine, by_product, set_product, has_product, survey_line, survey, Survey, or_first,
  survey_found,
}

-- `n` units of a product can be reserved.
abbrev pub Can : Text → ℕ → List StockItem → Type 0
Can code n items =
    (item : StockItem) × (by_product code items ≡ some item) × (pos n ≤ℤ available_units item)

is_empty-append_one {ℓ} : {A : Type ℓ} (xs : List A) (x : A) → is_empty (xs ++ x ∷ []) ≡ false
is_empty-append_one [] x = refl
is_empty-append_one (y ∷ ys) x = refl

or_first-some : (first : Option StockItem) (item : StockItem) → is_some (or_first first item) ≡ true
or_first-some none item = refl
or_first-some (some x) item = refl

-- A round of the first loop that leaves no shortage met a product that can be reserved.
survey_found-clear :
    (found : Option StockItem) (totals : Text → ℕ) (line : ReserveOrderLine) (s : Survey)
    → is_empty (survey_found found totals line s).shortages ≡ true
    → (is_empty s.shortages ≡ true)
      × ((item : StockItem) × (found ≡ some item)
          × (pos (totals line.product_code) ≤ℤ available_units item))
      × (is_some (survey_found found totals line s).first_known_item ≡ true)
unfolding survey_found
survey_found-clear none totals line s h = cc (is_empty-append_one s.shortages _, h)
survey_found-clear (some item) totals line s h =
    let short = is_empty-append_one s.shortages (record {
      product_code = line.product_code;
      requested = line.units;
      available = available_units item;
    }) in
    (
      ground (arith, h, short),
      (item, refl, ground (arith, h, short)),
      or_first-some s.first_known_item item,
    )

survey_found-knows :
    (found : Option StockItem) (totals : Text → ℕ) (line : ReserveOrderLine) (s : Survey)
    → is_some s.first_known_item ≡ true
    → is_some (survey_found found totals line s).first_known_item ≡ true
unfolding survey_found
survey_found-knows none totals line s h = h
survey_found-knows (some item) totals line s h = or_first-some s.first_known_item item

survey-knows :
    (items : List StockItem) (totals : Text → ℕ) (lines : List ReserveOrderLine) (s : Survey)
    → is_some s.first_known_item ≡ true
    → is_some (survey items totals lines s).first_known_item ≡ true
unfolding survey survey_line
survey-knows items totals [] s h = h
survey-knows items totals (line ∷ lines) s h =
    survey-knows items totals lines _
      (survey_found-knows (by_product line.product_code items) totals line s h)

-- No shortage: every line can have the whole total of its product, and some item is known.
pub survey-clear :
    (items : List StockItem) (totals : Text → ℕ) (lines : List ReserveOrderLine) (s : Survey)
    → is_empty (survey items totals lines s).shortages ≡ true
    → (is_empty s.shortages ≡ true)
      × All (λ line. Can line.product_code (totals line.product_code) items) lines
      × (is_empty lines ≡ false → is_some (survey items totals lines s).first_known_item ≡ true)
unfolding survey survey_line
survey-clear items totals [] s h = (h, tt, λ full. cc)
survey-clear items totals (line ∷ lines) s h =
    let (before, rest, later) =
      survey-clear items totals lines (survey_line items totals line s) h in
    let (empty, can, known) =
      survey_found-clear (by_product line.product_code items) totals line s before in
    (empty, (can, rest), λ full. survey-knows items totals lines _ known)

-- The item reserved from, and the others.
pub Can-step :
    (code c : Text) (n u : ℕ) (item item' : StockItem) (items : List StockItem)
    → by_product code items ≡ some item
    → (item'.product_code =t code) ≡ true
    → available_units item' ≡ available_units item -ℤ pos u
    → Can c ((if code =t c then u else 0) + n) items
    → Can c n (set_product code item' items)
Can-step code c n u item item' items found same avail (it, e, fits) =
    elim (Bool-cases (code =t c)) [
      | inl here ↦
          let code_c : code ≡ c = (text_eq_iff code c).0 here in
          let it_item : it ≡ item = ground (arith, rw code_c at found, e) in
          let fits' : pos (u + n) ≤ℤ available_units item = rw (here, it_item) at fits in
          (
            item',
            subst (λ c. by_product c (set_product code item' items) ≡ some item') code_c
                (by_product-set_product code item' items (by_product-has code items found).0 same),
            omega (int_laws, ap pos_part avail, ap neg_part avail, fits'),
          )
      | inr there ↦
          let fits' : pos n ≤ℤ available_units it = omega (int_laws, rw there at fits) in
          (it, by_product-set_other code c item' items same there ∙ e, fits')
    ]

survey_found-full :
    (found : Option StockItem) (totals : Text → ℕ) (line : ReserveOrderLine) (s : Survey)
    → is_empty s.shortages ≡ true
    → (item : StockItem) × (found ≡ some item)
      × (pos (totals line.product_code) ≤ℤ available_units item)
    → is_empty (survey_found found totals line s).shortages ≡ true
unfolding survey_found
survey_found-full none totals line s h (item, e, fits) = cc
survey_found-full (some x) totals line s h (item, e, fits) = ground (arith, h, fits, e)

-- And conversely.
pub survey-full :
    (items : List StockItem) (totals : Text → ℕ) (lines : List ReserveOrderLine) (s : Survey)
    → is_empty s.shortages ≡ true
    → All (λ line. Can line.product_code (totals line.product_code) items) lines
    → is_empty (survey items totals lines s).shortages ≡ true
unfolding survey survey_line
survey-full items totals [] s h can = h
survey-full items totals (line ∷ lines) s h can =
    survey-full items totals lines _
      (survey_found-full (by_product line.product_code items) totals line s h can.0) can.1

-- The first known item is one of the items, found under its code.
abbrev pub Known : List StockItem → Option StockItem → Type 0
Known items first =
    (item : StockItem) → first ≡ some item → has_product item.product_code items ≡ true

survey_found-Known :
    (items : List StockItem) (found : Option StockItem) (totals : Text → ℕ)
    (line : ReserveOrderLine) (s : Survey)
    → Known items found
    → Known items s.first_known_item
    → Known items (survey_found found totals line s).first_known_item
unfolding survey_found
survey_found-Known items none totals line s h k = k
survey_found-Known items (some x) totals line s h k = or_first-Known s.first_known_item k
  where
    or_first-Known : (first : Option StockItem) → Known items first → Known items (or_first first x)
    or_first-Known none k = h
    or_first-Known (some y) k = k

by_product-Known : (code : Text) (items : List StockItem) → Known items (by_product code items)
by_product-Known code items item e =
    let (has, same) = by_product-has code items e in
    subst (λ c. has_product c items ≡ true) (sym ((text_eq_iff item.product_code code).0 same)) has

pub survey-Known :
    (items : List StockItem) (totals : Text → ℕ) (lines : List ReserveOrderLine) (s : Survey)
    → Known items s.first_known_item
    → Known items (survey items totals lines s).first_known_item
unfolding survey survey_line
survey-Known items totals [] s k = k
survey-Known items totals (line ∷ lines) s k = survey-Known items totals lines _ (
    survey_found-Known items (by_product line.product_code items) totals line s
      (by_product-Known line.product_code items) k)
