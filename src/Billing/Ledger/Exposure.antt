-- ===== src/Billing/Ledger/Exposure.antt =====
-- What `summariseLedger` computes, in sums over the entries.
use order_to_cash_nestjs.Billing.Ledger.{
  EntryType, Entry, Accumulator, book, no_entries, accumulate, accumulate_all, sum_by,
  summarise_ledger, OrderExposure, exposure_of, hold_entry, release_entry, consume_entry, figure,
}
use order_to_cash_nestjs.Base.{
  ◌≡◌, refl, sym, ◌∙◌, ap, List, [], ◌∷◌, ◌++◌, map, find?, filter, arith, if◌then◌else◌,
  Bool-cases, inl, inr,
}
use order_to_cash_nestjs.Base.Int.{ℤ, pos, ◌+ℤ◌, ◌-ℤ◌, min_ℤ, int_laws, pos_part, neg_part}
use order_to_cash_nestjs.Base.Text.{Text, ◌=t◌, text_eq_iff}

-- What an entry adds to the committed exposure: a hold its amount, a release its opposite, a
-- consumption nothing.
abbrev commits : EntryType → ℤ → ℤ
commits hold_entry amount = amount
commits release_entry amount = pos 0 -ℤ amount
commits consume_entry amount = pos 0

abbrev pub net : List Entry → ℤ
net [] = pos 0
net (e ∷ es) = commits e.type_ e.amount.amount +ℤ net es

unfoldable pub exposure_in : Accumulator → ℤ
exposure_in acc = acc.hold -ℤ acc.release

abbrev exposures : List (Text × Accumulator) → ℤ
exposures [] = pos 0
exposures ((o, acc) ∷ accs) = exposure_in acc +ℤ exposures accs

exposure_in-book :
    (t : EntryType) (n : ℤ) (acc : Accumulator)
    → exposure_in (book t n acc) ≡ exposure_in acc +ℤ commits t n
unfolding book exposure_in
exposure_in-book hold_entry n acc = omega int_laws
exposure_in-book release_entry n acc = omega int_laws
exposure_in-book consume_entry n acc = omega int_laws

exposure_in-none : exposure_in no_entries ≡ pos 0
unfolding exposure_in
exposure_in-none = omega int_laws

accumulate-exposures :
    (e : Entry) (accs : List (Text × Accumulator))
    → exposures (accumulate e accs) ≡ exposures accs +ℤ commits e.type_ e.amount.amount
unfolding accumulate
accumulate-exposures e [] =
    rw (exposure_in-book e.type_ e.amount.amount no_entries, exposure_in-none) (omega int_laws)
accumulate-exposures e ((o, acc) ∷ accs) = elim (Bool-cases (o =t e.order_reference)) [
  | inl same ↦ rw (same, exposure_in-book e.type_ e.amount.amount acc) (omega int_laws)
  | inr other ↦ rw (other, accumulate-exposures e accs) (omega int_laws)
]

accumulate_all-exposures :
    (es : List Entry) (accs : List (Text × Accumulator))
    → exposures (accumulate_all es accs) ≡ exposures accs +ℤ net es
unfolding accumulate_all
accumulate_all-exposures [] accs = omega int_laws
accumulate_all-exposures (e ∷ es) accs =
    rw (accumulate_all-exposures es (accumulate e accs), accumulate-exposures e accs)
      (omega int_laws)

sum_exposures :
    (n : ℤ) (accs : List (Text × Accumulator))
    → sum_by (λ o. o.exposure) n (map exposure_of accs) ≡ n +ℤ exposures accs
unfolding sum_by exposure_of exposure_in
sum_exposures n [] = omega int_laws
sum_exposures n ((o, acc) ∷ accs) =
    rw (sum_exposures (n +ℤ (acc.hold -ℤ acc.release)) accs) (omega int_laws)

-- The committed exposure that `summariseLedger` computes order by order is the sum of the holds
-- less the sum of the releases over the whole ledger (BC5).
pub summarise_ledger-committed :
    (es : List Entry) → (summarise_ledger es).committed_exposure ≡ net es
unfolding summarise_ledger
summarise_ledger-committed es =
    sum_exposures (pos 0) (accumulate_all es [])
    ∙ rw (accumulate_all-exposures es []) (omega int_laws)

sum_split :
    (os : List (Text × Accumulator)) (a b c : ℤ)
    → a ≡ b +ℤ c
    → sum_by (λ o. o.exposure) a (map exposure_of os)
      ≡ sum_by (λ o. o.active_hold) b (map exposure_of os)
        +ℤ sum_by (λ o. o.open_exposure) c (map exposure_of os)
unfolding sum_by exposure_of
sum_split [] a b c h = h
sum_split ((o, acc) ∷ os) a b c h =
    sum_split os _ _ _ (omega (int_laws, ap pos_part h, ap neg_part h))

-- The committed exposure that `summariseLedger` computes is the sum of its active holds and its
-- open exposure (BC6).
pub summarise_ledger-split :
    (es : List Entry)
    → (summarise_ledger es).committed_exposure
      ≡ (summarise_ledger es).active_holds +ℤ (summarise_ledger es).open_exposure
unfolding summarise_ledger
summarise_ledger-split es =
    sum_split (accumulate_all es []) (pos 0) (pos 0) (pos 0) (omega int_laws)

-- The entries of an order.
abbrev entries_of_order : Text → List Entry → List Entry
entries_of_order o es = filter (λ e. e.order_reference =t o) es

abbrev acc_of : Text → List (Text × Accumulator) → Accumulator
acc_of o [] = no_entries
acc_of o ((o', acc) ∷ accs) = let rest = acc_of o accs in if o' =t o then acc else rest

abbrev booked : Text → Entry → Accumulator → Accumulator
booked o e acc = if e.order_reference =t o then book e.type_ e.amount.amount acc else acc

acc_of-accumulate :
    (o : Text) (e : Entry) (accs : List (Text × Accumulator))
    → acc_of o (accumulate e accs) ≡ booked o e (acc_of o accs)
unfolding accumulate
acc_of-accumulate o e [] = refl
acc_of-accumulate o e ((o', acc) ∷ accs) = grind (
  arith,
  acc_of-accumulate o e accs,
  text_eq_iff o' o,
  text_eq_iff o' e.order_reference,
  text_eq_iff e.order_reference o,
)

-- The accumulator of an order after a ledger.
abbrev pub tally : Text → List Entry → Accumulator → Accumulator
tally o [] acc = acc
tally o (e ∷ es) acc = tally o es (booked o e acc)

acc_of-accumulate_all :
    (o : Text) (es : List Entry) (accs : List (Text × Accumulator))
    → acc_of o (accumulate_all es accs) ≡ tally o es (acc_of o accs)
unfolding accumulate_all
acc_of-accumulate_all o [] accs = refl
acc_of-accumulate_all o (e ∷ es) accs =
    acc_of-accumulate_all o es (accumulate e accs) ∙ ap (tally o es) (acc_of-accumulate o e accs)

find-figure :
    (f : OrderExposure → ℤ) (o : Text) (accs : List (Text × Accumulator))
    → f (exposure_of (o, no_entries)) ≡ pos 0
    → ((p q : Text) (acc : Accumulator) → f (exposure_of (p, acc)) ≡ f (exposure_of (q, acc)))
    → figure f (find? (λ x. x.order_reference =t o) (map exposure_of accs))
      ≡ f (exposure_of (o, acc_of o accs))
unfolding exposure_of
find-figure f o [] h k = sym h
find-figure f o ((o', acc) ∷ accs) h k = elim (Bool-cases (o' =t o)) [
  | inl same ↦ rw same (k o' o acc)
  | inr other ↦ rw other (find-figure f o accs h k)
]

-- The figures of an order, from its accumulator.
unfoldable pub active_in : Accumulator → ℤ
active_in acc = acc.hold -ℤ acc.release -ℤ min_ℤ acc.consume (acc.hold -ℤ acc.release)

pub summarise_ledger-exposure :
    (o : Text) (es : List Entry)
    → figure (λ x. x.exposure) (find? (λ x. x.order_reference =t o) (summarise_ledger es).by_order)
      ≡ exposure_in (tally o es no_entries)
unfolding summarise_ledger exposure_in
summarise_ledger-exposure o es =
    find-figure (λ x. x.exposure) o (accumulate_all es []) (unfold exposure_of in omega int_laws)
      (λ p q acc. unfold exposure_of in refl)
    ∙ unfold exposure_of in
      ap (λ (acc : Accumulator). acc.hold -ℤ acc.release) (acc_of-accumulate_all o es [])

no_active : active_in no_entries ≡ pos 0
unfolding active_in min_ℤ ◌-ℤ◌
no_active = refl

pub summarise_ledger-active :
    (o : Text) (es : List Entry)
    → figure
        (λ x. x.active_hold)
        (find? (λ x. x.order_reference =t o) (summarise_ledger es).by_order)
      ≡ active_in (tally o es no_entries)
unfolding summarise_ledger active_in
summarise_ledger-active o es =
    find-figure (λ x. x.active_hold) o (accumulate_all es []) (unfold exposure_of in no_active)
      (λ p q acc. unfold exposure_of in refl)
    ∙ unfold exposure_of in ap active_in (acc_of-accumulate_all o es [])

-- The entries of the order are all that count.
pub tally-filter :
    (o : Text) (es : List Entry) (acc : Accumulator)
    → tally o (filter (λ e. e.order_reference =t o) es) acc ≡ tally o es acc
tally-filter o [] acc = refl
tally-filter o (e ∷ es) acc = elim (Bool-cases (e.order_reference =t o)) [
  | inl same ↦
      let now : booked o e acc ≡ book e.type_ e.amount.amount acc = rw same refl in
      rw same (tally-filter o es (booked o e acc) ∙ ap (tally o es) now)
  | inr other ↦ rw other (tally-filter o es acc)
]

pub tally-append :
    (o : Text) (xs ys : List Entry) (acc : Accumulator)
    → tally o (xs ++ ys) acc ≡ tally o ys (tally o xs acc)
tally-append o [] ys acc = refl
tally-append o (x ∷ xs) ys acc = tally-append o xs ys (booked o x acc)

pub net-append : (xs ys : List Entry) → net (xs ++ ys) ≡ net xs +ℤ net ys
net-append [] ys = omega int_laws
net-append (x ∷ xs) ys = rw (net-append xs ys) (omega int_laws)
