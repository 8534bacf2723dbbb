-- ===== src/Billing/Credit/Repeats.antt =====
-- A command of the credit line that is delivered again.
use mathlib.Core.Path.{subst}
use order_to_cash_nestjs.Errors.{no_active_hold}
use order_to_cash_nestjs.Billing.Credit.Evaluation.{
  release_hold-ok, consume_hold-ok, approve_hold-ok,
}
use order_to_cash_nestjs.Kernel.Envelope.{Context}
use order_to_cash_nestjs.Billing.Ledger.{
  book, Entry, Accumulator, is_hold, no_entries, release_entry, consume_entry, hold_entry,
}
use order_to_cash_nestjs.Billing.Line.{BuyerCredit, HoldRequest, already_held}
use order_to_cash_nestjs.Billing.Credit.{
  outstanding, release_hold, ReleaseInput, consume_hold, evaluate_hold, entries_of, active_hold,
  all_entries, new_entry, approve_hold, evaluate_found,
}
use mathlib.Core.List.{append_assoc}
use order_to_cash_nestjs.Base.{
  ◌≡◌, refl, sym, ◌∙◌, ap, true, List, [], ◌∷◌, ◌++◌, Option, none, some, arith, inl, inr, find?,
  filter, Bool-cases,
}
use order_to_cash_nestjs.Base.Int.{
  ℤ, pos, ◌+ℤ◌, ◌-ℤ◌, ◌≤ℤ◌, ◌<ℤ◌, min_ℤ, int_laws, eq_of_parts, pos_part, neg_part, leb_ℤ,
}
use order_to_cash_nestjs.Base.Text.{Text, ◌=t◌, text_eq_refl}
use order_to_cash_nestjs.Result.{ok, err}
use order_to_cash_nestjs.Billing.Ledger.Exposure.{
  tally, exposure_in, active_in, summarise_ledger-exposure, summarise_ledger-active, tally-filter,
  tally-append,
}

abbrev booked_for : BuyerCredit → Text → Accumulator
booked_for c o = tally o (all_entries c) no_entries

outstanding_lem : (c : BuyerCredit) (o : Text) → outstanding c o ≡ exposure_in (booked_for c o)
unfolding outstanding entries_of
outstanding_lem c o =
    summarise_ledger-exposure o (filter (λ e. e.order_reference =t o) (all_entries c))
    ∙ ap exposure_in (tally-filter o (all_entries c) no_entries)

active_hold_lem : (c : BuyerCredit) (o : Text) → active_hold c o ≡ active_in (booked_for c o)
unfolding active_hold entries_of
active_hold_lem c o =
    summarise_ledger-active o (filter (λ e. e.order_reference =t o) (all_entries c))
    ∙ ap active_in (tally-filter o (all_entries c) no_entries)

-- One more entry of the order.
entries-append :
    (c c' : BuyerCredit) (e : Entry)
    → c'.loaded_entries ≡ c.loaded_entries
    → c'.appended ≡ c.appended ++ e ∷ []
    → all_entries c' ≡ all_entries c ++ e ∷ []
entries-append c c' e loaded appended =
    (λ i. loaded i ++ appended i) ∙ sym (append_assoc c.loaded_entries c.appended (e ∷ []))

booked_for-append :
    (c c' : BuyerCredit) (e : Entry)
    → all_entries c' ≡ all_entries c ++ e ∷ []
    → booked_for c' e.order_reference
      ≡ book e.type_ e.amount.amount (booked_for c e.order_reference)
booked_for-append c c' e entries =
    ap (λ es. tally e.order_reference es no_entries) entries
    ∙ tally-append e.order_reference (all_entries c) (e ∷ []) no_entries
    ∙ rw (text_eq_refl e.order_reference) refl

paid_back :
    (out : ℤ) (acc : Accumulator)
    → exposure_in acc ≡ out
    → exposure_in (book release_entry out acc) ≡ pos 0
unfolding exposure_in book
paid_back out acc h = eq_of_parts _ _ (omega (int_laws, ap pos_part h, ap neg_part h))

release_hold-nothing :
    (id event_id : Text) (input : ReleaseInput) (ctx : Context) (c : BuyerCredit)
    → outstanding c input.order_reference ≡ pos 0
    → release_hold id event_id input ctx c ≡ ok (none, c)
unfolding release_hold
release_hold-nothing id event_id input ctx c h = rw h refl

-- A `releaseHold` that did not throw, delivered again for the same input with any ids and context,
-- answers null and leaves the credit line as it is (BC11).
pub release_hold-twice :
    (id id' event_id event_id' : Text) (input : ReleaseInput) (ctx ctx' : Context) (c : BuyerCredit)
    {e : Option Entry} {c' : BuyerCredit}
    → release_hold id event_id input ctx c ≡ ok (e, c')
    → release_hold id' event_id' input ctx' c' ≡ ok (none, c')
release_hold-twice id id' event_id event_id' input ctx ctx' c {e} {c'} h =
    elim (release_hold-ok id event_id input ctx c h) [
      | inl (nothing, entry, after) ↦
          release_hold-nothing id' event_id' input ctx' c'
            (ap (λ c. outstanding c input.order_reference) after ∙ nothing)
      | inr (positive, (m, f, same, answer, after)) ↦
          let o = input.order_reference in
          let entry = new_entry id o m release_entry ctx in
          let added = booked_for-append c c' entry (
            entries-append c c' entry (ap (λ (c : BuyerCredit). c.loaded_entries) after)
              (ap (λ (c : BuyerCredit). c.appended) after)) in
          release_hold-nothing id' event_id' input ctx' c' (
            outstanding_lem c' o
            ∙ ap exposure_in added
            ∙ paid_back m.amount (booked_for c o) (sym (outstanding_lem c o) ∙ sym same))
    ]

min-left : (a b : ℤ) → leb_ℤ a b ≡ true → min_ℤ a b ≡ a
unfolding min_ℤ
min-left a b h = rw h refl

min-right : (a b : ℤ) → b ≤ℤ a → min_ℤ a b ≡ b
unfolding min_ℤ
min-right a b h = elim (Bool-cases (leb_ℤ a b)) [
  | inl e ↦ rw e (eq_of_parts a b (ground (arith, h, e)))
  | inr e ↦ rw e refl
]

used_up_parts :
    (consume exposure n : ℤ)
    → exposure -ℤ min_ℤ consume exposure ≡ n
    → pos 0 <ℤ n
    → exposure -ℤ min_ℤ (consume +ℤ n) exposure ≡ pos 0
used_up_parts consume exposure n h p = elim (Bool-cases (leb_ℤ consume exposure)) [
  | inl under ↦
      let h' = rw (min-left consume exposure under) at h in
      rw (min-right (consume +ℤ n) exposure (omega (int_laws, ap pos_part h', ap neg_part h')))
        (omega int_laws)
  | inr over ↦
      let h' = rw (min-right consume exposure (ground (arith, over))) at h in
      absurd (omega (int_laws, ap pos_part h', ap neg_part h', p))
]

used_up :
    (n : ℤ) (acc : Accumulator)
    → active_in acc ≡ n
    → pos 0 <ℤ n
    → active_in (book consume_entry n acc) ≡ pos 0
unfolding active_in book
used_up n acc h p = used_up_parts acc.consume (acc.hold -ℤ acc.release) n h p

-- After a `consumeHold` that did not throw, consuming the hold of the same order again throws
-- `NoActiveHoldError` (BC12).
pub consume_hold-twice :
    (id id' o : Text) (ctx ctx' : Context) (c : BuyerCredit) {e : Entry} {c' : BuyerCredit}
    → consume_hold id o ctx c ≡ ok (e, c')
    → consume_hold id' o ctx' c' ≡ err (no_active_hold o)
unfolding consume_hold
consume_hold-twice id id' o ctx ctx' c {e} {c'} h =
    let (positive, (m, same, after)) = consume_hold-ok id o ctx c h in
    let entry = new_entry id o m consume_entry ctx in
    let added = booked_for-append c c' entry (
      entries-append c c' entry (ap (λ (c : BuyerCredit). c.loaded_entries) after)
        (ap (λ (c : BuyerCredit). c.appended) after)) in
    let gone : active_hold c' o ≡ pos 0 =
      active_hold_lem c' o
      ∙ ap active_in added
      ∙ used_up m.amount (booked_for c o) (sym (active_hold_lem c o) ∙ sym same)
          (subst (λ n. pos 0 <ℤ n) (sym same) positive) in
    rw gone refl

find_last :
    (o : Text) (xs : List Entry) (e : Entry)
    → find? (λ x. is_hold x.type_) (filter (λ x. x.order_reference =t o) xs) ≡ none
    → (e.order_reference =t o) ≡ true
    → is_hold e.type_ ≡ true
    → find? (λ x. is_hold x.type_) (filter (λ x. x.order_reference =t o) (xs ++ e ∷ [])) ≡ some e
find_last o [] e h same hold = ground (arith, same, hold)
find_last o (x ∷ xs) e h same hold = ground (arith, h, same, hold, find_last o xs e)

-- After an `approveHold` that did not throw, `evaluateHold` of any request for the same order
-- answers `already_held` with the amount that was held (BC7).
pub approve_hold-twice :
    (id event_id : Text) (r r' : HoldRequest) (ctx : Context) (c : BuyerCredit) {e : Entry}
    {c' : BuyerCredit}
    → approve_hold id event_id r ctx c ≡ ok (e, c')
    → r'.order_reference ≡ r.order_reference
    → evaluate_hold r' c' ≡ ok (already_held r.amount)
unfolding evaluate_hold entries_of
approve_hold-twice id event_id r r' ctx c {e} {c'} h same =
    let (free, room, entry, (f, after)) = approve_hold-ok id event_id r ctx c h in
    let hold = new_entry id r.order_reference r.amount hold_entry ctx in
    let found : find? (λ x. is_hold x.type_)
          (filter (λ x. x.order_reference =t r'.order_reference) (all_entries c'))
        ≡ some hold =
      rw
        (
          same,
          entries-append c c' hold (ap (λ (c : BuyerCredit). c.loaded_entries) after)
              (ap (λ (c : BuyerCredit). c.appended) after),
        )
        (find_last r.order_reference (all_entries c) hold free (text_eq_refl r.order_reference)
          refl) in
    ap (λ found. evaluate_found found r' c') found ∙ unfold evaluate_found in refl
