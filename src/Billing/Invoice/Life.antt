-- ===== src/Billing/Invoice/Life.antt =====
-- The life of an invoice: issued, paid once, stored and loaded.
use order_to_cash_nestjs.Errors.{
  invoice_line_currency_mismatch, empty_invoice_lines, invoice_already_paid, negative_invoice_total,
  invoice_payment_currency_mismatch, invoice_payment_amount_mismatch,
}
use mathlib.Core.Path.{subst}
use order_to_cash_nestjs.Kernel.Money.{Money, equals, zero_money, is_negative, subtract}
use order_to_cash_nestjs.Kernel.Envelope.{Envelope, Context}
use order_to_cash_nestjs.Billing.Invoice.{
  Invoice, create_invoice_lines, issue, InvoiceState, InvoiceLine, InvoiceLineInput, append_fact,
  InvoicePayload, IssueInvoiceInput, mark_paid, state_of, is_status_paid, reconstitute,
  MarkPaidInput, status_of, to_snapshot, sum_line_totals, invoice_event, is_issued, is_paid,
  paid_at_of, paid_payload, issued_invoice, issued_payload,
}
use order_to_cash_nestjs.Base.{
  ℕ, ◌+◌, ◌≡◌, refl, sym, ap, true, false, not, ◌&&◌, List, [], ◌∷◌, ◌++◌, is_some, is_empty, any,
  arith,
}
use order_to_cash_nestjs.Base.Int.{eqb_ℤ→eq}
use order_to_cash_nestjs.Base.Text.{Text, ◌=t◌, text_eq_iff, text_eq_refl}
use order_to_cash_nestjs.Result.{ok, err, ok-injective, bind-ok, throw_if}

-- B6: the lines are in the currency of the invoice, and its totals are theirs and not negative.
pub record IsInvoice (v : Invoice) : Type 0 where
  pub one_currency :
      any (λ (line : InvoiceLine). not (line.unit_price.currency =t v.currency)) v.lines ≡ false
  pub derived :
      (zero : Money) × (zero_money v.currency ≡ ok zero)
      × (sum_line_totals zero v.lines ≡ ok v.amount)
      × (subtract v.amount v.discount ≡ ok v.total_amount)
  pub nonneg : is_negative v.total_amount ≡ false

create_invoice_lines-currency :
    (fresh : ℕ → Text) (k : ℕ) (currency : Text) (inputs : List InvoiceLineInput)
    {lines : List InvoiceLine}
    → create_invoice_lines fresh k currency inputs ≡ ok lines
    → any (λ (line : InvoiceLine). not (line.unit_price.currency =t currency)) lines ≡ false
unfolding create_invoice_lines
create_invoice_lines-currency fresh k currency [] h =
    subst
      (λ lines.
        any (λ (line : InvoiceLine). not (line.unit_price.currency =t currency)) lines ≡ false)
      (ok-injective h) refl
create_invoice_lines-currency fresh k currency (l ∷ ls) h =
    let (u, same, h1) =
      bind-ok
        (throw_if (not (l.unit_price.currency =t currency))
          (invoice_line_currency_mismatch currency l.unit_price.currency))
        _ h in
    let (rest, made, h2) = bind-ok (create_invoice_lines fresh (k + 1) currency ls) _ h1 in
    subst
      (λ lines.
        any (λ (line : InvoiceLine). not (line.unit_price.currency =t currency)) lines ≡ false)
      (ok-injective h2)
      (ground (arith, same, create_invoice_lines-currency fresh (k + 1) currency ls made))

append_fact-own :
    (id corr : Text) (ctx : Context) (payload : InvoicePayload) (v v' : Invoice)
    → v'.id ≡ v.id
    → append_fact (invoice_event id v corr ctx payload) v'
      ≡ ok (record v' {
        domain_events = v'.domain_events ++ invoice_event id v corr ctx payload ∷ [];
      })
unfolding append_fact
append_fact-own id corr ctx payload v v' same = rw (same, text_eq_refl v.id)

with_events :
    (events : List (Envelope InvoicePayload)) (v : Invoice)
    → IsInvoice v
    → IsInvoice (record v { domain_events = events })
with_events events v i = record {
  one_currency = i.one_currency;
  derived = i.derived;
  nonneg = i.nonneg;
}

pub issue-IsInvoice :
    (fresh : ℕ → Text) (event_id : Text) (input : IssueInvoiceInput) (ctx : Context) {v : Invoice}
    → issue fresh event_id input ctx ≡ ok v
    → IsInvoice v
unfolding issue
issue-IsInvoice fresh event_id input ctx h =
    let (u, full, h1) =
      bind-ok (throw_if (is_empty input.lines) (empty_invoice_lines input.order_reference)) _ h in
    let (lines, made, h2) =
      bind-ok (create_invoice_lines fresh 0 input.currency input.lines) _ h1 in
    let (zero, zeroed, h3) = bind-ok (zero_money input.currency) _ h2 in
    let (amount, summed, h4) = bind-ok (sum_line_totals zero lines) _ h3 in
    let (total, diff, h5) = bind-ok (subtract amount input.discount) _ h4 in
    let (w, nonneg, h6) =
      bind-ok
        (throw_if (is_negative total) (negative_invoice_total amount.amount input.discount.amount))
        _ h5 in
    let invoice = issued_invoice input lines amount total in
    let h7 =
      rw
        (append_fact-own event_id input.correlation_id ctx (issued_payload invoice) invoice invoice
          refl)
        at h6 in
    subst IsInvoice (ok-injective h7) (
      with_events _ invoice (record {
        one_currency = create_invoice_lines-currency fresh 0 input.currency input.lines made;
        derived = (zero, zeroed, summed, diff);
        nonneg = ground (arith, nonneg);
      }))

equals-eq : (a b : Money) → equals a b ≡ true → a ≡ b
equals-eq a b h = ground (arith, eqb_ℤ→eq a.amount b.amount, text_eq_iff a.currency b.currency, h)

pub mark_paid-ok :
    (event_id : Text) (input : MarkPaidInput) (ctx : Context) (v : Invoice) {v' : Invoice}
    → mark_paid event_id input ctx v ≡ ok v'
    → (v.state ≡ is_issued)
      × (input.amount ≡ v.total_amount)
      × (v' ≡ record v {
        state = is_paid ctx.occurred_at;
        domain_events =
            v.domain_events
            ++ invoice_event event_id v input.correlation_id ctx (paid_payload input v) ∷ [];
      })
unfolding mark_paid
mark_paid-ok event_id input ctx v h =
    let (u, unpaid, h1) =
      bind-ok
        (throw_if (is_status_paid (status_of v.state)) (invoice_already_paid v.invoice_reference)) _
        h in
    let (w, money, h2) =
      bind-ok
        (throw_if (not (input.amount.currency =t v.currency))
          (invoice_payment_currency_mismatch v.currency input.amount.currency))
        _ h1 in
    let (x, exact, h3) =
      bind-ok
        (throw_if (not (equals input.amount v.total_amount))
          (invoice_payment_amount_mismatch v.total_amount.amount input.amount.amount))
        _ h2 in
    let h4 =
      rw
        (append_fact-own event_id input.correlation_id ctx (paid_payload input v) v
          (record v { state = is_paid ctx.occurred_at }) refl)
        at h3 in
    (
      unpaid_state v.state (ground (arith, unpaid)),
      equals-eq input.amount v.total_amount (ground (arith, exact)),
      sym (ok-injective h4),
    )
  where
    unpaid_state : (s : InvoiceState) → is_status_paid (status_of s) ≡ false → s ≡ is_issued
    unpaid_state is_issued e = refl
    unpaid_state (is_paid at) e = cc

-- A `markPaid` that did not throw was for exactly the total of the invoice, amount and currency; it
-- makes the invoice paid at the instant of the call and keeps its total, and any later `markPaid`
-- of the invoice throws `InvoiceAlreadyPaidError` (B8, B10).
pub mark_paid-once :
    (event_id event_id' : Text) (input input' : MarkPaidInput) (ctx ctx' : Context) (v : Invoice)
    {v' : Invoice}
    → mark_paid event_id input ctx v ≡ ok v'
    → (input.amount ≡ v.total_amount)
      × (v'.state ≡ is_paid ctx.occurred_at)
      × (v'.total_amount ≡ v.total_amount)
      × (mark_paid event_id' input' ctx' v' ≡ err (invoice_already_paid v.invoice_reference))
unfolding mark_paid
mark_paid-once event_id event_id' input input' ctx ctx' v {v'} h =
    let (issued, exact, after) = mark_paid-ok event_id input ctx v h in
    (
      exact,
      ap (λ (v : Invoice). v.state) after,
      ap (λ (v : Invoice). v.total_amount) after,
      ap (mark_paid event_id' input' ctx') after,
    )

-- The invoices that `issue` returned, and those paid after it.
pub data ReachableInvoice : Invoice → Type 0 where
  issuing :
      {v : Invoice} (fresh : ℕ → Text) (event_id : Text) (input : IssueInvoiceInput) (ctx : Context)
      → issue fresh event_id input ctx ≡ ok v
      → ReachableInvoice v
  paying :
      {v v' : Invoice} (event_id : Text) (input : MarkPaidInput) (ctx : Context)
      → ReachableInvoice v
      → mark_paid event_id input ctx v ≡ ok v'
      → ReachableInvoice v'

ReachableInvoice-IsInvoice : {v : Invoice} → ReachableInvoice v → IsInvoice v
ReachableInvoice-IsInvoice (issuing fresh event_id input ctx h) =
    issue-IsInvoice fresh event_id input ctx h
ReachableInvoice-IsInvoice (paying {v} event_id input ctx r h) =
    let (issued, exact, after) = mark_paid-ok event_id input ctx v h in
    let i = ReachableInvoice-IsInvoice r in
    subst IsInvoice (sym after)
      (record { one_currency = i.one_currency; derived = i.derived; nonneg = i.nonneg })

equals_refl : (a : Money) → equals a a ≡ true
equals_refl a = ground (arith, text_eq_refl a.currency)

state-round_trip : (s : InvoiceState) → state_of (status_of s) (paid_at_of s) ≡ s
state-round_trip is_issued = refl
state-round_trip (is_paid at) = refl

checks_of_state :
    (s : InvoiceState)
    → ((is_status_paid (status_of s) && not (is_some (paid_at_of s))) ≡ false)
      × ((not (is_status_paid (status_of s)) && is_some (paid_at_of s)) ≡ false)
checks_of_state is_issued = (refl, refl)
checks_of_state (is_paid at) = (refl, refl)

-- An invoice that `issue` returned, paid or not by a `markPaid` that did not throw, comes back from
-- its snapshot as it was, with no pending events, and its total is not negative (B6, B9).
pub reconstitute-to_snapshot :
    {v : Invoice}
    → ReachableInvoice v
    → (reconstitute (to_snapshot v) ≡ ok (record v { domain_events = [] }))
      × (is_negative v.total_amount ≡ false)
unfolding reconstitute to_snapshot
reconstitute-to_snapshot {v} r =
    let i = ReachableInvoice-IsInvoice r in
    let (zero, zeroed, summed, diff) = i.derived in
    let (c1, c2) = checks_of_state v.state in
    (
      rw
          (
            c1,
            c2,
            i.one_currency,
            zeroed,
            summed,
            equals_refl v.amount,
            diff,
            equals_refl v.total_amount,
            state-round_trip v.state,
          )
          refl,
      i.nonneg,
    )
