-- ===== src/Billing/Credit/Evaluation.antt =====
-- What each method of buyer-credit.ts did when it did not throw.
use order_to_cash_nestjs.Errors.{credit_refusal_mismatch, no_active_hold, credit_limit_exceeded}
use order_to_cash_nestjs.Billing.Ledger.{Entry, is_hold, hold_entry, release_entry}
use order_to_cash_nestjs.Kernel.Money.{Money}
use order_to_cash_nestjs.Kernel.Envelope.{Envelope, Context}
use order_to_cash_nestjs.Billing.Line.{
  BuyerCredit, HoldRequest, CreditPayload, HoldEvaluation, CreditRejectionReason, over_limit,
  is_fits,
}
use order_to_cash_nestjs.Billing.Credit.{
  append_fact, approve_hold, refuse_hold, ReleaseInput, consume_hold, credit_event, evaluate_hold,
  available, release_hold, active_hold, entries_of, new_entry, is_over_limit, outstanding,
  with_consumption, with_hold, with_release, evaluate_new, evaluate_found, release_outstanding,
}
use order_to_cash_nestjs.Base.{
  ◌≡◌, refl, sym, true, not, [], ◌∷◌, ◌++◌, Option, none, some, find?, arith, Bool-cases, inl, inr,
  ◌&&◌, ◌⊎◌,
}
use order_to_cash_nestjs.Base.Int.{ℤ, pos, ◌≤ℤ◌, ◌<ℤ◌, ltb_ℤ, leb_ℤ, eqb_ℤ, eqb_ℤ→eq}
use order_to_cash_nestjs.Base.Text.{Text, ◌=t◌, text_eq_refl}
use order_to_cash_nestjs.Kernel.Money
use order_to_cash_nestjs.Result.{ok, ok-injective, bind-ok, throw_if}

abbrev pub found_hold : BuyerCredit → Text → Option Entry
found_hold credit o = find? (λ entry. is_hold entry.type_) (entries_of credit o)

-- The line with one more fact.
abbrev pub telling : Envelope CreditPayload → BuyerCredit → BuyerCredit
telling event credit = record credit { domain_events = credit.domain_events ++ event ∷ [] }

append_fact-own :
    (id corr : Text) (ctx : Context) (payload : CreditPayload) (c c' : BuyerCredit)
    → c'.id ≡ c.id
    → append_fact (credit_event id c corr ctx payload) c'
      ≡ ok (telling (credit_event id c corr ctx payload) c')
unfolding append_fact
append_fact-own id corr ctx payload c c' same = rw (same, text_eq_refl c.id)

evaluate_new-fits :
    (r : HoldRequest) (c : BuyerCredit) {e : HoldEvaluation}
    → evaluate_new r c ≡ ok e
    → is_fits e ≡ true
    → ((r.amount.currency =t c.currency) ≡ true) × (r.amount.amount ≤ℤ available c)
unfolding evaluate_new
evaluate_new-fits r c {e} h f = ground (arith, h, f)

evaluate_found-fits :
    (found : Option Entry) (r : HoldRequest) (c : BuyerCredit) {e : HoldEvaluation}
    → evaluate_found found r c ≡ ok e
    → is_fits e ≡ true
    → (found ≡ none) × ((r.amount.currency =t c.currency) ≡ true) × (r.amount.amount ≤ℤ available c)
unfolding evaluate_found
evaluate_found-fits none r c {e} h f =
    let (money, room) = evaluate_new-fits r c h f in (refl, money, room)
evaluate_found-fits (some x) r c {e} h f = cc

-- An `evaluateHold` that answers `fits` found no hold of the order, an amount in the currency of
-- the line, and an amount within the available credit.
evaluate_hold-fits :
    (r : HoldRequest) (c : BuyerCredit) {e : HoldEvaluation}
    → evaluate_hold r c ≡ ok e
    → is_fits e ≡ true
    → (found_hold c r.order_reference ≡ none)
      × ((r.amount.currency =t c.currency) ≡ true)
      × (r.amount.amount ≤ℤ available c)
unfolding evaluate_hold
evaluate_hold-fits r c h f = evaluate_found-fits (found_hold c r.order_reference) r c h f

pub approve_hold-ok :
    (id event_id : Text) (r : HoldRequest) (ctx : Context) (c : BuyerCredit) {e : Entry}
    {c' : BuyerCredit}
    → approve_hold id event_id r ctx c ≡ ok (e, c')
    → (found_hold c r.order_reference ≡ none)
      × (r.amount.amount ≤ℤ available c)
      × (e ≡ new_entry id r.order_reference r.amount hold_entry ctx)
      × ((f : Envelope CreditPayload) × (c' ≡ telling f (with_hold id r ctx c)))
unfolding approve_hold
approve_hold-ok id event_id r ctx c h =
    let (evaluation, evaluated, h1) = bind-ok (evaluate_hold r c) _ h in
    let (u, guard, h2) =
      bind-ok
        (throw_if (not (is_fits evaluation)) (credit_limit_exceeded r.amount.amount (available c)))
        _ h1 in
    let (free, money, room) = evaluate_hold-fits r c evaluated (ground (arith, guard)) in
    let h3 =
      rw (append_fact-own event_id r.correlation_id ctx _ c (with_hold id r ctx c) refl) at h2 in
    (free, room, λ i. (ok-injective (sym h3) i).0, (_, λ i. (ok-injective (sym h3) i).1))

pub refuse_hold-ok :
    (event_id : Text) (r : HoldRequest) (reason : CreditRejectionReason) (ctx : Context)
    (c : BuyerCredit) {c' : BuyerCredit}
    → refuse_hold event_id r reason ctx c ≡ ok c'
    → (reason ≡ over_limit → available c <ℤ r.amount.amount)
      × ((f : Envelope CreditPayload) × (c' ≡ telling f c))
unfolding refuse_hold
refuse_hold-ok event_id r reason ctx c h =
    let (u, guard, h1) =
      bind-ok
        (throw_if (is_over_limit reason && leb_ℤ r.amount.amount (available c))
          credit_refusal_mismatch)
        _ h in
    let h2 = rw (append_fact-own event_id r.correlation_id ctx _ c c refl) at h1 in
    (λ e. ground (arith, rw e at guard), (_, sym (ok-injective h2)))

of-amount : (n : ℤ) (c : Text) {m : Money} → Money.of n c ≡ ok m → m.amount ≡ n
of-amount n c h = unfold Money.of in ground arith

release_outstanding-ok :
    (out : ℤ) (id event_id : Text) (input : ReleaseInput) (ctx : Context) (c : BuyerCredit)
    {e : Option Entry} {c' : BuyerCredit}
    → release_outstanding out id event_id input ctx c ≡ ok (e, c')
    → (m : Money) × (f : Envelope CreditPayload) × (m.amount ≡ out)
      × (e ≡ some (new_entry id input.order_reference m release_entry ctx))
      × (c' ≡ telling f (with_release id input.order_reference out m ctx c))
unfolding release_outstanding
release_outstanding-ok out id event_id input ctx c h =
    let (m, made, h1) = bind-ok (Money.of out c.currency) _ h in
    let h2 =
      rw
        (append_fact-own event_id input.correlation_id ctx _ c
          (with_release id input.order_reference out m ctx c) refl)
        at h1 in
    (m, _, of-amount _ _ made, (λ i. (ok-injective (sym h2) i).0), λ i. (ok-injective (sym h2) i).1)

-- The two outcomes of a release that does not throw.
pub release_hold-ok :
    (id event_id : Text) (input : ReleaseInput) (ctx : Context) (c : BuyerCredit) {e : Option Entry}
    {c' : BuyerCredit}
    → release_hold id event_id input ctx c ≡ ok (e, c')
    → ((outstanding c input.order_reference ≡ pos 0) × (e ≡ none) × (c' ≡ c))
      ⊎ ((pos 0 <ℤ outstanding c input.order_reference)
          × ((m : Money) × (f : Envelope CreditPayload) × (m.amount
                ≡ outstanding c input.order_reference)
              × (e ≡ some (new_entry id input.order_reference m release_entry ctx))
              × (c'
                  ≡ telling f (
                      with_release id input.order_reference
                        (outstanding c input.order_reference)
                        m
                        ctx
                        c))))
unfolding release_hold
release_hold-ok id event_id input ctx c h =
    let out = outstanding c input.order_reference in
    elim (Bool-cases (ltb_ℤ out (pos 0))) [
      | inl under ↦ cc (rw under at h)
      | inr enough ↦ elim (Bool-cases (eqb_ℤ out (pos 0))) [
        | inl nothing ↦
            let h' = rw (enough, nothing) at h in
            inl (
              eqb_ℤ→eq out (pos 0) nothing,
              (λ i. (ok-injective (sym h') i).0),
              λ i. (ok-injective (sym h') i).1,
            )
        | inr something ↦ inr (
          ground (arith, enough, something),
          release_outstanding-ok out id event_id input ctx c (rw (enough, something) at h),
        )
      ]
    ]

pub consume_hold-ok :
    (id o : Text) (ctx : Context) (c : BuyerCredit) {e : Entry} {c' : BuyerCredit}
    → consume_hold id o ctx c ≡ ok (e, c')
    → (pos 0 <ℤ active_hold c o)
      × ((m : Money) × (m.amount ≡ active_hold c o) × (c' ≡ with_consumption id o m ctx c))
unfolding consume_hold
consume_hold-ok id o ctx c h =
    let (u, guard, h1) =
      bind-ok (throw_if (leb_ℤ (active_hold c o) (pos 0)) (no_active_hold o)) _ h in
    let (m, made, h2) = bind-ok (Money.of (active_hold c o) c.currency) _ h1 in
    (ground (arith, guard), (m, of-amount _ _ made, λ i. (ok-injective (sym h2) i).1))
