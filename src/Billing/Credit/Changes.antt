-- ===== src/Billing/Credit/Changes.antt =====
-- A credit line through every method of buyer-credit.ts: the limit (B1), the append-only ledger (B2)
-- and the scalar that is kept in step with it (BC5).
use order_to_cash_nestjs.Errors.{invalid_buyer_credit_snapshot}
use mathlib.Core.Path.{subst}
use order_to_cash_nestjs.Billing.Credit.Evaluation.{
  approve_hold-ok, telling, refuse_hold-ok, release_hold-ok, consume_hold-ok,
}
use order_to_cash_nestjs.Billing.Ledger.{Entry, hold_entry, release_entry, consume_entry}
use order_to_cash_nestjs.Kernel.Money.{Money}
use order_to_cash_nestjs.Kernel.Envelope.{Envelope, Context}
use order_to_cash_nestjs.Billing.Line.{
  BuyerCredit, HoldRequest, BuyerCreditSnapshot, CreditPayload, CreditRejectionReason,
}
use order_to_cash_nestjs.Billing.Credit.{
  reconstitute, approve_hold, available, with_consumption, with_hold, with_release, new_entry,
  refuse_hold, ReleaseInput, release_hold, consume_hold,
}
use mathlib.Core.List.{append-nil}
use order_to_cash_nestjs.Base.{
  ◌+◌, ◌≡◌, refl, sym, ◌∙◌, ap, List, [], ◌∷◌, ◌++◌, Option, arith, inl, inr, length, length-append,
  ◌≤◌, any, not,
}
use order_to_cash_nestjs.Base.Int.{ℤ, pos, ◌≤ℤ◌, ◌+ℤ◌, int_laws, pos_part, neg_part, ltb_ℤ}
use order_to_cash_nestjs.Base.Text.{Text, ◌=t◌}
use order_to_cash_nestjs.Result.{ok, bind-ok, throw_if, ok-injective}
use order_to_cash_nestjs.Billing.Ledger.Exposure.{net, net-append}

-- One call of a method that did not throw.
pub data CreditChange (c c' : BuyerCredit) : Type 0 where
  approving :
      (id event_id : Text) (r : HoldRequest) (ctx : Context) (e : Entry)
      → approve_hold id event_id r ctx c ≡ ok (e, c')
      → CreditChange c c'
  refusing :
      (event_id : Text) (r : HoldRequest) (reason : CreditRejectionReason) (ctx : Context)
      → refuse_hold event_id r reason ctx c ≡ ok c'
      → CreditChange c c'
  releasing :
      (id event_id : Text) (input : ReleaseInput) (ctx : Context) (e : Option Entry)
      → release_hold id event_id input ctx c ≡ ok (e, c')
      → CreditChange c c'
  consuming :
      (id o : Text) (ctx : Context) (e : Entry)
      → consume_hold id o ctx c ≡ ok (e, c')
      → CreditChange c c'

-- What one call does: entries and facts are only added, at most one of each, and the scalar moves
-- by the net exposure of the entries added, with the limit kept if it held.
pub record Booked (c c' : BuyerCredit) : Type 0 where
  pub added : List Entry
  pub append_only : c'.appended ≡ c.appended ++ added
  pub one_at_most : length added ≤ 1
  pub same_loaded : c'.loaded_entries ≡ c.loaded_entries
  pub in_step : c'.committed_exposure ≡ c.committed_exposure +ℤ net added
  pub within_limit :
      c.committed_exposure ≤ℤ c.credit_limit → c'.committed_exposure ≤ℤ c'.credit_limit
  pub one_fact_at_most : length c'.domain_events ≤ length c.domain_events + 1

telling-events :
    (f : Envelope CreditPayload) (c : BuyerCredit)
    → length (telling f c).domain_events ≤ length c.domain_events + 1
telling-events f c = omega (arith, length-append c.domain_events (f ∷ []))

unchanged-Booked : (c : BuyerCredit) → Booked c c
unchanged-Booked c = record {
  added = [];
  append_only = sym (append-nil c.appended);
  one_at_most = omega arith;
  same_loaded = refl;
  in_step = omega int_laws;
  within_limit = λ h. h;
  one_fact_at_most = omega arith;
}

refused-Booked : (f : Envelope CreditPayload) (c : BuyerCredit) → Booked c (telling f c)
refused-Booked f c = record {
  added = [];
  append_only = sym (append-nil c.appended);
  one_at_most = omega arith;
  same_loaded = refl;
  in_step = omega int_laws;
  within_limit = λ h. h;
  one_fact_at_most = telling-events f c;
}

approved-Booked :
    (id : Text) (r : HoldRequest) (ctx : Context) (f : Envelope CreditPayload) (c : BuyerCredit)
    → r.amount.amount ≤ℤ available c
    → Booked c (telling f (with_hold id r ctx c))
approved-Booked id r ctx f c room = record {
  added = new_entry id r.order_reference r.amount hold_entry ctx ∷ [];
  append_only = refl;
  one_at_most = omega arith;
  same_loaded = refl;
  in_step = omega int_laws;
  within_limit = λ h. omega (int_laws, room);
  one_fact_at_most = telling-events f c;
}

released-Booked :
    (id o : Text) (out : ℤ) (m : Money) (ctx : Context) (f : Envelope CreditPayload)
    (c : BuyerCredit)
    → m.amount ≡ out
    → pos 0 ≤ℤ out
    → Booked c (telling f (with_release id o out m ctx c))
released-Booked id o out m ctx f c same positive = record {
  added = new_entry id o m release_entry ctx ∷ [];
  append_only = refl;
  one_at_most = omega arith;
  same_loaded = refl;
  in_step = omega (int_laws, ap pos_part same, ap neg_part same);
  within_limit = λ h. omega (int_laws, h, positive);
  one_fact_at_most = telling-events f c;
}

consumed-Booked :
    (id o : Text) (m : Money) (ctx : Context) (c : BuyerCredit)
    → Booked c (with_consumption id o m ctx c)
consumed-Booked id o m ctx c = record {
  added = new_entry id o m consume_entry ctx ∷ [];
  append_only = refl;
  one_at_most = omega arith;
  same_loaded = refl;
  in_step = omega int_laws;
  within_limit = λ h. h;
  one_fact_at_most = omega arith;
}

-- A method call on a credit line that does not throw appends at most one entry after those it has,
-- keeps the loaded entries, moves the committed exposure by the net exposure of the entry appended,
-- keeps it within the limit if it was, and records at most one fact.
pub CreditChange-Booked : {c c' : BuyerCredit} → CreditChange c c' → Booked c c'
CreditChange-Booked {c} (approving id event_id r ctx e h) =
    let (free, room, entry, (f, after)) = approve_hold-ok id event_id r ctx c h in
    subst (Booked c) (sym after) (approved-Booked id r ctx f c room)
CreditChange-Booked {c} (refusing event_id r reason ctx h) =
    let (why, (f, after)) = refuse_hold-ok event_id r reason ctx c h in
    subst (Booked c) (sym after) (refused-Booked f c)
CreditChange-Booked {c} (releasing id event_id input ctx e h) =
    elim (release_hold-ok id event_id input ctx c h) [
      | inl (nothing, entry, after) ↦ subst (Booked c) (sym after) (unchanged-Booked c)
      | inr (positive, (m, f, same, entry, after)) ↦
          subst (Booked c) (sym after)
            (released-Booked id input.order_reference _ m ctx f c same (omega (int_laws, positive)))
    ]
CreditChange-Booked {c} (consuming id o ctx e h) =
    let (positive, (m, same, after)) = consume_hold-ok id o ctx c h in
    subst (Booked c) (sym after) (consumed-Booked id o m ctx c)

-- The lines that come out of `reconstitute` and any calls after it.
pub data ReachableCredit (snapshot : BuyerCreditSnapshot) : BuyerCredit → Type 0 where
  loading : {c : BuyerCredit} → reconstitute snapshot ≡ ok c → ReachableCredit snapshot c
  changing :
      {c c' : BuyerCredit}
      → ReachableCredit snapshot c
      → CreditChange c c'
      → ReachableCredit snapshot c'

pub record CreditInvariant (snapshot : BuyerCreditSnapshot) (c : BuyerCredit) : Type 0 where
  pub within_limit : c.committed_exposure ≤ℤ c.credit_limit
  pub never_rewritten : c.loaded_entries ≡ snapshot.order_entries
  pub in_step : c.committed_exposure ≡ snapshot.committed_exposure +ℤ net c.appended

reconstitute-invariant :
    (snapshot : BuyerCreditSnapshot) {c : BuyerCredit}
    → reconstitute snapshot ≡ ok c
    → CreditInvariant snapshot c
unfolding reconstitute
reconstitute-invariant snapshot h =
    let (u, limit, h1) =
      bind-ok
        (throw_if (ltb_ℤ snapshot.credit_limit (pos 0)) (invalid_buyer_credit_snapshot snapshot.id))
        _ h in
    let (v, b1, h2) =
      bind-ok
        (throw_if (ltb_ℤ snapshot.credit_limit snapshot.committed_exposure)
          (invalid_buyer_credit_snapshot snapshot.id))
        _ h1 in
    let (w, b3, h3) =
      bind-ok
        (throw_if
          (any (λ entry. not (entry.amount.currency =t snapshot.currency)) snapshot.order_entries)
          (invalid_buyer_credit_snapshot snapshot.id))
        _ h2 in
    subst (CreditInvariant snapshot) (ok-injective h3) (record {
      within_limit = ground (arith, b1);
      never_rewritten = refl;
      in_step = omega int_laws;
    })

-- A credit line that `reconstitute` accepted, after any sequence of `approveHold`, `refuseHold`,
-- `releaseHold` and `consumeHold` calls that did not throw, has its committed exposure within its
-- limit (B1), the entries that it was loaded with, and a committed exposure that differs from the
-- loaded one by the holds less the releases appended since.
pub ReachableCredit-invariant :
    {snapshot : BuyerCreditSnapshot} {c : BuyerCredit}
    → ReachableCredit snapshot c
    → CreditInvariant snapshot c
ReachableCredit-invariant {snapshot} (loading h) = reconstitute-invariant snapshot h
ReachableCredit-invariant {snapshot} (changing {c} {c'} r step) =
    let v = ReachableCredit-invariant r in
    let b = CreditChange-Booked step in
    record {
      within_limit = b.within_limit v.within_limit;
      never_rewritten = b.same_loaded ∙ v.never_rewritten;
      in_step =
          b.in_step ∙ rw (v.in_step, b.append_only, net-append c.appended b.added) (omega int_laws);
    }
