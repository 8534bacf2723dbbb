-- ===== src/Projector/Document/Fields.antt =====
-- Lemmas on the fields of a document that `deltaToPipeline` (delta-to-pipeline.ts) sets.
use order_to_cash_nestjs.Base.Sorting.{text_ltb-asymm, text_ltb-total, text_ltb_trans}
use order_to_cash_nestjs.Projector.Delta.Projected.{
  header_in, despatch_in, invoice_in, payment_in, reason_in, status_at,
}
use order_to_cash_nestjs.Orders.Status.{OrderStatus}
use order_to_cash_nestjs.Projector.Delta.{OrderHeader}
use order_to_cash_nestjs.Base.Text.{◌=t◌, Text}
use order_to_cash_nestjs.Base.{
  Bool, ◌≡◌, Option, ℕ, false, none, arith, ◌&&◌, ◌⊎◌, some, inl, inr, Bool-cases, sym, refl, ◌==◌,
  ◌∙◌, ap, not,
}
use order_to_cash_nestjs.Projector.Document.{
  fill_if_absent, written_header, max_text, max_rank, raised_status,
}
use order_to_cash_nestjs.Projector.Facts.{Payload, FactEnvelope}
use order_to_cash_nestjs.Projector.Facts.{
  order_placed, order_despatched, invoice_issued, payment_received, order_cancelled,
}

-- The field that a payload writes and no other payload may: 1 for the header, 2 to 4 for a
-- reference, 5 for the reason; 0 if there is none.
abbrev pub written_once : Payload → ℕ
written_once (order_placed p) = 1
written_once (order_despatched reference) = 2
written_once (invoice_issued reference) = 3
written_once (payment_received reference) = 4
written_once (order_cancelled order_reference reason compensation) = 5
written_once _ = 0

abbrev pub same_writer : Payload → Payload → Bool
same_writer p q = not (written_once p == 0) && (written_once p == written_once q)

-- Distinct ids, and within an order no two facts that write one such field.
pub record Admits (f g : FactEnvelope) : Type 0 where
  pub other_id : (g.event_id =t f.event_id) ≡ false
  pub other_field :
      ((g.correlation_id =t f.correlation_id) && same_writer f.payload g.payload) ≡ false

pub one_header :
    (p q : Payload) → same_writer p q ≡ false → (header_in p ≡ none) ⊎ (header_in q ≡ none)
one_header (order_placed p) (order_placed q) h = cc
one_header (order_placed p) _ h = inr refl
one_header _ q h = inl refl

pub one_despatch :
    (p q : Payload) → same_writer p q ≡ false → (despatch_in p ≡ none) ⊎ (despatch_in q ≡ none)
one_despatch (order_despatched p) (order_despatched q) h = cc
one_despatch (order_despatched p) _ h = inr refl
one_despatch _ q h = inl refl

pub one_invoice :
    (p q : Payload) → same_writer p q ≡ false → (invoice_in p ≡ none) ⊎ (invoice_in q ≡ none)
one_invoice (invoice_issued p) (invoice_issued q) h = cc
one_invoice (invoice_issued p) _ h = inr refl
one_invoice _ q h = inl refl

pub one_payment :
    (p q : Payload) → same_writer p q ≡ false → (payment_in p ≡ none) ⊎ (payment_in q ≡ none)
one_payment (payment_received p) (payment_received q) h = cc
one_payment (payment_received p) _ h = inr refl
one_payment _ q h = inl refl

pub one_reason :
    (p q : Payload) → same_writer p q ≡ false → (reason_in p ≡ none) ⊎ (reason_in q ≡ none)
one_reason (order_cancelled o r s) (order_cancelled o' r' s') h = cc
one_reason (order_cancelled o r s) _ h = inr refl
one_reason _ q h = inl refl

fill-none : (v : Option Text) → fill_if_absent v none ≡ v
unfolding fill_if_absent
fill-none none = refl
fill-none (some x) = refl

pub fill-fill :
    (old v w : Option Text)
    → (v ≡ none) ⊎ (w ≡ none)
    → fill_if_absent (fill_if_absent old v) w ≡ fill_if_absent (fill_if_absent old w) v
fill-fill old v w (inl e) = rw e (
    ap (λ (o : Option Text). fill_if_absent o w) (fill-none old)
    ∙ sym (fill-none (fill_if_absent old w)))
fill-fill old v w (inr e) = rw e (
    fill-none (fill_if_absent old v)
    ∙ ap (λ (o : Option Text). fill_if_absent o v) (sym (fill-none old)))

pub write-write :
    (old v w : Option OrderHeader)
    → (v ≡ none) ⊎ (w ≡ none)
    → written_header w (written_header v old) ≡ written_header v (written_header w old)
unfolding written_header
write-write old v w (inl e) = rw e refl
write-write old v w (inr e) = rw e refl

pub max_text_comm : (a b : Text) → max_text a b ≡ max_text b a
unfolding max_text
max_text_comm a b = ground (arith, text_ltb-asymm a b, text_ltb-total a b)

pub max_text-swap : (a b c : Text) → max_text (max_text a b) c ≡ max_text (max_text a c) b
unfolding max_text
max_text-swap a b c = ground (
  arith,
  text_ltb-asymm a b,
  text_ltb-asymm b c,
  text_ltb-asymm a c,
  text_ltb-asymm c b,
  text_ltb-total b c,
  text_ltb-total a b,
  text_ltb-total a c,
  text_ltb_trans a b c,
  text_ltb_trans a c b,
  text_ltb_trans b c a,
  text_ltb_trans c b a,
  text_ltb_trans b a c,
  text_ltb_trans c a b,
)

pub max_text_self : (a : Text) → max_text a a ≡ a
unfolding max_text
max_text_self a = ground arith

pub max_rank-swap : (a b c : ℕ) → max_rank (max_rank a b) c ≡ max_rank (max_rank a c) b
unfolding max_rank
max_rank-swap a b c = ground arith

pub raised-raised :
    (i j : Option OrderStatus) (m n r : ℕ) (s : OrderStatus)
    → i ≡ status_at m
    → j ≡ status_at n
    → (i ≡ none → m ≡ 0)
    → (j ≡ none → n ≡ 0)
    → raised_status j n (max_rank r m) (raised_status i m r s)
      ≡ raised_status i m (max_rank r n) (raised_status j n r s)
unfolding raised_status max_rank
raised-raised none none m n r s hi hj zi zj = refl
raised-raised none (some j) m n r s hi hj zi zj = let z = zi refl in rw z (ground arith)
raised-raised (some i) none m n r s hi hj zi zj = let z = zj refl in rw z (ground arith)
raised-raised (some i) (some j) m n r s hi hj zi zj = elim (Bool-cases (m == n)) [
  | inl e ↦
      let one : m ≡ n = ground (arith, e) in
      let both : i ≡ j = cc (hi ∙ ap status_at one ∙ sym hj) in rw (one, both) refl
  | inr e ↦ ground (arith, e)
]
