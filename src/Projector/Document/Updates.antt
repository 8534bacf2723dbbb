-- ===== src/Projector/Document/Updates.antt =====
-- Two updates of one document by the pipeline of delta-to-pipeline.ts.
use order_to_cash_nestjs.Projector.Document.Fields.{
  same_writer, max_rank-swap, raised-raised, fill-fill, one_despatch, one_invoice, one_payment,
  one_reason, write-write, one_header,
}
use order_to_cash_nestjs.Projector.Delta.Projected.{IsProjected}
use order_to_cash_nestjs.Projector.Facts.{FactEnvelope}
use mathlib.Core.Path.{subst}
use order_to_cash_nestjs.Projector.Delta.{ProjectionDelta}
use order_to_cash_nestjs.Projector.Timeline.{TimelineEntry, causal_timeline_order}
use order_to_cash_nestjs.Base.Rearranging.{
  Pairwise, sort-keeps, snoc-perm, any-perm, sort-perm, Pairwise-perm, All-perm,
}
use order_to_cash_nestjs.Projector.Timeline.Rearranged.{
  AreDistinct, IsFresh, causal_timeline_order-keeps, causal_timeline_order-perm, AreDistinct-perm,
}
use order_to_cash_nestjs.Base.{
  List, arith, Bool, any, ◌≡◌, All, Bool-cases, ◌∷◌, false, inl, All-map, true, [], inr, ◌++◌, refl,
  ◌||◌, ◌∙◌, ap, sym,
}
use order_to_cash_nestjs.Base.Sorting.{
  IsStrictOrder, text_ltb, Apart, text_ltb-asymm, text_ltb_trans, sort, text_ltb-total,
}
use order_to_cash_nestjs.Projector.Document.{
  Document, set_union, dedup_key_of, delta_to_pipeline, max_text,
}
use order_to_cash_nestjs.Base.Text.{Text, ◌=t◌, text_eq_iff, text_eq_refl}
use mathlib.Core.List.{Permᴰ}
use mathlib.Core.List.Permᴰ

abbrev pub OtherKey : Text → Text → Type 0
OtherKey a b = (b =t a) ≡ false

OtherKey-sym : (a b : Text) → OtherKey a b → OtherKey b a
OtherKey-sym a b h = ground (arith, h, text_eq_iff a b, text_eq_iff b a)

-- A document whose keys are distinct, whose entries have distinct ids, and whose entries are all of
-- processed facts.
pub record IsReplayable (doc : Document) : Type 0 where
  pub distinct : AreDistinct doc.events
  pub keyed :
      All
        (λ (e : TimelineEntry).
          any (λ k. k =t dedup_key_of e.event_id) doc.processed_event_keys ≡ true)
        doc.events
  pub keys : Pairwise OtherKey doc.processed_event_keys

abbrev pub is_processed : Text → Document → Bool
is_processed id doc = any (λ k. k =t dedup_key_of id) doc.processed_event_keys

any-All : (t : Text) (keys : List Text) → any (λ k. k =t t) keys ≡ false → All (OtherKey t) keys
any-All t [] h = tt
any-All t (k ∷ ks) h = (ground (arith, h), any-All t ks (ground (arith, h)))

text_ltb-IsStrictOrder : IsStrictOrder text_ltb
text_ltb-IsStrictOrder = record { asymm = text_ltb-asymm; trans = text_ltb_trans }

OtherKey-Apart : (a b : Text) → OtherKey a b → Apart text_ltb a b
OtherKey-Apart a b h = elim (Bool-cases (text_ltb a b)) [
  | inl e ↦ inl e
  | inr e ↦ inr (ground (arith, e, h, text_ltb-total a b, text_eq_iff b a))
]

Pairwise-Apart : (keys : List Text) → Pairwise OtherKey keys → Pairwise (Apart text_ltb) keys
Pairwise-Apart [] h = tt
Pairwise-Apart (k ∷ ks) h = (All-map (OtherKey-Apart k) ks h.0, Pairwise-Apart ks h.1)

set_union-new :
    (keys : List Text) (t : Text)
    → any (λ k. k =t t) keys ≡ false
    → set_union keys t ≡ keys ++ t ∷ []
unfolding set_union
set_union-new keys t h = rw h refl

-- The keys after an update, up to their order.
keys-perm :
    (keys : List Text) (t : Text)
    → any (λ k. k =t t) keys ≡ false
    → Permᴰ (sort text_ltb (set_union keys t)) (t ∷ keys)
keys-perm keys t h =
    rw (set_union-new keys t h)
      (Permᴰ.trans (sort-keeps text_ltb (keys ++ t ∷ [])) (snoc-perm t keys))

after-any :
    (keys : List Text) (s t : Text)
    → any (λ k. k =t t) keys ≡ false
    → any (λ k. k =t s) (sort text_ltb (set_union keys t)) ≡ ((t =t s) || any (λ k. k =t s) keys)
after-any keys s t h = any-perm (λ k. k =t s) _ _ (keys-perm keys t h)

keys-swap :
    (keys : List Text) (s t : Text)
    → OtherKey s t
    → Pairwise OtherKey keys
    → any (λ k. k =t s) keys ≡ false
    → any (λ k. k =t t) keys ≡ false
    → sort text_ltb (set_union (sort text_ltb (set_union keys s)) t)
      ≡ sort text_ltb (set_union (sort text_ltb (set_union keys t)) s)
keys-swap keys s t o distinct hs ht =
    let no_t = after-any keys t s hs ∙ ground (arith, ht, OtherKey-sym s t o) in
    let no_s = after-any keys s t ht ∙ ground (arith, hs, o) in
    let left =
      Permᴰ.trans (snoc-perm t (sort text_ltb (set_union keys s)))
        (Permᴰ.cons refl (keys-perm keys s hs)) in
    let right =
      Permᴰ.trans (snoc-perm s (sort text_ltb (set_union keys t)))
        (Permᴰ.cons refl (keys-perm keys t ht)) in
    let all : Pairwise OtherKey (t ∷ s ∷ keys) =
      ((OtherKey-sym s t o, any-All t keys ht), (any-All s keys hs, distinct)) in
    let swapped : Permᴰ (t ∷ s ∷ keys) (s ∷ t ∷ keys) = Permᴰ.swap refl refl in
    rw
      (
        set_union-new (sort text_ltb (set_union keys s)) t no_t,
        set_union-new (sort text_ltb (set_union keys t)) s no_s,
      )
      (sort-perm text_ltb text_ltb-IsStrictOrder _ _
        (Permᴰ.trans left (Permᴰ.trans swapped (Permᴰ.symm right)))
        (Pairwise-Apart _ (Pairwise-perm OtherKey OtherKey-sym _ _ (Permᴰ.symm left) all)))

dedup_key-eq : (a b : Text) → (dedup_key_of a =t dedup_key_of b) ≡ (a =t b)
unfolding ◌=t◌
dedup_key-eq a b = refl

pub OtherKey-of : (a b : Text) → (b =t a) ≡ false → OtherKey (dedup_key_of a) (dedup_key_of b)
OtherKey-of a b h = dedup_key-eq b a ∙ h

not_same :
    (doc : Document) (id : Text) (x : TimelineEntry)
    → is_processed id doc ≡ false
    → is_processed x.event_id doc ≡ true
    → (x.event_id =t id) ≡ false
not_same doc id x h k = elim (Bool-cases (x.event_id =t id)) [
  | inl e ↦
      let same = (text_eq_iff x.event_id id).0 e in
      cc (h, k, ap (λ (i : Text). is_processed i doc) same)
  | inr e ↦ e
]

pub unprocessed-IsFresh :
    (doc : Document) (id : Text)
    → IsReplayable doc
    → is_processed id doc ≡ false
    → IsFresh id doc.events
unprocessed-IsFresh doc id good h = All-map (λ x k. not_same doc id x h k) doc.events good.keyed

appended-perm :
    (events : List TimelineEntry) (e : TimelineEntry)
    → Permᴰ (causal_timeline_order (events ++ e ∷ [])) (e ∷ events)
appended-perm events e =
    Permᴰ.trans (causal_timeline_order-keeps (events ++ e ∷ [])) (snoc-perm e events)

pub is_processed-update :
    (d : ProjectionDelta) (id id' : Text) (doc : Document)
    → is_processed id doc ≡ false
    → is_processed id' (delta_to_pipeline d (dedup_key_of id) doc)
      ≡ ((id =t id') || is_processed id' doc)
unfolding delta_to_pipeline
is_processed-update d id id' doc h =
    after-any doc.processed_event_keys (dedup_key_of id') (dedup_key_of id) h
    ∙ ap (λ (b : Bool). b || is_processed id' doc) (dedup_key-eq id id')

pub update-IsReplayable :
    (d : ProjectionDelta) (id : Text) (doc : Document)
    → d.entry.event_id ≡ id
    → is_processed id doc ≡ false
    → IsReplayable doc
    → IsReplayable (delta_to_pipeline d (dedup_key_of id) doc)
unfolding delta_to_pipeline
update-IsReplayable d id doc e h good =
    let fresh = subst (λ i. IsFresh i doc.events) (sym e) (unprocessed-IsFresh doc id good h) in
    let kept = λ (x : TimelineEntry) (k : is_processed x.event_id doc ≡ true).
      after-any doc.processed_event_keys (dedup_key_of x.event_id) (dedup_key_of id) h
      ∙ ground (arith, k) in
    let own =
      after-any doc.processed_event_keys (dedup_key_of d.entry.event_id) (dedup_key_of id) h
      ∙ ground (
        arith,
        text_eq_refl (dedup_key_of id),
        ap (λ (i : Text). dedup_key_of id =t dedup_key_of i) e,
      ) in
    record {
      distinct =
          AreDistinct-perm _ _ (Permᴰ.symm (appended-perm doc.events d.entry))
            (fresh, good.distinct);
      keyed =
          All-perm _ _ _ (Permᴰ.symm (appended-perm doc.events d.entry))
            (own, All-map kept doc.events good.keyed);
      keys =
          Pairwise-perm OtherKey OtherKey-sym _ _
            (Permᴰ.symm (keys-perm doc.processed_event_keys (dedup_key_of id) h))
            (any-All (dedup_key_of id) doc.processed_event_keys h, good.keys);
    }

events-swap :
    (events : List TimelineEntry) (a b : TimelineEntry)
    → AreDistinct events
    → IsFresh a.event_id events
    → IsFresh b.event_id events
    → (b.event_id =t a.event_id) ≡ false
    → causal_timeline_order (causal_timeline_order (events ++ a ∷ []) ++ b ∷ [])
      ≡ causal_timeline_order (causal_timeline_order (events ++ b ∷ []) ++ a ∷ [])
events-swap events a b distinct fa fb other =
    let left =
      Permᴰ.trans (snoc-perm b (causal_timeline_order (events ++ a ∷ [])))
        (Permᴰ.cons refl (appended-perm events a)) in
    let right =
      Permᴰ.trans (snoc-perm a (causal_timeline_order (events ++ b ∷ [])))
        (Permᴰ.cons refl (appended-perm events b)) in
    let swapped : Permᴰ (b ∷ a ∷ events) (a ∷ b ∷ events) = Permᴰ.swap refl refl in
    let all : AreDistinct (a ∷ b ∷ events) = ((other, fa), (fb, distinct)) in
    causal_timeline_order-perm _ _ (Permᴰ.trans left (Permᴰ.trans swapped (Permᴰ.symm right)))
      (AreDistinct-perm _ _ (Permᴰ.symm (Permᴰ.trans left swapped)) all)

-- Two deltas of one order that `projectFact` made of facts that admit each other, on a document and
-- the same with another instant, such that the instants agree in the end.
pub update-swap :
    (d e : ProjectionDelta) (f g : FactEnvelope) (doc : Document) (u v : Text)
    → IsProjected d f
    → IsProjected e g
    → (g.event_id =t f.event_id) ≡ false
    → same_writer f.payload g.payload ≡ false
    → IsReplayable doc
    → is_processed f.event_id doc ≡ false
    → is_processed g.event_id doc ≡ false
    → max_text (max_text u d.entry.occurred_at) e.entry.occurred_at
      ≡ max_text (max_text v e.entry.occurred_at) d.entry.occurred_at
    → delta_to_pipeline e
        (dedup_key_of g.event_id)
        (delta_to_pipeline d (dedup_key_of f.event_id) (record doc { updated_at = u }))
      ≡ delta_to_pipeline d
          (dedup_key_of f.event_id)
          (delta_to_pipeline e (dedup_key_of g.event_id) (record doc { updated_at = v }))
unfolding delta_to_pipeline
update-swap d e f g doc u v pd pe other once good hf hg instants =
    let fresh_d =
      subst (λ i. IsFresh i doc.events) (sym pd.of_event)
        (unprocessed-IsFresh doc f.event_id good hf) in
    let fresh_e =
      subst (λ i. IsFresh i doc.events) (sym pe.of_event)
        (unprocessed-IsFresh doc g.event_id good hg) in
    let apart : (e.entry.event_id =t d.entry.event_id) ≡ false =
      rw (pd.of_event, pe.of_event) other in
    rw
      (
        keys-swap doc.processed_event_keys (dedup_key_of f.event_id) (dedup_key_of g.event_id)
            (OtherKey-of f.event_id g.event_id other) good.keys hf hg,
        events-swap doc.events d.entry e.entry good.distinct fresh_d fresh_e apart,
        instants,
        max_rank-swap doc.status_rank d.status_rank e.status_rank,
        raised-raised d.implied_status e.implied_status d.status_rank e.status_rank doc.status_rank
            doc.status pd.ranked pe.ranked pd.unranked pe.unranked,
        fill-fill doc.despatch_reference d.despatch_reference e.despatch_reference
            (rw (pd.despatch, pe.despatch) (one_despatch f.payload g.payload once)),
        fill-fill doc.invoice_reference d.invoice_reference e.invoice_reference
            (rw (pd.invoice, pe.invoice) (one_invoice f.payload g.payload once)),
        fill-fill doc.payment_reference d.payment_reference e.payment_reference
            (rw (pd.payment, pe.payment) (one_payment f.payload g.payload once)),
        fill-fill doc.cancellation_reason d.cancellation_reason e.cancellation_reason
            (rw (pd.reason, pe.reason) (one_reason f.payload g.payload once)),
        write-write doc.header d.header e.header
            (rw (pd.header, pe.header) (one_header f.payload g.payload once)),
      )
      refl
