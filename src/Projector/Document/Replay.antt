-- ===== src/Projector/Document/Replay.antt =====
-- Sequences of facts through the path to the read model (Document), one order at a time.
use order_to_cash_nestjs.Projector.Document.Routed.{
  run_once-old, IsGood, steps, run_once-new, updated, step, route_all-steps, skeleton-IsReplayable,
  step_of, step-IsGood, steps-IsGood, Result-cases,
}
use mathlib.Core.Path.{subst}
use order_to_cash_nestjs.Base.Rearranging.{Pairwise, Pairwise-perm}
use order_to_cash_nestjs.Projector.Document.Fields.{
  same_writer, max_text-swap, max_text_self, max_text_comm, Admits,
}
use order_to_cash_nestjs.Projector.Delta.Projected.{IsProjected, project_fact-IsProjected}
use order_to_cash_nestjs.Projector.Document.Updates.{
  IsReplayable, is_processed, is_processed-update, update-swap,
}
use order_to_cash_nestjs.Base.Text.{Text, ◌=t◌, text_eq_iff, text_eq_refl}
use order_to_cash_nestjs.Base.{
  List, Option, ◌≡◌, ◌∷◌, some, inl, ◌∙◌, none, false, true, Bool-cases, inr, ap, refl, arith, sym,
}
use order_to_cash_nestjs.Projector.Document.{
  route_all, upsert_placeholder, Document, Collection, run_once, placeholder_skeleton, ok,
  delta_to_pipeline, dedup_key_of, max_text,
}
use order_to_cash_nestjs.Projector.Facts.{FactEnvelope, Payload}
use order_to_cash_nestjs.Projector.Delta.{ProjectionDelta, project_fact}
use mathlib.Core.List.{Permᴰ}

module _ (d e : ProjectionDelta) (f g : FactEnvelope) (pd : IsProjected d f) (pe : IsProjected e g)
    (other : (g.event_id =t f.event_id) ≡ false)
    (once : same_writer f.payload g.payload ≡ false) where
  other' : (f.event_id =t g.event_id) ≡ false
  other' =
      ground (arith, other, text_eq_iff f.event_id g.event_id, text_eq_iff g.event_id f.event_id)

  -- On a document that is there.
  run_once-swap :
      (doc : Document)
      → IsReplayable doc
      → (run_once e g.event_id (run_once d f.event_id doc).1).1
        ≡ (run_once d f.event_id (run_once e g.event_id doc).1).1
  run_once-swap doc h = elim (Bool-cases (is_processed f.event_id doc)) [
    | inl old_f ↦ elim (Bool-cases (is_processed g.event_id doc)) [
      | inl old_g ↦
          rw
            (
              run_once-old d f.event_id doc old_f,
              run_once-old e g.event_id doc old_g,
              run_once-old d f.event_id doc old_f,
            )
            refl
      | inr new_g ↦
          let still =
            is_processed-update e g.event_id f.event_id doc new_g ∙ ground (arith, old_f) in
          rw
            (
              run_once-old d f.event_id doc old_f,
              run_once-new e g.event_id doc new_g,
              run_once-old d f.event_id (delta_to_pipeline e (dedup_key_of g.event_id) doc) still,
            )
            refl
    ]
    | inr new_f ↦ elim (Bool-cases (is_processed g.event_id doc)) [
      | inl old_g ↦
          let still =
            is_processed-update d f.event_id g.event_id doc new_f ∙ ground (arith, old_g) in
          rw
            (
              run_once-old e g.event_id doc old_g,
              run_once-new d f.event_id doc new_f,
              run_once-old e g.event_id (delta_to_pipeline d (dedup_key_of f.event_id) doc) still,
            )
            refl
      | inr new_g ↦
          let still_g =
            is_processed-update d f.event_id g.event_id doc new_f ∙ ground (arith, new_g, other') in
          let still_f =
            is_processed-update e g.event_id f.event_id doc new_g ∙ ground (arith, new_f, other) in
          rw
            (
              run_once-new d f.event_id doc new_f,
              run_once-new e g.event_id doc new_g,
              run_once-new e g.event_id (delta_to_pipeline d (dedup_key_of f.event_id) doc) still_g,
              run_once-new d f.event_id (delta_to_pipeline e (dedup_key_of g.event_id) doc) still_f,
            )
            (update-swap d e f g doc doc.updated_at doc.updated_at pd pe other once h new_f new_g
              (max_text-swap doc.updated_at d.entry.occurred_at e.entry.occurred_at))
    ]
  ]

  updated-swap :
      d.order_id ≡ e.order_id
      → (o : Option Document) → IsGood o
      → updated e g.event_id (some (updated d f.event_id o))
        ≡ updated d f.event_id (some (updated e g.event_id o))
  unfolding upsert_placeholder
  updated-swap order (some doc) h = run_once-swap doc h
  updated-swap order none h =
      let a = placeholder_skeleton d.order_id d.entry.occurred_at in
      let b = placeholder_skeleton e.order_id e.entry.occurred_at in
      let still_g = is_processed-update d f.event_id g.event_id a refl ∙ ground (arith, other') in
      let still_f = is_processed-update e g.event_id f.event_id b refl ∙ ground (arith, other) in
      rw
        (
          run_once-new d f.event_id a refl,
          run_once-new e g.event_id b refl,
          run_once-new e g.event_id (delta_to_pipeline d (dedup_key_of f.event_id) a) still_g,
          run_once-new d f.event_id (delta_to_pipeline e (dedup_key_of g.event_id) b) still_f,
        )
        (update-swap d e f g a d.entry.occurred_at e.entry.occurred_at pd pe other once
            (skeleton-IsReplayable d.order_id d.entry.occurred_at) refl refl
            (ap (λ (t : Text). max_text t e.entry.occurred_at) (max_text_self d.entry.occurred_at)
              ∙ max_text_comm d.entry.occurred_at e.entry.occurred_at
              ∙ ap (λ (t : Text). max_text t d.entry.occurred_at)
                  (sym (max_text_self e.entry.occurred_at)))
          ∙ ap
              (λ (k : Text). delta_to_pipeline d (dedup_key_of f.event_id) (
                delta_to_pipeline e (dedup_key_of g.event_id)
                  (placeholder_skeleton k e.entry.occurred_at)))
              order)

step-swap :
    (f g : FactEnvelope) (id : Text) (o : Option Document)
    → Admits f g
    → IsGood o
    → step g id (step f id o) ≡ step f id (step g id o)
unfolding step
step-swap f g id o admits h = elim (Result-cases (project_fact f)) [
  | inl (e, thrown) ↦ rw (thrown, step_of) refl
  | inr (d, made) ↦ elim (Result-cases (project_fact g)) [
    | inl (e', thrown') ↦ rw (thrown', step_of) refl
    | inr (e, made') ↦
        rw (made, made')
          (both d e (project_fact-IsProjected f made) (project_fact-IsProjected g made'))
  ]
]
  where
    both :
        (d e : ProjectionDelta)
        → IsProjected d f
        → IsProjected e g
        → step_of (ok e) g.event_id id (step_of (ok d) f.event_id id o)
          ≡ step_of (ok d) f.event_id id (step_of (ok e) g.event_id id o)
    both d e pd pe = elim (Bool-cases (id =t d.order_id)) [
      | inr no_d ↦ rw no_d refl
      | inl at_d ↦ elim (Bool-cases (id =t e.order_id)) [
        | inr no_e ↦ rw no_e refl
        | inl at_e ↦
            let order =
              sym ((text_eq_iff id d.order_id).0 at_d) ∙ (text_eq_iff id e.order_id).0 at_e in
            let one_order : (g.correlation_id =t f.correlation_id) ≡ true =
              rw (← pd.of_order, ← pe.of_order, order) (text_eq_refl e.order_id) in
            rw (at_d, at_e)
              (ap some (
                updated-swap d e f g pd pe admits.other_id
                  (ground (arith, admits.other_field, one_order)) order o h))
      ]
    ]

Admits-sym : (f g : FactEnvelope) → Admits f g → Admits g f
Admits-sym f g h = record {
  other_id =
      ground
        (arith, h.other_id, text_eq_iff f.event_id g.event_id, text_eq_iff g.event_id f.event_id);
  other_field = ground (
    arith,
    h.other_field,
    text_eq_iff f.correlation_id g.correlation_id,
    text_eq_iff g.correlation_id f.correlation_id,
    same_writer-sym f.payload g.payload,
  );
}
  where
    same_writer-sym : (p q : Payload) → same_writer p q ≡ same_writer q p
    same_writer-sym p q = ground arith

steps-perm :
    (fs gs : List FactEnvelope) (id : Text) (o : Option Document)
    → Permᴰ fs gs
    → Pairwise Admits fs
    → IsGood o
    → steps fs id o ≡ steps gs id o
unfolding steps
steps-perm _ _ id o Permᴰ.nil h good = refl
steps-perm (f ∷ fs) (g ∷ gs) id o (Permᴰ.cons e r) h good =
    rw (← e) (steps-perm fs gs id (step f id o) r h.1 (step-IsGood f id o good))
steps-perm (f ∷ g ∷ fs) (g' ∷ f' ∷ _) id o (Permᴰ.swap e e') h good =
    rw (← e, ← e') (ap (steps fs id) (step-swap f g id o h.0.0 good))
steps-perm _ _ id o (Permᴰ.trans {l₂ = m} r s) h good =
    steps-perm _ m id o r h good
    ∙ steps-perm m _ id o s (Pairwise-perm Admits Admits-sym _ m r h) good

abbrev pub empty : Collection
empty id = none

-- After any facts that an empty collection took, two rearrangements of further facts leave the same
-- document for every order, its timeline included, provided that the further facts have pairwise
-- distinct event ids, and that no two facts of one order write the same of the header, the
-- despatch, invoice and payment references and the cancellation reason (PR15).
pub route_all-perm :
    (earlier fs gs : List FactEnvelope) (id : Text)
    → Permᴰ fs gs
    → Pairwise Admits fs
    → route_all fs (route_all earlier empty) id ≡ route_all gs (route_all earlier empty) id
route_all-perm earlier fs gs id r h =
    let good : IsGood (route_all earlier empty id) =
      subst IsGood (sym (route_all-steps earlier empty id)) (steps-IsGood earlier id none tt) in
    route_all-steps fs (route_all earlier empty) id
    ∙ steps-perm fs gs id (route_all earlier empty id) r h good
    ∙ sym (route_all-steps gs (route_all earlier empty) id)
