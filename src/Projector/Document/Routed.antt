-- ===== src/Projector/Document/Routed.antt =====
-- Sequences of facts on their way to the read model (Document), for one order.
use order_to_cash_nestjs.Projector.Delta.Projected.{project_fact-IsProjected}
use order_to_cash_nestjs.Projector.Document.Updates.{
  IsReplayable, is_processed, update-IsReplayable,
}
use order_to_cash_nestjs.Errors.{DomainError}
use order_to_cash_nestjs.Base.Text.{Text, ◌=t◌, text_eq_iff}
use order_to_cash_nestjs.Base.{
  List, Option, ◌≡◌, ◌∷◌, some, ◌⊎◌, inl, [], ◌∙◌, none, false, true, Bool-cases, if◌then◌else◌,
  inr, ap, refl, sym,
}
use order_to_cash_nestjs.Projector.Document.{
  route, route_all, upsert_placeholder, Document, apply, Collection, run_once, err, write,
  placeholder_skeleton, ok, delta_to_pipeline, dedup_key_of,
}
use order_to_cash_nestjs.Projector.Facts.{FactEnvelope}
use order_to_cash_nestjs.Result.{Result}
use order_to_cash_nestjs.Projector.Delta.{ProjectionDelta, project_fact}

-- The document of an order after one fact.
abbrev pub updated : ProjectionDelta → Text → Option Document → Document
updated d event_id o = (run_once d event_id (upsert_placeholder d.order_id d.entry.occurred_at o)).1

abbrev pub step_of : Result ProjectionDelta → Text → Text → Option Document → Option Document
step_of (err thrown) event_id id o = o
step_of (ok d) event_id id o = if id =t d.order_id then some (updated d event_id o) else o

unfoldable pub step : FactEnvelope → Text → Option Document → Option Document
step f id o = step_of (project_fact f) f.event_id id o

pub Result-cases :
    (r : Result ProjectionDelta)
    → ((e : DomainError) × (r ≡ err e)) ⊎ ((d : ProjectionDelta) × (r ≡ ok d))
Result-cases (err e) = inl (e, refl)
Result-cases (ok d) = inr (d, refl)

pub route-step :
    (f : FactEnvelope) (collection : Collection) (id : Text)
    → route f collection id ≡ step f id (collection id)
unfolding route apply write step
route-step f collection id = elim (Result-cases (project_fact f)) [
  | inl (e, thrown) ↦ rw (thrown, route) refl
  | inr (d, made) ↦
      rw (made, route)
        (elim (Bool-cases (id =t d.order_id)) [
          | inl e ↦
              let same = (text_eq_iff id d.order_id).0 e in
              rw e (ap (λ (k : Text). some (updated d f.event_id (collection k))) (sym same))
          | inr e ↦ rw e refl
        ])
]

unfoldable pub steps : List FactEnvelope → Text → Option Document → Option Document
steps [] id o = o
steps (f ∷ fs) id o = steps fs id (step f id o)

pub route_all-steps :
    (fs : List FactEnvelope) (collection : Collection) (id : Text)
    → route_all fs collection id ≡ steps fs id (collection id)
unfolding route_all steps
route_all-steps [] collection id = refl
route_all-steps (f ∷ fs) collection id =
    route_all-steps fs (route f collection) id ∙ ap (steps fs id) (route-step f collection id)

-- No document, or one that is replayable.
abbrev pub IsGood : Option Document → Type 0
IsGood none = Unit
IsGood (some doc) = IsReplayable doc

pub skeleton-IsReplayable : (id seed : Text) → IsReplayable (placeholder_skeleton id seed)
skeleton-IsReplayable id seed = record { distinct = tt; keyed = tt; keys = tt }

pub upsert-IsReplayable :
    (id seed : Text) (o : Option Document) → IsGood o → IsReplayable (upsert_placeholder id seed o)
unfolding upsert_placeholder
upsert-IsReplayable id seed none h = skeleton-IsReplayable id seed
upsert-IsReplayable id seed (some doc) h = h

pub run_once-new :
    (d : ProjectionDelta) (id : Text) (doc : Document)
    → is_processed id doc ≡ false
    → (run_once d id doc).1 ≡ delta_to_pipeline d (dedup_key_of id) doc
unfolding run_once
run_once-new d id doc h = rw h refl

pub run_once-old :
    (d : ProjectionDelta) (id : Text) (doc : Document)
    → is_processed id doc ≡ true
    → (run_once d id doc).1 ≡ doc
unfolding run_once
run_once-old d id doc h = rw h refl

pub run_once-IsReplayable :
    (d : ProjectionDelta) (id : Text) (doc : Document)
    → d.entry.event_id ≡ id
    → IsReplayable doc
    → IsReplayable (run_once d id doc).1
run_once-IsReplayable d id doc e h = elim (Bool-cases (is_processed id doc)) [
  | inl old ↦ rw (run_once-old d id doc old) h
  | inr new ↦ rw (run_once-new d id doc new) (update-IsReplayable d id doc e new h)
]

pub step-IsGood :
    (f : FactEnvelope) (id : Text) (o : Option Document) → IsGood o → IsGood (step f id o)
unfolding step
step-IsGood f id o h = elim (Result-cases (project_fact f)) [
  | inl (e, thrown) ↦ rw (thrown, step_of) h
  | inr (d, made) ↦
      rw (made, step_of)
        (elim (Bool-cases (id =t d.order_id)) [
          | inl e ↦ rw e (
              run_once-IsReplayable d f.event_id _ (project_fact-IsProjected f made).of_event
                (upsert-IsReplayable d.order_id d.entry.occurred_at o h))
          | inr e ↦ rw e h
        ])
]

pub steps-IsGood :
    (fs : List FactEnvelope) (id : Text) (o : Option Document) → IsGood o → IsGood (steps fs id o)
unfolding steps
steps-IsGood [] id o h = h
steps-IsGood (f ∷ fs) id o h = steps-IsGood fs id (step f id o) (step-IsGood f id o h)
