-- ===== src/Projector/Document/Redelivery.antt =====
-- Redelivered facts, and the status of a document, through the update of delta-to-pipeline.ts.
use mathlib.Core.Path.{subst}
use order_to_cash_nestjs.Projector.Delta.Projected.{
  status_at, project_fact-IsProjected, IsProjected,
}
use order_to_cash_nestjs.Orders.Status.{OrderStatus, placed}
use order_to_cash_nestjs.Projector.Document.Updates.{is_processed, is_processed-update}
use order_to_cash_nestjs.Projector.Document.{
  Document, raised_status, max_rank, run_once, upsert_placeholder, Collection, route, route_all,
  delta_to_pipeline,
}
use order_to_cash_nestjs.Base.{
  Option, some, List, ◌≤◌, ◌≡◌, true, ◌∷◌, ℕ, none, Bool-cases, [], inl, arith, ltb, inr, ◌∙◌, ap,
  refl, sym,
}
use order_to_cash_nestjs.Projector.Facts.{FactEnvelope}
use order_to_cash_nestjs.Projector.Document.Routed.{
  steps, step, Result-cases, run_once-old, step_of, route_all-steps, run_once-new, route-step,
}
use order_to_cash_nestjs.Projector.Document.Replay.{empty}
use order_to_cash_nestjs.Projector.Delta.{ProjectionDelta, project_fact}
use order_to_cash_nestjs.Base.Text.{Text, ◌=t◌, text_eq_refl}

IsProcessed : Text → Option Document → Type 0
IsProcessed event_id none = ⊥
IsProcessed event_id (some doc) = is_processed event_id doc ≡ true

run_once-marks :
    (d : ProjectionDelta) (id : Text) (doc : Document)
    → is_processed id (run_once d id doc).1 ≡ true
run_once-marks d id doc = elim (Bool-cases (is_processed id doc)) [
  | inl old ↦ rw (run_once-old d id doc old) old
  | inr new ↦
      rw (run_once-new d id doc new)
        (is_processed-update d id id doc new ∙ ground (arith, text_eq_refl id))
]

run_once-keeps :
    (d : ProjectionDelta) (id marked : Text) (doc : Document)
    → is_processed marked doc ≡ true
    → is_processed marked (run_once d id doc).1 ≡ true
run_once-keeps d id marked doc h = elim (Bool-cases (is_processed id doc)) [
  | inl old ↦ rw (run_once-old d id doc old) h
  | inr new ↦
      rw (run_once-new d id doc new) (is_processed-update d id marked doc new ∙ ground (arith, h))
]

step-keeps :
    (f : FactEnvelope) (id marked : Text) (o : Option Document)
    → IsProcessed marked o
    → IsProcessed marked (step f id o)
unfolding step IsProcessed upsert_placeholder
step-keeps f id marked none h = absurd h
step-keeps f id marked (some doc) h = elim (Result-cases (project_fact f)) [
  | inl (e, thrown) ↦ rw (thrown, step_of) h
  | inr (d, made) ↦
      rw (made, step_of)
        (elim (Bool-cases (id =t d.order_id)) [
          | inl e ↦ rw e (run_once-keeps d f.event_id marked doc h)
          | inr e ↦ rw e h
        ])
]

steps-keep :
    (fs : List FactEnvelope) (id marked : Text) (o : Option Document)
    → IsProcessed marked o
    → IsProcessed marked (steps fs id o)
unfolding steps
steps-keep [] id marked o h = h
steps-keep (f ∷ fs) id marked o h =
    steps-keep fs id marked (step f id o) (step-keeps f id marked o h)

step-processed :
    (f : FactEnvelope) (id : Text) (o : Option Document)
    → IsProcessed f.event_id o
    → step f id o ≡ o
unfolding step IsProcessed upsert_placeholder
step-processed f id none h = absurd h
step-processed f id (some doc) h = elim (Result-cases (project_fact f)) [
  | inl (e, thrown) ↦ rw (thrown, step_of) refl
  | inr (d, made) ↦
      rw (made, step_of)
        (elim (Bool-cases (id =t d.order_id)) [
          | inl e ↦ rw e (ap some (run_once-old d f.event_id doc h))
          | inr e ↦ rw e refl
        ])
]

step-again :
    (f : FactEnvelope) (between : List FactEnvelope) (id : Text) (o : Option Document)
    → step f id (steps between id (step f id o)) ≡ steps between id (step f id o)
unfolding step
step-again f between id o = elim (Result-cases (project_fact f)) [
  | inl (e, thrown) ↦ rw (thrown, step_of) refl
  | inr (d, made) ↦ elim (Bool-cases (id =t d.order_id)) [
    | inr e ↦ rw (made, e) refl
    | inl e ↦
        let marked : IsProcessed f.event_id (step f id o) =
          unfold step in
          rw (made, e)
            (unfold IsProcessed in
              run_once-marks d f.event_id (upsert_placeholder d.order_id d.entry.occurred_at o)) in
        let still = steps-keep between id f.event_id (step f id o) marked in
        unfold step in step-processed f id (steps between id (step f id o)) still
  ]
]

-- A fact that was delivered, delivered again after any other facts, changes no document, whatever
-- the collection was before (PR6).
pub route-again :
    (f : FactEnvelope) (between : List FactEnvelope) (collection : Collection) (id : Text)
    → route f (route_all between (route f collection)) id
      ≡ route_all between (route f collection) id
route-again f between collection id =
    let there =
      route_all-steps between (route f collection) id
      ∙ ap (steps between id) (route-step f collection id) in
    route-step f (route_all between (route f collection)) id
    ∙ ap (step f id) there
    ∙ step-again f between id (collection id)
    ∙ sym there

-- A document whose status is that of its rank.
abbrev pub get_or_placed : Option OrderStatus → OrderStatus
get_or_placed none = placed
get_or_placed (some status) = status

abbrev StatusFollows : Document → Document → Type 0
StatusFollows doc doc' =
    (doc.status_rank ≤ doc'.status_rank)
    × (doc'.status_rank ≡ doc.status_rank → doc'.status ≡ doc.status)

abbrev IsRanked : Document → Type 0
IsRanked doc = doc.status ≡ get_or_placed (status_at doc.status_rank)

raised-IsRanked :
    (i : Option OrderStatus) (m r : ℕ) (s : OrderStatus)
    → i ≡ status_at m
    → (i ≡ none → m ≡ 0)
    → s ≡ get_or_placed (status_at r)
    → (raised_status i m r s ≡ get_or_placed (status_at (max_rank r m)))
      × (r ≤ max_rank r m)
      × (max_rank r m ≡ r → raised_status i m r s ≡ s)
unfolding raised_status max_rank
raised-IsRanked none m r s h z k =
    let zero' = z refl in rw zero' (ground (arith, k), ground arith, λ e. refl)
raised-IsRanked (some i) m r s h z k = elim (Bool-cases (ltb r m)) [
  | inl e ↦ rw e (ap get_or_placed h, ground (arith, e), λ same. absurd (ground (arith, e, same)))
  | inr e ↦ rw e (k, ground arith, λ same. refl)
]

AreRanked : Option Document → Type 0
AreRanked none = Unit
AreRanked (some doc) = IsRanked doc

-- The document that is there afterwards.
abbrev Follows : Document → Option Document → Type 0
Follows doc o = (doc' : Document) × (o ≡ some doc') × IsRanked doc' × StatusFollows doc doc'

run_once-IsRanked :
    (d : ProjectionDelta) (f : FactEnvelope) (doc : Document)
    → IsProjected d f
    → IsRanked doc
    → IsRanked (run_once d f.event_id doc).1 × StatusFollows doc (run_once d f.event_id doc).1
unfolding delta_to_pipeline
run_once-IsRanked d f doc p h = elim (Bool-cases (is_processed f.event_id doc)) [
  | inl old ↦ rw (run_once-old d f.event_id doc old) (h, (omega arith, λ e. refl))
  | inr new ↦
      let (ranked, up, same) =
        raised-IsRanked d.implied_status d.status_rank doc.status_rank doc.status p.ranked
          p.unranked h in
      rw (run_once-new d f.event_id doc new) (ranked, (up, same))
]

step-ranked :
    (f : FactEnvelope) (id : Text) (o : Option Document) → AreRanked o → AreRanked (step f id o)
unfolding step AreRanked upsert_placeholder
step-ranked f id o h = elim (Result-cases (project_fact f)) [
  | inl (e, thrown) ↦ rw (thrown, step_of) h
  | inr (d, made) ↦
      rw (made, step_of)
        (elim (Bool-cases (id =t d.order_id)) [
          | inl e ↦
              rw e
                (run_once-IsRanked d f (upsert_placeholder d.order_id d.entry.occurred_at o)
                  (project_fact-IsProjected f made) (upserted d.order_id d.entry.occurred_at o h)).0
          | inr e ↦ rw e h
        ])
]
  where
    upserted :
        (order_id seed : Text) (o : Option Document)
        → AreRanked o
        → IsRanked (upsert_placeholder order_id seed o)
    upserted order_id seed none h = refl
    upserted order_id seed (some doc) h = h

step-Follows :
    (f : FactEnvelope) (id : Text) (doc : Document)
    → IsRanked doc
    → Follows doc (step f id (some doc))
unfolding step upsert_placeholder
step-Follows f id doc h = elim (Result-cases (project_fact f)) [
  | inl (e, thrown) ↦ rw (thrown, step_of) (doc, refl, h, (omega arith, λ e. refl))
  | inr (d, made) ↦
      rw (made, step_of)
        (elim (Bool-cases (id =t d.order_id)) [
          | inl e ↦
              let (ranked, after) = run_once-IsRanked d f doc (project_fact-IsProjected f made) h in
              rw e ((run_once d f.event_id doc).1, refl, ranked, after)
          | inr e ↦ rw e (doc, refl, h, (omega arith, λ e. refl))
        ])
]

steps-Follows :
    (fs : List FactEnvelope) (id : Text) (doc : Document)
    → IsRanked doc
    → Follows doc (steps fs id (some doc))
unfolding steps
steps-Follows [] id doc h = (doc, refl, h, (omega arith, λ e. refl))
steps-Follows (f ∷ fs) id doc h =
    let (mid, at, ranked, (up, same)) = step-Follows f id doc h in
    let (doc', at', ranked', (up', same')) = steps-Follows fs id mid ranked in
    (
      doc',
      ap (steps fs id) at ∙ at',
      ranked',
      (
        omega (arith, up, up'),
        λ e. same' (omega (arith, up, up', e)) ∙ same (omega (arith, up, up', e)),
      ),
    )

steps-ranked :
    (fs : List FactEnvelope) (id : Text) (o : Option Document)
    → AreRanked o
    → AreRanked (steps fs id o)
unfolding steps
steps-ranked [] id o h = h
steps-ranked (f ∷ fs) id o h = steps-ranked fs id (step f id o) (step-ranked f id o h)

-- The document that any facts made from an empty collection has the status that belongs to its
-- rank, `placed` for rank 0. After any further facts it is still there, again with the status of
-- its rank; its rank is not smaller, and with the same rank it has the same status (R52).
pub status_never_falls_back :
    (earlier later : List FactEnvelope) (id : Text) {doc : Document}
    → route_all earlier empty id ≡ some doc
    → (doc.status ≡ get_or_placed (status_at doc.status_rank))
      × ((doc' : Document) × (route_all later (route_all earlier empty) id ≡ some doc')
          × (doc'.status ≡ get_or_placed (status_at doc'.status_rank))
          × (doc.status_rank ≤ doc'.status_rank)
          × (doc'.status_rank ≡ doc.status_rank → doc'.status ≡ doc.status))
unfolding AreRanked
status_never_falls_back earlier later id {doc} there =
    let ranked : IsRanked doc =
      subst AreRanked (sym (route_all-steps earlier empty id) ∙ there)
        (steps-ranked earlier id none tt) in
    let (doc', at, ranked', (up, same)) = steps-Follows later id doc ranked in
    (
      ranked,
      (
        doc',
        route_all-steps later (route_all earlier empty) id ∙ ap (steps later id) there ∙ at,
        ranked',
        up,
        same,
      ),
    )
