-- ===== src/Outbox/Delivery.antt =====
-- Sequences of recordings and cycles of the relay (outbox-recorder.ts, outbox-relay.ts), and what a
-- consumer that handles each event id once makes of the topic.
use mathlib.Core.List.{append-nil, append_assoc}
use order_to_cash_nestjs.Result.{ok}
use mathlib.Core.Path.{subst}
use order_to_cash_nestjs.Base.Text.{◌=t◌, Text, text_eq_refl}
use order_to_cash_nestjs.Base.Rearranging.{Pairwise}
use order_to_cash_nestjs.Base.{
  List, ℕ, Bool, ◌∷◌, ◌≡◌, ◌++◌, any, if◌then◌else◌, [], false, ap, true, refl, arith, All, sym,
  ◌∙◌,
}
use order_to_cash_nestjs.Outbox.{
  PublishableFact, OutboxState, StoredEnvelope, OutboxRow, record_events, Publication, relay_once,
}

abbrev pub same_event : PublishableFact → PublishableFact → Bool
same_event f g = g.envelope.event_id =t f.envelope.event_id

-- The facts that such a consumer handles, after those it has handled.
unfoldable pub handle_all : List PublishableFact → List PublishableFact → List PublishableFact
handle_all handled [] = handled
handle_all handled (f ∷ log) =
    handle_all (if any (same_event f) handled then handled else handled ++ f ∷ []) log

-- A change of the outbox or a cycle of its relay.
pub data RelayStep (batch_size : ℕ) (s : OutboxState) : OutboxState → Type 0 where
  recording :
      (fresh : ℕ → Text) (now : ℕ) (events : List StoredEnvelope) (rows : List OutboxRow)
      → record_events fresh now events s.rows ≡ ok rows
      → RelayStep batch_size s (record s { rows = rows })
  relaying :
      (publication : Publication) (now : ℕ)
      → RelayStep batch_size s (relay_once batch_size publication now s).1

pub data RelaySteps (batch_size : ℕ) : OutboxState → Type 0 where
  no_rows : RelaySteps batch_size (record { rows = []; topic = λ k. [] })
  then_step :
      {s s' : OutboxState}
      → RelaySteps batch_size s
      → RelayStep batch_size s s'
      → RelaySteps batch_size s'

abbrev pub OtherEvents : PublishableFact → PublishableFact → Type 0
OtherEvents f g = same_event g f ≡ false

-- A fact of the list is known to a consumer that handled those before it and it.
known :
    (h : List PublishableFact) (x : PublishableFact) (bs : List PublishableFact)
    → any (same_event x) (h ++ x ∷ bs) ≡ true
known [] x bs = ground (arith, text_eq_refl x.envelope.event_id)
known (y ∷ h) x bs = ground (arith, known h x bs)

unknown :
    (h : List PublishableFact) (x : PublishableFact) (rest : List PublishableFact)
    → Pairwise OtherEvents (h ++ x ∷ rest)
    → any (same_event x) h ≡ false
unknown [] x rest d = refl
unknown (y ∷ h) x rest d = ground (arith, at h d.0, unknown h x rest d.1)
  where
    at : (h : List PublishableFact) → All (OtherEvents y) (h ++ x ∷ rest) → same_event x y ≡ false
    at [] a = a.0
    at (z ∷ h) a = at h a.1

-- A consumer that is ahead of the stamps takes in a part of the log that starts at the stamps.
pub absorb :
    (h ahead rest F G : List PublishableFact)
    → Pairwise OtherEvents (h ++ (ahead ++ rest))
    → F ++ G ≡ ahead ++ rest
    → (more left : List PublishableFact) × (handle_all (h ++ ahead) F ≡ h ++ (F ++ more))
      × (G ≡ more ++ left)
unfolding handle_all
absorb h ahead rest [] G d e = (ahead, rest, refl, e)
absorb h (y ∷ bs) rest (x ∷ F) G d e =
    let same : x ≡ y = cc in
    let tail : F ++ G ≡ bs ++ rest = cc in
    let (more, left, done, g) =
      absorb (h ++ y ∷ []) bs rest F G
        (subst (Pairwise OtherEvents) (sym (append_assoc h (y ∷ []) (bs ++ rest))) d) tail in
    (
      more,
      left,
      rw (same, known h y bs)
          (ap (λ (l : List PublishableFact). handle_all l F) (sym (append_assoc h (y ∷ []) bs))
            ∙ done
            ∙ append_assoc h (y ∷ []) (F ++ more)),
      g,
    )
absorb h [] (y ∷ rest) (x ∷ F) G d e =
    let same : x ≡ y = cc in
    let tail : F ++ G ≡ rest = cc in
    let (more, left, done, g) =
      absorb (h ++ y ∷ []) [] rest F G
        (subst (Pairwise OtherEvents) (sym (append_assoc h (y ∷ []) rest)) d) tail in
    let fresh = unknown h y rest d in
    (
      more,
      left,
      rw (same, append-nil h, fresh)
          (ap (λ (l : List PublishableFact). handle_all l F) (sym (append-nil (h ++ y ∷ [])))
            ∙ done
            ∙ append_assoc h (y ∷ []) (F ++ more)),
      g,
    )
absorb h [] [] (x ∷ F) G d e = cc
