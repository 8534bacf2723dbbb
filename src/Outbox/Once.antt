-- ===== src/Outbox/Once.antt =====
-- The outbox and its relay (outbox-recorder.ts, outbox-relay.ts) as a consumer sees them that handles
-- each event id once.
use order_to_cash_nestjs.Outbox.Recording.{
  InOrder, distinct_facts, handle_all-append, record-InOrder,
}
use mathlib.Core.List.{append_assoc}
use order_to_cash_nestjs.Base.{take-drop}
use mathlib.Core.Path.{subst}
use order_to_cash_nestjs.Outbox.Stamps.{
  ArePublished, RowsApart, facts_of, of_key-append, filter-rest, stamp_one, All-taken, is_claimed,
  stamp-split, Pairwise-right, filter-split, stamp_facts,
}
use order_to_cash_nestjs.Base.Rearranging.{Pairwise}
use order_to_cash_nestjs.Base.{
  List, ℕ, ◌≡◌, ◌++◌, true, ◌∷◌, false, [], Bool-cases, refl, inl, sym, inr, ◌∙◌, ap, All, take,
  drop, not, filter, map, is_empty,
}
use order_to_cash_nestjs.Base.Text.{Text}
use order_to_cash_nestjs.Outbox.Delivery.{
  handle_all, OtherEvents, absorb, RelaySteps, then_step, recording, relaying, no_rows,
}
use order_to_cash_nestjs.Outbox.{
  OutboxState, OutboxRow, PublishableFact, of_key, claim_unpublished, stamp, Publication,
  is_published, stamped_if, sent_of, publication_failed, acknowledged, relay_once,
}

-- What the consumer has handled after it takes in `F`, the next facts of the key after the stamps.
hears :
    (k : Text) (s : OutboxState) (o : InOrder s) (F G : List PublishableFact)
    → of_key k (facts_of o.todo) ≡ F ++ G
    → (more left : List PublishableFact) × (handle_all [] (s.topic k ++ F)
        ≡ of_key k (facts_of o.done) ++ (F ++ more))
      × (G ≡ more ++ left)
hears k s o F G e =
    let (ahead, rest, a, b) = o.heard k in
    let distinct =
      subst (Pairwise OtherEvents)
        (of_key-append k o.done o.todo
          ∙ ap (λ (l : List PublishableFact). of_key k (facts_of o.done) ++ l) b)
        (distinct_facts k (o.done ++ o.todo) o.apart) in
    let (more, left, heard, g) =
      absorb (of_key k (facts_of o.done)) ahead rest F G distinct (sym e ∙ b) in
    (
      more,
      left,
      handle_all-append [] (s.topic k) F
          ∙ ap (λ (h : List PublishableFact). handle_all h F) a
          ∙ heard,
      g,
    )

claimed_lem :
    (batch_size : ℕ) (s : OutboxState) (o : InOrder s)
    → claim_unpublished batch_size s.rows ≡ take batch_size o.todo
unfolding claim_unpublished
claimed_lem batch_size s o =
    ap (λ (l : List OutboxRow). take batch_size (filter (λ r. not (is_published r)) l)) o.split
    ∙ ap (take batch_size) (
        filter-rest (λ r. not (is_published r)) o.done o.todo (negated o.done o.stamped)
          (waiting o.todo o.waiting))
  where
    negated :
        (rows : List OutboxRow)
        → ArePublished true rows
        → All (λ r. not (is_published r) ≡ false) rows
    negated [] h = tt
    negated (r ∷ rows) h = (ap not h.0, negated rows h.1)

    waiting :
        (rows : List OutboxRow)
        → ArePublished false rows
        → All (λ r. not (is_published r) ≡ true) rows
    waiting [] h = tt
    waiting (r ∷ rows) h = (ap not h.0, waiting rows h.1)

stamped-apart :
    (now : ℕ) (claimed : List OutboxRow) (x : OutboxRow) (rows : List OutboxRow)
    → All (RowsApart x) rows
    → All (RowsApart (stamp_one now claimed x)) (map (stamp_one now claimed) rows)
stamped-apart now claimed x [] h = tt
stamped-apart now claimed x (r ∷ rows) h = (kept x r h.0, stamped-apart now claimed x rows h.1)
  where
    id_kept :
        (r : OutboxRow)
        → ((stamp_one now claimed r).id ≡ r.id) × ((stamp_one now claimed r).event_id ≡ r.event_id)
    id_kept r = elim (Bool-cases (is_claimed claimed r)) [
      | inl e ↦ rw e (refl, refl)
      | inr e ↦ rw e (refl, refl)
    ]

    kept :
        (x r : OutboxRow)
        → RowsApart x r
        → RowsApart (stamp_one now claimed x) (stamp_one now claimed r)
    kept x r h = rw ((id_kept x).0, (id_kept x).1, (id_kept r).0, (id_kept r).1) h

Pairwise-stamped :
    (now : ℕ) (claimed rows : List OutboxRow)
    → Pairwise RowsApart rows
    → Pairwise RowsApart (map (stamp_one now claimed) rows)
Pairwise-stamped now claimed [] h = tt
Pairwise-stamped now claimed (x ∷ rows) h =
    (stamped-apart now claimed x rows h.0, Pairwise-stamped now claimed rows h.1)

failed-InOrder :
    (n : Text → ℕ) (s : OutboxState) (o : InOrder s) (claimed left : List OutboxRow)
    → claimed ++ left ≡ o.todo
    → InOrder (record {
      rows = s.rows;
      topic = λ k. s.topic k ++ take (n k) (of_key k (facts_of claimed));
    })
failed-InOrder n s o claimed left whole = record {
  done = o.done;
  todo = o.todo;
  split = o.split;
  stamped = o.stamped;
  waiting = o.waiting;
  apart = o.apart;
  heard = λ k.
      let F = of_key k (facts_of claimed) in
      let G = of_key k (facts_of left) in
      let e =
        ap (λ (l : List OutboxRow). of_key k (facts_of l)) (sym whole)
        ∙ of_key-append k claimed left
        ∙ ap (λ (l : List PublishableFact). l ++ G) (sym (take-drop (n k) F))
        ∙ append_assoc (take (n k) F) (drop (n k) F) G in
      let (more, rest, h, g) = hears k s o (take (n k) F) (drop (n k) F ++ G) e in
      (
        take (n k) F ++ more,
        rest,
        h,
        e
            ∙ ap (λ (l : List PublishableFact). take (n k) F ++ l) g
            ∙ sym (append_assoc (take (n k) F) more rest),
      );
}

acknowledged-InOrder :
    (now : ℕ) (s : OutboxState) (o : InOrder s) (claimed left : List OutboxRow)
    → claimed ++ left ≡ o.todo
    → ArePublished false left
    → InOrder (record {
      rows = stamp now claimed s.rows;
      topic = λ k. s.topic k ++ of_key k (facts_of claimed);
    })
unfolding stamp
acknowledged-InOrder now s o claimed left whole unpublished =
    let f = stamp_one now claimed in
    let rows = o.split ∙ ap (λ (l : List OutboxRow). o.done ++ l) (sym whole) in
    let apart = subst (λ l. Pairwise RowsApart (o.done ++ l)) (sym whole) o.apart in
    let (split, stamped) =
      stamp-split now o.done claimed left o.stamped
        (Pairwise-right o.done (claimed ++ left) apart) in
    record {
      done = map f o.done ++ map f claimed;
      todo = left;
      split = ap (stamp now claimed) rows ∙ split;
      stamped = stamped;
      waiting = unpublished;
      apart =
          subst (Pairwise RowsApart) split
            (Pairwise-stamped now claimed (o.done ++ (claimed ++ left)) apart);
      heard = λ k.
          let F = of_key k (facts_of claimed) in
          let (more, rest, h, g) = hears k s o F (of_key k (facts_of left)) (
            ap (λ (l : List OutboxRow). of_key k (facts_of l)) (sym whole)
            ∙ of_key-append k claimed left) in
          let same =
            of_key-append k (map f o.done) (map f claimed)
            ∙ ap (λ (l : List PublishableFact). of_key k l ++ of_key k (facts_of (map f claimed)))
                (stamp_facts now claimed o.done)
            ∙ ap (λ (l : List PublishableFact). of_key k (facts_of o.done) ++ of_key k l)
                (stamp_facts now claimed claimed) in
          (
            more,
            rest,
            h
                ∙ sym (append_assoc (of_key k (facts_of o.done)) F more)
                ∙ ap (λ (l : List PublishableFact). l ++ more) (sym same),
            g,
          );
    }

relay-InOrder :
    (batch_size : ℕ) (publication : Publication) (now : ℕ) (s : OutboxState)
    → InOrder s
    → InOrder (relay_once batch_size publication now s).1
unfolding relay_once
relay-InOrder batch_size publication now s o =
    elim (Bool-cases (is_empty (claim_unpublished batch_size s.rows))) [
      | inl e ↦ rw e o
      | inr e ↦ let claimed = claimed_lem batch_size s o in rw (e, claimed) (each publication)
    ]
  where
    each :
        (publication : Publication)
        → InOrder (record {
          rows = stamped_if publication now (take batch_size o.todo) s.rows;
          topic = λ k. s.topic k ++ sent_of publication k (facts_of (take batch_size o.todo));
        })
    each acknowledged =
        acknowledged-InOrder now s o (take batch_size o.todo) (drop batch_size o.todo)
          (take-drop batch_size o.todo) (All-taken _ batch_size o.todo o.waiting)
    each (publication_failed n) =
        failed-InOrder n s o (take batch_size o.todo) (drop batch_size o.todo)
          (take-drop batch_size o.todo)

steps-InOrder : {batch_size : ℕ} {s : OutboxState} → RelaySteps batch_size s → InOrder s
unfolding handle_all
steps-InOrder no_rows = record {
  done = [];
  todo = [];
  split = refl;
  stamped = tt;
  waiting = tt;
  apart = tt;
  heard = λ k. ([], [], refl, refl);
}
steps-InOrder (then_step {s = s} steps (recording fresh now events rows h)) =
    record-InOrder fresh now events s h (steps-InOrder steps)
steps-InOrder {batch_size} (then_step {s = s} steps (relaying publication now)) =
    relay-InOrder batch_size publication now s (steps-InOrder steps)

-- Take any sequence of recordings and of relay cycles from an empty outbox, with any publications
-- that are acknowledged, or that fail after the broker took the first facts of each key. A consumer
-- that handles each event id once then handles, key by key, a prefix of the facts in the order in
-- which they were recorded; the prefix starts with every fact that is stamped as published (R14,
-- OI8).
pub relay-once_in_order :
    {batch_size : ℕ} {s : OutboxState} (steps : RelaySteps batch_size s) (k : Text)
    → (ahead rest : List PublishableFact) × (handle_all [] (s.topic k)
        ≡ of_key k (facts_of (filter is_published s.rows)) ++ ahead)
      × (of_key k (facts_of s.rows) ≡ handle_all [] (s.topic k) ++ rest)
relay-once_in_order {s = s} steps k =
    let o = steps-InOrder steps in
    let (ahead, rest, a, b) = o.heard k in
    let published =
      ap (filter is_published) o.split
      ∙ filter-split is_published o.done o.todo o.stamped o.waiting in
    (
      ahead,
      rest,
      a ∙ ap (λ (l : List OutboxRow). of_key k (facts_of l) ++ ahead) (sym published),
      ap (λ (l : List OutboxRow). of_key k (facts_of l)) o.split
          ∙ of_key-append k o.done o.todo
          ∙ ap (λ (l : List PublishableFact). of_key k (facts_of o.done) ++ l) b
          ∙ sym (append_assoc (of_key k (facts_of o.done)) ahead rest)
          ∙ ap (λ (l : List PublishableFact). l ++ rest) (sym a),
    )
