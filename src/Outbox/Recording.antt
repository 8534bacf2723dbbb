-- ===== src/Outbox/Recording.antt =====
-- The outbox and its relay (outbox-recorder.ts, outbox-relay.ts): what holds of every state, and the
-- recordings.
use mathlib.Core.List.{append-nil, append_assoc}
use mathlib.Core.Path.{subst}
use order_to_cash_nestjs.Result.{ok, ok-injective}
use order_to_cash_nestjs.Outbox.Stamps.{ArePublished, RowsApart, facts_of, of_key-append}
use order_to_cash_nestjs.Base.Rearranging.{Pairwise}
use order_to_cash_nestjs.Base.{
  List, ℕ, ◌≡◌, ◌++◌, true, ◌∷◌, false, [], if◌then◌else◌, any, Bool-cases, ◌+◌, refl, All-append,
  inl, sym, arith, inr, ◌∙◌, ap, All,
}
use order_to_cash_nestjs.Base.Text.{Text, ◌=t◌}
use order_to_cash_nestjs.Outbox.Delivery.{handle_all, same_event, OtherEvents}
use order_to_cash_nestjs.Outbox.{
  OutboxState, insert_rows, record_events, OutboxRow, PublishableFact, StoredEnvelope, new_rows,
  of_key, rows_clash, fact_of,
}

-- The stamped rows stand first. What the consumer handled of a key is what is stamped, and perhaps
-- facts that come next.
pub record InOrder (s : OutboxState) : Type 0 where
  pub done : List OutboxRow
  pub todo : List OutboxRow
  pub split : s.rows ≡ done ++ todo
  pub stamped : ArePublished true done
  pub waiting : ArePublished false todo
  pub apart : Pairwise RowsApart (done ++ todo)
  pub heard :
      (k : Text)
      → (ahead rest : List PublishableFact) × (handle_all [] (s.topic k)
          ≡ of_key k (facts_of done) ++ ahead)
        × (of_key k (facts_of todo) ≡ ahead ++ rest)

pub handle_all-append :
    (h xs ys : List PublishableFact) → handle_all h (xs ++ ys) ≡ handle_all (handle_all h xs) ys
unfolding handle_all
handle_all-append h [] ys = refl
handle_all-append h (x ∷ xs) ys =
    handle_all-append (if any (same_event x) h then h else h ++ x ∷ []) xs ys

pub other_facts :
    (k : Text) (x : OutboxRow) (rows : List OutboxRow)
    → All (RowsApart x) rows
    → All (OtherEvents (fact_of x)) (of_key k (facts_of rows))
other_facts k x [] h = tt
other_facts k x (r ∷ rows) h = elim (Bool-cases (r.correlation_id =t k)) [
  | inl e ↦ rw e (ground (arith, h.0), other_facts k x rows h.1)
  | inr e ↦ rw e (other_facts k x rows h.1)
]

pub distinct_facts :
    (k : Text) (rows : List OutboxRow)
    → Pairwise RowsApart rows
    → Pairwise OtherEvents (of_key k (facts_of rows))
distinct_facts k [] h = tt
distinct_facts k (r ∷ rows) h = elim (Bool-cases (r.correlation_id =t k)) [
  | inl e ↦ rw e (other_facts k r rows h.0, distinct_facts k rows h.1)
  | inr e ↦ rw e (distinct_facts k rows h.1)
]

-- Recording.
pub snoc-apart :
    (rows : List OutboxRow) (row : OutboxRow)
    → Pairwise RowsApart rows
    → any (λ r. rows_clash r row) rows ≡ false
    → Pairwise RowsApart (rows ++ row ∷ [])
snoc-apart [] row h c = (tt, tt)
snoc-apart (x ∷ rows) row h c = (
  All-append (RowsApart x) rows (row ∷ []) h.0 (ground (arith, c), tt),
  snoc-apart rows row h.1 (ground (arith, c)),
)

pub inserted :
    (more rows : List OutboxRow) {rows' : List OutboxRow}
    → Pairwise RowsApart rows
    → insert_rows more rows ≡ ok rows'
    → (rows' ≡ rows ++ more) × Pairwise RowsApart (rows ++ more)
unfolding insert_rows
inserted [] rows d h = (
  sym (ok-injective h) ∙ sym (append-nil rows),
  subst (Pairwise RowsApart) (sym (append-nil rows)) d,
)
inserted (row ∷ more) rows d h = elim (Bool-cases (any (λ r. rows_clash r row) rows)) [
  | inl e ↦ let bad = rw e at h in cc bad
  | inr e ↦
      let go = rw e at h in
      let (same, apart) = inserted more (rows ++ row ∷ []) (snoc-apart rows row d e) go in
      (
        same ∙ append_assoc rows (row ∷ []) more,
        subst (Pairwise RowsApart) (append_assoc rows (row ∷ []) more) apart,
      )
]

recorded_unpublished :
    (fresh : ℕ → Text) (k now : ℕ) (events : List StoredEnvelope)
    → ArePublished false (new_rows fresh k now events)
recorded_unpublished fresh k now [] = tt
recorded_unpublished fresh k now (e ∷ events) =
    (refl, recorded_unpublished fresh (k + 1) now events)

pub record-InOrder :
    (fresh : ℕ → Text) (now : ℕ) (events : List StoredEnvelope) (s : OutboxState)
    {rows : List OutboxRow}
    → record_events fresh now events s.rows ≡ ok rows
    → InOrder s
    → InOrder (record s { rows = rows })
unfolding record_events
record-InOrder fresh now events s h o =
    let more = new_rows fresh 0 now events in
    let (same, apart) = inserted more s.rows (subst (Pairwise RowsApart) (sym o.split) o.apart) h in
    let split' =
      same ∙ ap (λ (l : List OutboxRow). l ++ more) o.split ∙ append_assoc o.done o.todo more in
    record {
      done = o.done;
      todo = o.todo ++ more;
      split = split';
      stamped = o.stamped;
      waiting = All-append _ o.todo more o.waiting (recorded_unpublished fresh 0 now events);
      apart =
          subst (Pairwise RowsApart)
            (ap (λ (l : List OutboxRow). l ++ more) o.split ∙ append_assoc o.done o.todo more)
            apart;
      heard = λ k.
          let (ahead, rest, a, b) = o.heard k in
          (
            ahead,
            rest ++ of_key k (facts_of more),
            a,
            of_key-append k o.todo more
                ∙ ap (λ (l : List PublishableFact). l ++ of_key k (facts_of more)) b
                ∙ append_assoc ahead rest (of_key k (facts_of more)),
          );
    }
