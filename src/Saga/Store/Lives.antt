-- ===== src/Saga/Store/Lives.antt =====
-- Sequences of calls of drizzle-saga-command-store.ts, by any dispatchers and handlers.
use mathlib.Core.Path.{subst}
use order_to_cash_nestjs.Base.Text.{Text, ◌=t◌}
use order_to_cash_nestjs.Saga.Store.{
  mark_sent, not_already_sent, park, mark_rejected, claim_dead_letter, update_where, is_sent,
}
use order_to_cash_nestjs.Saga.Commands.{CommandRow, enqueue, sent, clashes, parked, rejected}
use order_to_cash_nestjs.Base.{
  List, ℕ, ◌≡◌, ◌∙◌, map, ◌++◌, Bool, Bool-cases, ap, ◌∷◌, any, true, is_some, Option, [],
  if◌then◌else◌, false, refl, sym, inl, not, ◌&&◌, inr, some, arith, none,
}
use mathlib.Core.List.{Memᴰ}

-- One call.
pub data StoreCall (rows : List CommandRow) : List CommandRow → Type 0 where
  enqueueing : (row : CommandRow) → StoreCall rows (enqueue row rows)
  sending : (now : ℕ) (id : Text) → StoreCall rows (mark_sent now id rows).1
  parking :
      (id : Text) (attempts : ℕ) (last_error : Text) (next : ℕ)
      → StoreCall rows (park id attempts last_error next rows).1
  rejecting :
      (id : Text) (attempts : ℕ) (last_error : Text)
      → StoreCall rows (mark_rejected id attempts last_error rows).1
  claiming : (now : ℕ) (id : Text) → StoreCall rows (claim_dead_letter now id rows).1

pub data StoreCalls (rows : List CommandRow) : List CommandRow → Type 0 where
  none_yet : StoreCalls rows rows
  then_call :
      {mid rows' : List CommandRow}
      → StoreCalls rows mid
      → StoreCall mid rows'
      → StoreCalls rows rows'

-- What a row is later on: what it owes is what it owed, a sent row stays sent at its instant with its
-- attempts, and an instant of dead-lettering is never changed.
pub record Becomes (r r' : CommandRow) : Type 0 where
  pub same_id : r'.id ≡ r.id
  pub same_order : r'.order_id ≡ r.order_id
  pub same_command : r'.command ≡ r.command
  pub same_payload : r'.payload ≡ r.payload
  pub same_trigger : r'.triggering_event_type ≡ r.triggering_event_type
  pub stays_sent :
      r.status ≡ sent → (r'.status ≡ sent) × (r'.sent_at ≡ r.sent_at) × (r'.attempts ≡ r.attempts)
  pub stays_dead : is_some r.dead_lettered_at ≡ true → r'.dead_lettered_at ≡ r.dead_lettered_at

pub Becomes-refl : (r : CommandRow) → Becomes r r
Becomes-refl r = record {
  same_id = refl;
  same_order = refl;
  same_command = refl;
  same_payload = refl;
  same_trigger = refl;
  stays_sent = λ e. (e, refl, refl);
  stays_dead = λ e. refl;
}

pub Becomes-trans : (a b c : CommandRow) → Becomes a b → Becomes b c → Becomes a c
Becomes-trans a b c p q = record {
  same_id = q.same_id ∙ p.same_id;
  same_order = q.same_order ∙ p.same_order;
  same_command = q.same_command ∙ p.same_command;
  same_payload = q.same_payload ∙ p.same_payload;
  same_trigger = q.same_trigger ∙ p.same_trigger;
  stays_sent = λ e.
      let (s, t, n) = p.stays_sent e in let (s', t', n') = q.stays_sent s in (s', t' ∙ t, n' ∙ n);
  stays_dead =
      λ e. q.stays_dead (ap (λ (o : Option ℕ). is_some o) (p.stays_dead e) ∙ e) ∙ p.stays_dead e;
}

abbrev Later : CommandRow → List CommandRow → Type 0
Later r rows = (r' : CommandRow) × Memᴰ r' rows × Becomes r r'

pub map-Later :
    (f : CommandRow → CommandRow) (r : CommandRow) (rows : List CommandRow)
    → ((x : CommandRow) → Becomes x (f x))
    → Memᴰ r rows
    → Later r (map f rows)
map-Later f r [] h m = elim m [ ]
map-Later f r (x ∷ rows) h (Memᴰ.head e) =
    (f x, Memᴰ.head refl, subst (λ y. Becomes y (f x)) (sym e) (h x))
map-Later f r (x ∷ rows) h (Memᴰ.tail m) =
    let (r', at, b) = map-Later f r rows h m in (r', Memᴰ.tail at, b)

append-Later :
    (row r : CommandRow) (rows : List CommandRow) → Memᴰ r rows → Memᴰ r (rows ++ row ∷ [])
append-Later row r _ (Memᴰ.head e) = Memᴰ.head e
append-Later row r _ (Memᴰ.tail m) = Memᴰ.tail (append-Later row r _ m)

-- An update that a sent row, or one that is dead-lettered already, does not meet.
update-Becomes :
    (p : CommandRow → Bool) (set' : CommandRow → CommandRow) (id : Text) (x : CommandRow)
    → (p x ≡ true → Becomes x (set' x))
    → Becomes x (if (x.id =t id) && p x then set' x else x)
update-Becomes p set' id x h = elim (Bool-cases ((x.id =t id) && p x)) [
  | inl e ↦ rw e (h (ground (arith, e)))
  | inr e ↦ rw e (Becomes-refl x)
]

enqueue-Later :
    (row r : CommandRow) (rows : List CommandRow) → Memᴰ r rows → Later r (enqueue row rows)
unfolding enqueue
enqueue-Later row r rows m = elim (Bool-cases (any (clashes row) rows)) [
  | inl e ↦ rw e (r, m, Becomes-refl r)
  | inr e ↦ rw e (r, append-Later row r rows m, Becomes-refl r)
]

unsent : {P : Type 0} (x : CommandRow) → not_already_sent x ≡ true → x.status ≡ sent → P
unsent x h e = absurd (bad (subst (λ s. not (is_sent s) ≡ true) e h))
  where
    bad : false ≡ true → ⊥
    bad e = cc

call-Later :
    (r : CommandRow) {rows rows' : List CommandRow}
    → StoreCall rows rows'
    → Memᴰ r rows
    → Later r rows'
unfolding mark_sent park mark_rejected claim_dead_letter update_where
call-Later r {rows} (enqueueing row) m = enqueue-Later row r rows m
call-Later r {rows} (sending now id) m =
    map-Later _ r rows
      (λ x.
        update-Becomes not_already_sent (λ y. record y { status = sent; sent_at = some now }) id x
          (λ h. record {
            same_id = refl;
            same_order = refl;
            same_command = refl;
            same_payload = refl;
            same_trigger = refl;
            stays_sent = unsent x h;
            stays_dead = λ e. refl;
          }))
      m
call-Later r {rows} (parking id attempts last_error next) m =
    map-Later _ r rows
      (λ x.
        update-Becomes not_already_sent
          (λ y. record y {
            status = parked;
            attempts = attempts;
            last_error = some last_error;
            next_attempt_at = some next;
          })
          id x
          (λ h. record {
            same_id = refl;
            same_order = refl;
            same_command = refl;
            same_payload = refl;
            same_trigger = refl;
            stays_sent = unsent x h;
            stays_dead = λ e. refl;
          }))
      m
call-Later r {rows} (rejecting id attempts last_error) m =
    map-Later _ r rows
      (λ x.
        update-Becomes not_already_sent
          (λ y. record y {
            status = rejected;
            attempts = attempts;
            last_error = some last_error;
            next_attempt_at = none;
          })
          id x
          (λ h. record {
            same_id = refl;
            same_order = refl;
            same_command = refl;
            same_payload = refl;
            same_trigger = refl;
            stays_sent = unsent x h;
            stays_dead = λ e. refl;
          }))
      m
call-Later r {rows} (claiming now id) m =
    map-Later _ r rows
      (λ x.
        update-Becomes (λ y. not (is_some y.dead_lettered_at))
          (λ y. record y { dead_lettered_at = some now }) id x
          (λ h. record {
            same_id = refl;
            same_order = refl;
            same_command = refl;
            same_payload = refl;
            same_trigger = refl;
            stays_sent = λ e. (e, refl, refl);
            stays_dead = λ e. cc;
          }))
      m

-- Through any sequence of the calls of the store that change it, a row stays there with its id,
-- order, command and payload; once it is sent it stays sent, at the same instant and with the same
-- attempts, and an instant at which it was dead-lettered never changes.
pub calls-Becomes :
    (r : CommandRow) {rows rows' : List CommandRow}
    → StoreCalls rows rows'
    → Memᴰ r rows
    → (r' : CommandRow) × Memᴰ r' rows' × Becomes r r'
calls-Becomes r none_yet m = (r, m, Becomes-refl r)
calls-Becomes r (then_call calls call) m =
    let (a, at, b) = calls-Becomes r calls m in
    let (a', at', b') = call-Later a call at in (a', at', Becomes-trans r a a' b b')
