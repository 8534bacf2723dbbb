-- ===== src/Saga/Store/Claims.antt =====
-- The claim of a row for its dead letter (`claimDeadLetter` of drizzle-saga-command-store.ts).
use order_to_cash_nestjs.Saga.Store.Lives.{
  StoreCall, StoreCalls, enqueueing, then_call, sending, none_yet, parking, rejecting, claiming,
}
use mathlib.Core.Path.{subst}
use order_to_cash_nestjs.Base.Text.{Text, ◌=t◌, text_eq_iff}
use order_to_cash_nestjs.Saga.Store.{
  mark_sent, park, mark_rejected, claim_dead_letter, update_where,
}
use order_to_cash_nestjs.Saga.Commands.{CommandRow, enqueue, clashes}
use order_to_cash_nestjs.Base.{
  List, ℕ, ◌≡◌, ◌∙◌, map, ◌++◌, Bool, Bool-cases, ap, ◌∷◌, any, true, is_some, [], if◌then◌else◌,
  false, refl, inl, not, ◌&&◌, inr, some, arith, ◌||◌,
}

abbrev pub has_id : Text → CommandRow → Bool
has_id id r = r.id =t id

abbrev pub can_claim : Text → CommandRow → Bool
can_claim id r = (r.id =t id) && not (is_some r.dead_lettered_at)

-- The row is there, and no row of its id is open to a claim.
pub record IsClaimed (id : Text) (rows : List CommandRow) : Type 0 where
  there : any (has_id id) rows ≡ true
  closed : any (can_claim id) rows ≡ false

pub any-map-false :
    (p : CommandRow → Bool) (f : CommandRow → CommandRow) (rows : List CommandRow)
    → ((x : CommandRow) → p x ≡ false → p (f x) ≡ false)
    → any p rows ≡ false
    → any p (map f rows) ≡ false
any-map-false p f [] h k = refl
any-map-false p f (x ∷ rows) h k = ground (arith, k, h x, any-map-false p f rows h)

pub any-map_same :
    (p : CommandRow → Bool) (f : CommandRow → CommandRow) (rows : List CommandRow)
    → ((x : CommandRow) → p (f x) ≡ p x)
    → any p (map f rows) ≡ any p rows
any-map_same p f [] h = refl
any-map_same p f (x ∷ rows) h = ground (arith, h x, any-map_same p f rows h)

pub any-append :
    (p : CommandRow → Bool) (rows : List CommandRow) (r : CommandRow)
    → any p (rows ++ r ∷ []) ≡ (any p rows || p r)
any-append p [] r = ground arith
any-append p (x ∷ rows) r = ground (arith, any-append p rows r)

pub no_clash-id :
    (id : Text) (row : CommandRow) (rows : List CommandRow)
    → any (clashes row) rows ≡ false
    → any (has_id id) rows ≡ true
    → (row.id =t id) ≡ false
no_clash-id id row [] h k = cc
no_clash-id id row (r ∷ rows) h k = ground (
  arith,
  h,
  k,
  text_eq_iff row.id id,
  text_eq_iff r.id id,
  text_eq_iff r.id row.id,
  no_clash-id id row rows,
)

pub enqueue-IsClaimed :
    (id : Text) (row : CommandRow) (rows : List CommandRow)
    → IsClaimed id rows
    → IsClaimed id (enqueue row rows)
unfolding enqueue
enqueue-IsClaimed id row rows c = elim (Bool-cases (any (clashes row) rows)) [
  | inl e ↦ rw e c
  | inr e ↦ rw e (record {
    there = any-append (has_id id) rows row ∙ ground (arith, c.there);
    closed =
        any-append (can_claim id) rows row
        ∙ ground (arith, c.closed, no_clash-id id row rows e c.there);
  })
]

pub update-IsClaimed :
    (p : CommandRow → Bool) (set' : CommandRow → CommandRow) (id other : Text)
    (rows : List CommandRow)
    → ((x : CommandRow) → (set' x).id ≡ x.id)
    → ((x : CommandRow)
        → is_some x.dead_lettered_at ≡ true
        → is_some (set' x).dead_lettered_at ≡ true)
    → IsClaimed id rows
    → IsClaimed id (update_where p set' other rows).1
unfolding update_where
update-IsClaimed p set' id other rows same dead c = record {
  there =
      any-map_same (has_id id) (λ r. if (r.id =t other) && p r then set' r else r) rows
        (λ x. ap (λ (i : Text). i =t id) (kept x))
      ∙ c.there;
  closed =
      any-map-false (can_claim id) (λ r. if (r.id =t other) && p r then set' r else r) rows
        (λ x h. still x h) c.closed;
}
  where
    kept : (x : CommandRow) → (if (x.id =t other) && p x then set' x else x).id ≡ x.id
    kept x = elim (Bool-cases ((x.id =t other) && p x)) [
      | inl e ↦ rw e (same x)
      | inr e ↦ rw e refl
    ]

    still :
        (x : CommandRow)
        → can_claim id x ≡ false
        → can_claim id (if (x.id =t other) && p x then set' x else x) ≡ false
    still x h = elim (Bool-cases ((x.id =t other) && p x)) [
      | inl e ↦ rw e (ground (arith, h, same x, dead x, ap (λ (i : Text). i =t id) (same x)))
      | inr e ↦ rw e h
    ]

pub call-IsClaimed :
    (id : Text) {rows rows' : List CommandRow}
    → StoreCall rows rows'
    → IsClaimed id rows
    → IsClaimed id rows'
unfolding mark_sent park mark_rejected claim_dead_letter
call-IsClaimed id {rows} (enqueueing row) c = enqueue-IsClaimed id row rows c
call-IsClaimed id {rows} (sending now other) c =
    update-IsClaimed _ _ id other rows (λ x. refl) (λ x h. h) c
call-IsClaimed id {rows} (parking other attempts last_error next) c =
    update-IsClaimed _ _ id other rows (λ x. refl) (λ x h. h) c
call-IsClaimed id {rows} (rejecting other attempts last_error) c =
    update-IsClaimed _ _ id other rows (λ x. refl) (λ x h. h) c
call-IsClaimed id {rows} (claiming now other) c =
    update-IsClaimed _ _ id other rows (λ x. refl) (λ x h. refl) c

pub calls-IsClaimed :
    (id : Text) {rows rows' : List CommandRow}
    → StoreCalls rows rows'
    → IsClaimed id rows
    → IsClaimed id rows'
calls-IsClaimed id none_yet c = c
calls-IsClaimed id (then_call calls call) c = call-IsClaimed id call (calls-IsClaimed id calls c)

pub IsClaimed-now :
    (now : ℕ) (id : Text) (rows : List CommandRow)
    → (claim_dead_letter now id rows).0 ≡ true
    → IsClaimed id (claim_dead_letter now id rows).1
unfolding claim_dead_letter update_where
IsClaimed-now now id rows h = record { there = there' rows h; closed = closed' rows }
  where
    set' : CommandRow → CommandRow
    set' r =
        if (r.id =t id) && not (is_some r.dead_lettered_at)
        then record r { dead_lettered_at = some now }
        else r

    there' :
        (rows : List CommandRow)
        → any (can_claim id) rows ≡ true
        → any (has_id id) (map set' rows) ≡ true
    there' [] h = cc
    there' (r ∷ rows) h = ground (arith, h, there' rows)

    closed' : (rows : List CommandRow) → any (can_claim id) (map set' rows) ≡ false
    closed' [] = refl
    closed' (r ∷ rows) = ground (arith, closed' rows)

pub refused :
    (now : ℕ) (id : Text) (rows : List CommandRow)
    → IsClaimed id rows
    → (claim_dead_letter now id rows).0 ≡ false
unfolding claim_dead_letter update_where
refused now id rows c = c.closed

-- Once a call of `claimDeadLetter` for an id has met a row, no later call for that id meets one,
-- whatever calls of the store come between (OR3).
pub claim_dead_letter-once :
    (now now' : ℕ) (id : Text) (rows : List CommandRow) {rows1 rows2 : List CommandRow}
    → claim_dead_letter now id rows ≡ (true, rows1)
    → StoreCalls rows1 rows2
    → (claim_dead_letter now' id rows2).0 ≡ false
claim_dead_letter-once now now' id rows claim calls =
    let first = ap (λ (x : Bool × List CommandRow). x.0) claim in
    let at = ap (λ (x : Bool × List CommandRow). x.1) claim in
    let c = subst (IsClaimed id) at (IsClaimed-now now id rows first) in
    refused now' id _ (calls-IsClaimed id calls c)
