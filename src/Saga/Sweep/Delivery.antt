-- ===== src/Saga/Sweep/Delivery.antt =====
-- One dispatch of a row that is answered (saga-command-dispatcher.ts).
use order_to_cash_nestjs.Base.Rearranging.{Memᴰ-map}
use order_to_cash_nestjs.Saga.Store.Claims.{any-map_same}
use order_to_cash_nestjs.Saga.Dispatch.Outcomes.{rows_of, found}
use order_to_cash_nestjs.Saga.Dispatch.Attempts.{ResolvesWithin, run_attempts-answered}
use order_to_cash_nestjs.Saga.Sweep.{Weather}
use order_to_cash_nestjs.Base.Text.{Text, ◌=t◌, text_eq_refl}
use order_to_cash_nestjs.Saga.Commands.Unique.{OneEach, enqueue-OneEach}
use order_to_cash_nestjs.Saga.Store.Lives.{
  StoreCalls, Becomes, calls-Becomes, then_call, Becomes-trans, StoreCall, none_yet, enqueueing,
  sending, parking, rejecting, Becomes-refl, claiming,
}
use order_to_cash_nestjs.Saga.Dispatch.{dispatch, dispatch_row, settle, DispatcherConfig, World}
use order_to_cash_nestjs.Base.{
  List, ◌≡◌, Bool, ℕ, true, map, if◌then◌else◌, ◌∷◌, ◌&&◌, refl, Bool-cases, inl, inr, [], ◌∙◌,
  some, ap,
}
use order_to_cash_nestjs.Saga.Store.{
  update_where, mark_sent, park, is_sent, mark_rejected, claim_dead_letter, not_already_sent,
}
use order_to_cash_nestjs.Saga.Commands.{
  CommandRow, CommandStatus, sent, pending, parked, is_row_of, rejected,
}
use mathlib.Core.List.{Memᴰ}

map-OneEach :
    (f : CommandRow → CommandRow) (rows : List CommandRow)
    → ((x : CommandRow) → ((f x).order_id ≡ x.order_id) × ((f x).command ≡ x.command))
    → OneEach rows
    → OneEach (map f rows)
map-OneEach f [] keep h = tt
map-OneEach f (x ∷ rows) keep h =
    let one =
      any-map_same (is_row_of x.order_id x.command) f rows
        (λ y. rw ((keep y).0, (keep y).1) refl) in
    (rw ((keep x).0, (keep x).1) (one ∙ h.0), map-OneEach f rows keep h.1)

update-OneEach :
    (p : CommandRow → Bool) (set' : CommandRow → CommandRow) (id : Text) (rows : List CommandRow)
    → ((x : CommandRow) → ((set' x).order_id ≡ x.order_id) × ((set' x).command ≡ x.command))
    → OneEach rows
    → OneEach (update_where p set' id rows).1
unfolding update_where
update-OneEach p set' id rows keep h = map-OneEach _ rows (λ x. kept x) h
  where
    kept :
        (x : CommandRow)
        → ((if (x.id =t id) && p x then set' x else x).order_id ≡ x.order_id)
          × ((if (x.id =t id) && p x then set' x else x).command ≡ x.command)
    kept x = elim (Bool-cases ((x.id =t id) && p x)) [
      | inl e ↦ rw e (keep x)
      | inr e ↦ rw e (refl, refl)
    ]

call-OneEach : {rows rows' : List CommandRow} → StoreCall rows rows' → OneEach rows → OneEach rows'
unfolding mark_sent park mark_rejected claim_dead_letter
call-OneEach {rows} (enqueueing row) h = enqueue-OneEach row rows h
call-OneEach {rows} (sending now id) h = update-OneEach _ _ id rows (λ x. (refl, refl)) h
call-OneEach {rows} (parking id attempts last_error next) h =
    update-OneEach _ _ id rows (λ x. (refl, refl)) h
call-OneEach {rows} (rejecting id attempts last_error) h =
    update-OneEach _ _ id rows (λ x. (refl, refl)) h
call-OneEach {rows} (claiming now id) h = update-OneEach _ _ id rows (λ x. (refl, refl)) h

pub calls-OneEach :
    {rows rows' : List CommandRow} → StoreCalls rows rows' → OneEach rows → OneEach rows'
calls-OneEach none_yet h = h
calls-OneEach (then_call calls call) h = call-OneEach call (calls-OneEach calls h)

-- The row, sent.
abbrev pub IsDelivered : CommandRow → List CommandRow → Type 0
IsDelivered r rows = (r' : CommandRow) × Memᴰ r' rows × Becomes r r' × (r'.status ≡ sent)

is_sent→sent : (s : CommandStatus) → is_sent s ≡ true → s ≡ sent
is_sent→sent sent h = refl
is_sent→sent pending h = cc
is_sent→sent parked h = cc
is_sent→sent rejected h = cc

sent_at_last : ℕ → CommandRow → CommandRow → CommandRow
sent_at_last now r y =
    if (y.id =t r.id) && not_already_sent y
    then record y { status = sent; sent_at = some now }
    else y

sends_self :
    (now : ℕ) (r : CommandRow)
    → Becomes r (sent_at_last now r r) × ((sent_at_last now r r).status ≡ sent)
unfolding sent_at_last
sends_self now r = elim (Bool-cases (is_sent r.status)) [
  | inl e ↦ rw (text_eq_refl r.id, e) (Becomes-refl r, is_sent→sent r.status e)
  | inr e ↦
      rw (text_eq_refl r.id, e)
        (
          record {
            same_id = refl;
            same_order = refl;
            same_command = refl;
            same_payload = refl;
            same_trigger = refl;
            stays_sent = λ s. cc (e, ap is_sent s);
            stays_dead = λ d. refl;
          },
          refl,
        )
]

mark_sent-delivers :
    (now : ℕ) (r : CommandRow) (rows : List CommandRow)
    → Memᴰ r rows
    → IsDelivered r (mark_sent now r.id rows).1
unfolding mark_sent update_where sent_at_last
mark_sent-delivers now r rows m =
    let (b, s) = sends_self now r in
    (sent_at_last now r r, Memᴰ-map (sent_at_last now r) rows m, b, s)

pub IsDelivered-later :
    (r : CommandRow) {rows rows' : List CommandRow}
    → StoreCalls rows rows'
    → IsDelivered r rows
    → IsDelivered r rows'
IsDelivered-later r calls (a, at, b, s) =
    let (a', at', b') = calls-Becomes a calls at in
    (a', at', Becomes-trans r a a' b b', (b'.stays_sent s).0)

pub dispatch-delivers :
    (config : DispatcherConfig) (weather : Weather) (r : CommandRow) (w : World)
    → ResolvesWithin config.max_attempts weather.attempts 0
    → OneEach (rows_of w)
    → Memᴰ r (rows_of w)
    → IsDelivered r (
        rows_of
          (dispatch config weather.attempts weather.now weather.dlq_up weather.event_id r.order_id
            r.command w).1)
unfolding dispatch dispatch_row settle
dispatch-delivers config weather r w answers one m =
    rw (found r w.db.saga_commands one m) (elim (Bool-cases (is_sent r.status)) [
      | inl e ↦ rw e (r, m, Becomes-refl r, is_sent→sent r.status e)
      | inr e ↦
          let (n, verdict) =
            run_attempts-answered config weather.attempts config.max_attempts 0 [] answers in
          rw (e, verdict) (mark_sent-delivers weather.now r w.db.saga_commands m)
    ])
