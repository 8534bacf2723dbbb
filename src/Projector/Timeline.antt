-- ===== src/Projector/Timeline.antt =====
-- `causalTimelineOrder` of apps/projector/src/infrastructure/persistence/delta-to-pipeline.ts: the
-- order of the entries of a timeline, by instant, causal depth and event id. Instants are ISO 8601
-- texts and are compared as texts, as the store compares them (instants and ids are ASCII, where
-- code units and bytes have one order). The retired key `statusRank` of an entry, which the last
-- stage drops, is no field of an entry here.
pub mod Rearranged
pub mod Causality
use order_to_cash_nestjs.Base.{
  ℕ, zero, suc, ◌+◌, Bool, not, ◌&&◌, ◌||◌, List, Option, none, some, find?, map, ltb, ◌==◌, length,
}
use order_to_cash_nestjs.Base.Int.{ℤ}
use order_to_cash_nestjs.Base.Text.{Text, ◌=t◌}
use order_to_cash_nestjs.Base.Sorting.{text_ltb, sort}

-- The `detail` of an entry, by the builder that makes it.
pub data Detail : Type 0 where
  shortages_detail : List (Text × ℤ × ℤ) → Text → Detail
  released_detail : List (Text × ℕ) → Text → Detail
  refusal_detail : Text → ℤ → Detail
  cancellation_detail : Text → List Text → Detail
  failure_detail : Text → ℕ → Text → Detail

-- An element of `events`: `TimelineEntryDelta`.
pub record TimelineEntry : Type 0 where
  pub event_id : Text
  pub event_type : Text
  pub occurred_at : Text
  pub summary : Text
  pub causation_id : Text
  pub detail : Option Detail

-- The test of the `$filter` for the cause of `e`: in its tie group, and not itself.
abbrev pub is_cause_of : TimelineEntry → TimelineEntry → Bool
is_cause_of e c =
    (c.event_id =t e.causation_id)
    && (c.occurred_at =t e.occurred_at)
    && not (c.event_id =t e.event_id)

-- An entry with its `__depth`.
abbrev pub Placed : Type 0
Placed = TimelineEntry × ℕ

abbrev pub depth_after : Option Placed → ℕ
depth_after none = 0
depth_after (some cause) = cause.1 + 1

-- `oneRelaxationRound`: every depth from those at the start of the round.
unfoldable pub relax : List Placed → List Placed
relax value = map (λ e. (e.0, depth_after (find? (λ c. is_cause_of e.0 c.0) value))) value

-- `$reduce` over the rounds.
unfoldable pub relax_rounds : ℕ → List Placed → List Placed
unfolding relax
relax_rounds zero value = value
relax_rounds (suc n) value = relax_rounds n (relax value)

-- `depthFixpoint`: one round for each entry, from the depth 0.
unfoldable pub depth_fixpoint : List TimelineEntry → List Placed
unfolding relax_rounds
depth_fixpoint appended = relax_rounds (length appended) (map (λ e. (e, 0)) appended)

-- `sortBy: { occurredAt: 1, __depth: 1, eventId: 1 }`
unfoldable pub placed_before : Placed → Placed → Bool
unfolding text_ltb
placed_before a b =
    text_ltb a.0.occurred_at b.0.occurred_at
    || ((a.0.occurred_at =t b.0.occurred_at)
        && (ltb a.1 b.1 || ((a.1 == b.1) && text_ltb a.0.event_id b.0.event_id)))

-- `causalTimelineOrder`
unfoldable pub causal_timeline_order : List TimelineEntry → List TimelineEntry
unfolding depth_fixpoint placed_before sort
causal_timeline_order appended = map (λ e. e.0) (sort placed_before (depth_fixpoint appended))
