-- ===== src/Gateway/Replay.antt =====
-- The frames of the order stream that a client may have missed: apps/gateway/src/domain/sse
-- (replay-buffer.ts, cursor.ts). A value is any type.
pub mod Resuming
use order_to_cash_nestjs.Errors.{plain_error}
use order_to_cash_nestjs.Result.{Result, ◌>>◌, throw_if, ok}
use order_to_cash_nestjs.Base.{
  Bool, ℕ, Option, List, ◌++◌, ◌∷◌, none, false, ◌+◌, if◌then◌else◌, [], ltb, some, length, map,
  true,
}
use order_to_cash_nestjs.Base.Text.{Text, ◌=t◌}
use order_to_cash_nestjs.Kernel.MoneyText.{decimal_text}

-- `CursorGenerator`: the sequence.
unfoldable pub next_cursor : ℕ → ℕ → Text × ℕ
unfolding decimal_text
next_cursor now sequence = (decimal_text now ++ b'-' ∷ decimal_text (sequence + 1), sequence + 1)

pub record Frame (T : Type 0) : Type 0 where
  pub cursor : Text
  pub value : T

pub record ReplayResult (T : Type 0) : Type 0 where
  pub resumed : Bool
  pub missed : List T

pub record ReplayBuffer (T : Type 0) : Type 0 where
  pub capacity : ℕ
  pub entries : List (Frame T)

-- The constructor.
unfoldable pub new_buffer : {T : Type 0} → ℕ → Result (ReplayBuffer T)
new_buffer capacity = do
  throw_if (ltb capacity 1) plain_error
  ok (record { capacity = capacity; entries = [] })

-- `while (this.entries.length > this.capacity) this.entries.shift()`
unfoldable pub shift_excess : {T : Type 0} → ℕ → List (Frame T) → List (Frame T)
shift_excess capacity [] = []
shift_excess capacity (e ∷ es) =
    let rest = shift_excess capacity es in if ltb capacity (length (e ∷ es)) then rest else e ∷ es

unfoldable pub push : {T : Type 0} → Text → T → ReplayBuffer T → ReplayBuffer T
unfolding shift_excess
push cursor value buffer = record buffer {
  entries =
      shift_excess buffer.capacity
        (buffer.entries ++ record { cursor = cursor; value = value } ∷ []);
}

-- The entries after the first one with the cursor.
unfoldable pub slice_after : {T : Type 0} → Text → List (Frame T) → Option (List T)
slice_after cursor [] = none
slice_after cursor (e ∷ es) =
    if e.cursor =t cursor then some (map (λ x. x.value) es) else slice_after cursor es

abbrev pub replayed : {T : Type 0} → Option (List T) → ReplayResult T
replayed none = record { resumed = false; missed = [] }
replayed (some values) = record { resumed = true; missed = values }

-- `replayAfter`
unfoldable pub replay_after : {T : Type 0} → Option Text → ReplayBuffer T → ReplayResult T
unfolding slice_after
replay_after none buffer = record { resumed = false; missed = [] }
replay_after (some cursor) buffer = replayed (slice_after cursor buffer.entries)

unfoldable pub push_all : {T : Type 0} → List (Frame T) → ReplayBuffer T → ReplayBuffer T
unfolding push
push_all [] buffer = buffer
push_all (f ∷ fs) buffer = push_all fs (push f.cursor f.value buffer)
