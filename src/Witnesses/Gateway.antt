-- ===== src/Witnesses/Gateway.antt =====
-- The theorem on the replay buffer, at four frames and a capacity of two.
use order_to_cash_nestjs.Gateway.Replay.Resuming.{replay_after_lem}
use order_to_cash_nestjs.Result.{ok}
use order_to_cash_nestjs.Base.{ℕ, ◌≡◌, some, refl, ◌∷◌, [], if◌then◌else◌, ltb, true, false}
use order_to_cash_nestjs.Gateway.Replay.{new_buffer, ReplayBuffer, replay_after, Frame, push_all}
use order_to_cash_nestjs.Base.Text.{Text, ◌=t◌, codes}

abbrev frame : Text → ℕ → Frame ℕ
frame cursor value = record { cursor = cursor; value = value }

unfoldable buffer_run : (buffer : ReplayBuffer ℕ) × (new_buffer 2 ≡ ok buffer)
unfolding new_buffer
buffer_run = (_, refl)

replay_after_lem_example :
    replay_after (some (codes "c2")) (
      push_all
        (frame (codes "c1") 1 ∷ frame (codes "c2") 2 ∷ frame (codes "c3") 3 ∷ [])
        buffer_run.0)
    ≡ (if ltb 1 2
        then record { resumed = true; missed = 3 ∷ [] }
        else record { resumed = false; missed = [] })
unfolding ◌=t◌
replay_after_lem_example =
    replay_after_lem 2 (codes "c2") 2 (frame (codes "c1") 1 ∷ []) (frame (codes "c3") 3 ∷ [])
      buffer_run.1 (refl, tt) (refl, tt)
