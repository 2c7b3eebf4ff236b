-- ===== src/Tests/Messages.antt =====
-- The theorems on messages, at the sample states.
use lumendark.Common.{List, [], ◌∷◌, pos, refl, arith, Runs, ◌≤ℤ◌, ℕ, Each, ◌≡◌, ◌≢◌}
use lumendark.Models.Order.{buy}
use lumendark.Models.Message
use lumendark.Common.Int.{◌*ℤ◌}
use lumendark.Api.Routes.{get_message_status}
use lumendark.Api.Routes.Decided.{Decided, process_all-decides}
use lumendark.Models.Message.{Message, decimal, finite}
use lumendark.Executor.MessageHandler.{process_message, place_order}
use lumendark.Executor.MessageHandler.Solvency.{IsSolvent}
use lumendark.Executor.MessageHandler.Placing.{place_order-Runs, placed_run}
use lumendark.Executor.MessageHandler.Finishing.{Placed}
use lumendark.Executor.MessageHandler.Handling.{Handled}
use lumendark.Executor.MessageHandler.Processing.{
  moved, process_message-Handled, process_all, process_all-IsSolvent, process_all-Uncrossed,
}
use lumendark.Tests.{
  deposit_a_message, deposit_b_message, sell_message, buy_message, cancel_message, empty_state,
  timed, empty_state-IsSolvent, next_message, next_message-IsSolvent, stores_then, low_message,
  low_order, sell_order, resting_state, resting_state-IsSolvent,
}

process_message-Handled_example :
    Handled
      (moved buy_message.payload)
      (next_message buy_message)
      (process_message [] (next_message buy_message)).1
process_message-Handled_example =
    process_message-Handled [] (next_message buy_message) (next_message-IsSolvent buy_message)

process_all-IsSolvent_example :
    IsSolvent
      (process_all
        (timed (
          deposit_a_message ∷ deposit_b_message ∷ sell_message ∷ buy_message ∷ cancel_message ∷ []))
        []
        empty_state).1
process_all-IsSolvent_example =
    process_all-IsSolvent
      (timed
        (deposit_a_message ∷ deposit_b_message ∷ sell_message ∷ buy_message ∷ cancel_message ∷ []))
      [] empty_state empty_state-IsSolvent

process_all-Uncrossed_example : ¬ (sell_order.price ≤ℤ low_order.price)
process_all-Uncrossed_example =
    process_all-Uncrossed (timed (low_message ∷ [])) [] resting_state resting_state-IsSolvent 1 0
      low_order sell_order stores_then.8 stores_then.9 refl refl (omega arith)

place_order-Runs_example :
    Runs (place_order buy (pos 5) (pos 3)) (next_message buy_message) (λ _ s'.
      Placed
        (next_message buy_message)
        (placed_run (next_message buy_message) buy (pos 5) (pos 3)).trades
        s')
unfolding Message.create_message ◌*ℤ◌
place_order-Runs_example =
    place_order-Runs (next_message buy_message) buy (pos 5) (pos 3)
      (next_message-IsSolvent buy_message) stores_then.0 (omega arith) (omega arith)
      (rw stores_then.1 (omega arith))

abbrev three : List (ℕ × Message)
three = (9, deposit_a_message) ∷ (10, sell_message) ∷ (15, cancel_message) ∷ []

process_all-decides_example :
    Each
      (λ (timed : ℕ × Message). Decided (process_all three [] empty_state).0 timed.0 timed.1)
      three
    × ((id : ℕ)
        → Each (λ (timed : ℕ × Message). timed.1.id ≢ id) three
        → get_message_status id (process_all three [] empty_state).0 ≡ get_message_status id [])
unfolding Message.create_message
process_all-decides_example = process_all-decides three [] empty_state empty_state-IsSolvent (
  ((λ e. omega (arith, e)), ((λ e. omega (arith, e)), tt)),
  (((λ e. omega (arith, e)), tt), (tt, tt)),
)
