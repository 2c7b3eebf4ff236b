-- ===== src/Tests/Accepted.antt =====
-- The theorems on accepted messages, at the sample states.
use lumendark.Common.{pos, ◌≡◌, refl, some, arith, ◌≤ℤ◌, ◌+ℤ◌, Runs}
use lumendark.Models.Order.{Asset}
use lumendark.Models.Message
use lumendark.Models.Message.{Reason}
use lumendark.Storage.UserStore.Holdings.{holding}
use lumendark.Executor.MessageHandler.{debit_withdrawal, process_cancel}
use lumendark.Executor.MessageHandler.Accepting.{rejected_with, Withdrawn, debit_withdrawal-accepts}
use lumendark.Executor.MessageHandler.Releasing.{Cancelled, process_cancel-accepts}
use lumendark.Tests.{
  withdraw_message, cancel_message, next_message, next_message-IsSolvent, sell_order, stores_then,
}

debit_withdrawal-accepts_example :
    (pos 2 ≤ℤ (holding (next_message withdraw_message).users 1 Asset.a).available
      → Runs
          (debit_withdrawal Asset.a (pos 2))
          (next_message withdraw_message)
          (λ _ s'. Withdrawn (next_message withdraw_message) Asset.a (pos 2) s'))
    × ((holding (next_message withdraw_message).users 1 Asset.a).available +ℤ pos 1 ≤ℤ pos 2
        → Runs (debit_withdrawal Asset.a (pos 2)) (next_message withdraw_message) (λ _ s'.
          s'
          ≡ rejected_with
              (Reason.insufficient
                (holding (next_message withdraw_message).users 1 Asset.a).available
                (pos 2))
              (next_message withdraw_message)))
unfolding Message.create_message
debit_withdrawal-accepts_example =
    debit_withdrawal-accepts (next_message withdraw_message) Asset.a (pos 2) refl stores_then.6
      (omega arith)

process_cancel-accepts_example :
    Runs
      (process_cancel (some 0))
      (next_message cancel_message)
      (λ _ s'. Cancelled (next_message cancel_message) 0 sell_order s')
unfolding Message.create_message
process_cancel-accepts_example =
    process_cancel-accepts (next_message cancel_message) 0 sell_order
      (next_message-IsSolvent cancel_message) stores_then.3 refl
