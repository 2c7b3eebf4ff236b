-- ===== src/Tests/Matches.antt =====
-- The theorems on matching, actions and settlement, at the sample states.
use lumendark.Common.{[], ◌∷◌, pos, ◌≡◌, refl, ◌+ℤ◌, ◌-ℤ◌, ◌+◌, List, int_laws, arith, none, inl}
use lumendark.Models.Order.{Order, OrderSide, buy, sell, Asset, fill, is_active, remaining_quantity}
use lumendark.Models.Order
use lumendark.Models.Message.{ChainAction, withdrawal, settlement, create_action}
use lumendark.Storage.OrderBook.Invariant.{IsBook, Apart}
use lumendark.Storage.OrderBook.Locked.{lock, locked}
use lumendark.Matching.Engine.{match_order, fill_resting}
use lumendark.Matching.Engine.Filling.{fill_resting-IsBook, locked-fill_resting}
use lumendark.Matching.Engine.Loop.{IsRun}
use lumendark.Matching.Engine.Match.{match_order-IsRun}
use lumendark.Executor.ActionHandler.{start, mock_submit}
use lumendark.Executor.ActionHandler.Nonces.{
  recording, numbers_from, count_accepted, start-consecutive,
}
use lumendark.Matching.Engine.PriceTime.{match_order-priority}
use lumendark.Common.Dict.{lookup}
use lumendark.Matching.Engine.Clearing.{match_order-Apart}
use lumendark.Tests.{
  resting_state, resting_state-IsSolvent, sell_order, large_order, stores_then, dear_order,
  two_sells, two_sells-IsSolvent,
}

abbrev incoming : Order
incoming = record {
  id = 1;
  user_address = 2;
  side = buy;
  price = pos 5;
  quantity = pos 3;
  filled_quantity = pos 0;
  status = Order.open_order;
  created_at = 9;
}

match_order-IsRun_example :
    IsRun buy resting_state.next incoming
      (λ v y. locked resting_state.book v y +ℤ lock incoming v y)
      (match_order 9 incoming resting_state.book 2)
unfolding is_active
match_order-IsRun_example =
    match_order-IsRun 9 incoming resting_state.book 2 resting_state-IsSolvent.book (omega int_laws)
      refl

fill_resting-IsBook_example :
    IsBook resting_state.next (fill_resting (pos 3) sell_order resting_state.book)
fill_resting-IsBook_example =
    fill_resting-IsBook (pos 3) sell_order resting_state.book resting_state-IsSolvent.book
      stores_then.3 (omega int_laws)

locked-fill_resting_example :
    locked (fill_resting (pos 3) sell_order resting_state.book) 1 Asset.a
    ≡ locked resting_state.book 1 Asset.a
      -ℤ lock sell_order 1 Asset.a
      +ℤ lock (fill (pos 3) sell_order) 1 Asset.a
locked-fill_resting_example =
    locked-fill_resting (pos 3) sell_order resting_state.book resting_state-IsSolvent.book
      stores_then.3 1 Asset.a

abbrev queued : List ChainAction
queued =
    create_action 11 0 (withdrawal 1 Asset.a (pos 2))
    ∷ create_action 12 0 (settlement 5 2 1 (pos 3) (pos 12))
    ∷ []

start-consecutive_example :
    (let (results, h) =
        start (recording mock_submit) queued (record { nonce = 4; submitter = (0, []) }) in
      (h.submitter.1 ≡ numbers_from 4 (count_accepted results))
      × (h.nonce ≡ count_accepted results + 4))
start-consecutive_example = start-consecutive mock_submit queued 4 0

match_order-Apart_example :
    Apart
      (match_order 9 large_order resting_state.book 2).incoming
      (match_order 9 large_order resting_state.book 2).book.orders
unfolding is_active
match_order-Apart_example =
    match_order-Apart 9 large_order resting_state.book 2 resting_state-IsSolvent.book
      (omega int_laws) refl (rw stores_then.10 (omega arith))

match_order-priority_example :
    lookup 0 (match_order 9 (record large_order { id = 2 }) two_sells.book 3).book.orders ≡ none
unfolding is_active
match_order-priority_example =
    match_order-priority 9 (record large_order { id = 2 }) two_sells.book 3 two_sells-IsSolvent.book
      (omega int_laws) refl sell_order dear_order stores_then.11 stores_then.12
      (λ e. omega (arith, e)) refl refl (inl refl) stores_then.13
