-- ===== src/Executor/MessageHandler/Processing.antt =====
-- `_process_message`: every message, from a solvent state.
use lumendark.Common.{ℕ, ◌≡◌, ◌≢◌, ◌≤ℤ◌, List, [], ◌∷◌, ℤ, some}
use lumendark.Common.Dict.{lookup}
use lumendark.Models.Order.{Asset, Order, buy, sell}
use lumendark.Models.Message.{Message, Payload, processing}
use lumendark.Storage.MessageStore.{MessageStore}
use lumendark.Executor.MessageHandler.{State, dispatch, process_message}
use lumendark.Executor.MessageHandler.Solvency.{IsSolvent}
use lumendark.Executor.MessageHandler.Handling.{
  Handled, Handles, no_move, deposited, process_deposit-Handled,
}
use lumendark.Executor.MessageHandler.Ordering.{process_order-Handled}
use lumendark.Executor.MessageHandler.Withdrawing.{withdrawn, process_withdraw-Handled}
use lumendark.Executor.MessageHandler.Cancelling.{process_cancel-Handled}

-- What an accepted message moves into or out of the exchange.
abbrev pub moved : Payload → Asset → ℤ
moved (Payload.deposit asset amount ledger tx_hash) = deposited asset amount
moved (Payload.order side price quantity) = no_move
moved (Payload.cancel order_id) = no_move
moved (Payload.withdraw asset amount) = withdrawn asset amount

dispatch-Handled :
    (s : State) (payload : Payload) → IsSolvent s → Handles (moved payload) (dispatch payload) s
unfolding dispatch
dispatch-Handled s (Payload.deposit asset amount ledger tx_hash) h =
    process_deposit-Handled s asset amount h
dispatch-Handled s (Payload.order side price quantity) h =
    process_order-Handled s side price quantity h
dispatch-Handled s (Payload.cancel order_id) h = process_cancel-Handled s order_id h
dispatch-Handled s (Payload.withdraw asset amount) h = process_withdraw-Handled s asset amount h

-- From a solvent state (the book in order, where only orders of one user cross, no available
-- balance negative, and each user's liabilities at least what the user's open orders lock),
-- `_process_message` ends, for any payload, in a solvent state, and either the message is
-- accepted and the sum of the users' totals of each asset has moved by what the payload deposits
-- or withdraws, or it is rejected and no such sum has moved. What it queued for the chain leads
-- from each user's totals, with what the payload brings in on top, to the new ones.
pub process_message-Handled :
    (store : MessageStore) (s : State)
    → IsSolvent s
    → Handled (moved s.message.payload) s (process_message store s).1
unfolding process_message
process_message-Handled store s h =
    let t = record s { message = record s.message { status = processing } } in
    let f = dispatch-Handled t s.message.payload (record { book = h.book; covers = h.covers }) in
    record { solvent = f.solvent; outcome = f.outcome; chain = f.chain }

-- The messages of the incoming queue, one after another, each with the clock at its processing.
abbrev pub process_all : List (ℕ × Message) → MessageStore → State → MessageStore × State
process_all [] store s = (store, s)
process_all ((now, m) ∷ ms) store s =
    let (store', s') = process_message store (record s { message = m; now = now }) in
    process_all ms store' s'

-- The processing of any sequence of messages, one after another at any readings of the clock,
-- from a solvent state ends in a solvent state.
pub process_all-IsSolvent :
    (ms : List (ℕ × Message)) (store : MessageStore) (s : State)
    → IsSolvent s
    → IsSolvent (process_all ms store s).1
process_all-IsSolvent [] store s h = h
process_all-IsSolvent ((now, m) ∷ ms) store s h =
    let t = record s { message = m; now = now } in
    let f = process_message-Handled store t (record { book = h.book; covers = h.covers }) in
    process_all-IsSolvent ms (process_message store t).0 (process_message store t).1 f.solvent

-- After the processing of any sequence of messages, one after another at any readings of the
-- clock, from a solvent state, the book holds no buy order and sell order of different users of
-- which the buyer's price reaches the seller's.
pub process_all-Uncrossed :
    (ms : List (ℕ × Message)) (store : MessageStore) (s : State)
    → IsSolvent s
    → (i j : ℕ) (bid ask : Order) → lookup i (process_all ms store s).1.book.orders ≡ some bid
    → lookup j (process_all ms store s).1.book.orders ≡ some ask
    → bid.side ≡ buy
    → ask.side ≡ sell
    → bid.user_address ≢ ask.user_address
    → ¬ (ask.price ≤ℤ bid.price)
process_all-Uncrossed ms store s h i j bid ask found_bid found_ask bid_side ask_side others
      reaches =
    others (
      (process_all-IsSolvent ms store s h).book.uncrossed i j bid ask found_bid found_ask
        (record { bid_side = bid_side; ask_side = ask_side; reaches = reaches }))
