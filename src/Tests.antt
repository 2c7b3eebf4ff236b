-- ===== src/Tests.antt =====
-- Sample states, and runs of the model on them.
mod Messages
mod Matches
mod Stores
mod Accepted
mod Settled
mod Requests
mod Signatures
mod Polls
mod Exchanges
mod Submissions
mod Contracts
mod Carried
mod Sent
use lumendark.Common.{
  ℕ, ◌≡◌, refl, inl, inr, Option, none, some, List, map, [], ◌∷◌, arith, int_laws, pos, ◌≤ℤ◌,
}
use lumendark.Common.Int.{◌+ℤ◌, ◌-ℤ◌, ◌*ℤ◌}
use lumendark.Common.Dict.{lookup}
use lumendark.Models.Order.{Asset, Order, buy, sell}
use lumendark.Models.User.{User}
use lumendark.Models.Order
use lumendark.Models.Trade
use lumendark.Models.User
use lumendark.Storage.UserStore
use lumendark.Matching.Engine
use lumendark.Matching.Engine.Priority.{Traded}
use lumendark.Models.Message
use lumendark.Models.Message.{Message, Payload, decimal, finite}
use lumendark.Storage.UserStore.Holdings.{holding}
use lumendark.Common.Dict.Sum.{sum}
use lumendark.Storage.UserStore.Cover.{Covers}
use lumendark.Storage.OrderBook
use lumendark.Storage.OrderBook.Locked.{locked}
use lumendark.Storage.OrderBook.Invariant.{IsBook}
use lumendark.Executor.MessageHandler.{
  State, process_message, dispatch, process_order, parse_order, check_positive, check_and_place,
  process_deposit, credit_deposit, place_order, create_and_match, run_match, finish_order,
  process_trades, process_trade, settle_users, put_action, add_remaining, note_result,
}
use lumendark.Executor.MessageHandler.Solvency.{IsSolvent}
use lumendark.Executor.MessageHandler.Processing.{process_all, process_all-IsSolvent}

-- Messages that are all processed at one reading of the clock.
abbrev pub timed : List Message → List (ℕ × Message)
timed = map (λ (m : Message). (9, m))

-- User 1 sells, user 2 buys.
abbrev pub deposit_a_message : Message
deposit_a_message =
    Message.create_message 101 0 1 (Payload.deposit Asset.a (decimal (finite (pos 10))) 7 8)

abbrev pub deposit_b_message : Message
deposit_b_message =
    Message.create_message 102 0 2 (Payload.deposit Asset.b (decimal (finite (pos 100))) 7 9)

abbrev pub sell_message : Message
sell_message =
    Message.create_message 103 1 1
      (Payload.order "sell" (decimal (finite (pos 4))) (decimal (finite (pos 6))))

abbrev pub buy_message : Message
buy_message =
    Message.create_message 104 2 2
      (Payload.order "buy" (decimal (finite (pos 5))) (decimal (finite (pos 3))))

abbrev pub withdraw_message : Message
withdraw_message =
    Message.create_message 105 3 1 (Payload.withdraw Asset.a (decimal (finite (pos 2))))

abbrev pub cancel_message : Message
cancel_message = Message.create_message 106 3 1 (Payload.cancel (some 0))

abbrev pub empty_state : State
empty_state = record {
  users = [];
  book = OrderBook.empty;
  actions = [];
  next = 0;
  now = 9;
  message = deposit_a_message;
}

abbrev pub resting_state : State
resting_state =
    (process_all (timed (deposit_a_message ∷ deposit_b_message ∷ sell_message ∷ [])) []
      empty_state).1

abbrev pub traded_state : State
traded_state = (process_all (timed (buy_message ∷ [])) [] resting_state).1

pub empty_state-IsSolvent : IsSolvent empty_state
unfolding holding sum
empty_state-IsSolvent = record {
  book = record {
    dict = tt;
    resting = tt;
    bids = record {
      refers = tt;
      distinct = tt;
      sorted = tt;
      complete = λ i o e same. absurd (cc e);
    };
    asks = record {
      refers = tt;
      distinct = tt;
      sorted = tt;
      complete = λ i o e same. absurd (cc e);
    };
    uncrossed = λ i j bid ask e f c. absurd (cc e);
  };
  covers = record { at = λ v y. (omega arith, omega arith) };
}

pub resting_state-IsSolvent : IsSolvent resting_state
resting_state-IsSolvent =
    process_all-IsSolvent (timed (deposit_a_message ∷ deposit_b_message ∷ sell_message ∷ [])) []
      empty_state empty_state-IsSolvent

-- A buy order below the price of the sell order, which rests.
abbrev pub low_message : Message
low_message =
    Message.create_message 107 2 2
      (Payload.order "buy" (decimal (finite (pos 3))) (decimal (finite (pos 2))))

abbrev pub low_order : Order
low_order = record {
  id = 1;
  user_address = 2;
  side = buy;
  price = pos 3;
  quantity = pos 2;
  filled_quantity = pos 0;
  status = Order.open_order;
  created_at = 9;
}

-- A buy order for more than the book offers.
abbrev pub large_order : Order
large_order = record low_order { price = pos 5; quantity = pos 10 }

-- A second sell order, at a higher price.
abbrev pub dear_message : Message
dear_message =
    Message.create_message 108 2 1
      (Payload.order "sell" (decimal (finite (pos 5))) (decimal (finite (pos 4))))

abbrev pub two_sells : State
two_sells = (process_all (timed (dear_message ∷ [])) [] resting_state).1

pub two_sells-IsSolvent : IsSolvent two_sells
two_sells-IsSolvent =
    process_all-IsSolvent (timed (dear_message ∷ [])) [] resting_state resting_state-IsSolvent

-- After the deposits and the sell order, and after the buy order on top. The buyer offers 5 and pays 4 for
-- each of 3 units: 12 of the 15 that were locked are consumed, and 3 stay locked without an open order.
balances :
    (holding resting_state.users 1 Asset.a ≡ record { available = pos 4; liabilities = pos 6 })
    × (holding traded_state.users 1 Asset.a ≡ record { available = pos 4; liabilities = pos 3 })
    × (holding traded_state.users 1 Asset.b ≡ record { available = pos 12; liabilities = pos 0 })
    × (holding traded_state.users 2 Asset.a ≡ record { available = pos 3; liabilities = pos 0 })
    × (holding traded_state.users 2 Asset.b ≡ record { available = pos 85; liabilities = pos 3 })
    × (OrderBook.get_user_orders 2 traded_state.book ≡ [])
unfolding holding process_message dispatch Message.create_message process_order parse_order
    Order.parse_side check_positive check_and_place process_deposit credit_deposit UserStore.deposit
    UserStore.get_or_create User.deposit UserStore.can_allocate place_order UserStore.allocate
    User.allocate create_and_match run_match Engine.match_order Engine.match_side Engine.match_sell
    Engine.match_buy OrderBook.iter_matching_bids OrderBook.iter_matching_asks OrderBook.take_while
    OrderBook.objects Engine.match_loop Engine.match_resting Engine.execute Engine.fill_resting
    Engine.buy_trade Trade.create Order.fill OrderBook.remove OrderBook.unlist_order
    OrderBook.sorted_discard Order.create finish_order process_trades process_trade settle_users
    put_action Message.create_action UserStore.consume_liability User.consume_liability
    UserStore.credit add_remaining Engine.remaining_order note_result OrderBook.add
    OrderBook.list_order OrderBook.sorted_add OrderBook.key_ltb OrderBook.get_user_orders ◌+ℤ◌ ◌-ℤ◌
    ◌*ℤ◌
balances = (refl, refl, refl, refl, refl, refl)

-- The state in which a message is processed next.
abbrev pub next_message : Message → State
next_message m = record resting_state { message = m }

pub next_message-IsSolvent : (m : Message) → IsSolvent (next_message m)
next_message-IsSolvent m = record {
  book = resting_state-IsSolvent.book;
  covers = resting_state-IsSolvent.covers;
}

-- The stores then.
abbrev pub sell_order : Order
sell_order = record {
  id = 0;
  user_address = 1;
  side = sell;
  price = pos 4;
  quantity = pos 6;
  filled_quantity = pos 0;
  status = Order.open_order;
  created_at = 9;
}

abbrev pub dear_order : Order
dear_order = record sell_order { id = 1; price = pos 5; quantity = pos 4 }

abbrev pub buyer : User
buyer = record {
  address = 2;
  balance_a = record { available = pos 0; liabilities = pos 0 };
  balance_b = record { available = pos 100; liabilities = pos 0 };
}

abbrev pub seller : User
seller = record {
  address = 1;
  balance_a = record { available = pos 4; liabilities = pos 6 };
  balance_b = record { available = pos 0; liabilities = pos 0 };
}

pub stores_then :
    (lookup 2 resting_state.users ≡ some buyer)
    × (holding resting_state.users 2 Asset.b ≡ record { available = pos 100; liabilities = pos 0 })
    × (holding resting_state.users 1 Asset.a ≡ record { available = pos 4; liabilities = pos 6 })
    × (lookup 0 resting_state.book.orders ≡ some sell_order)
    × (resting_state.next ≡ 1)
    × (lookup 5 resting_state.book.orders ≡ none)
    × (lookup 1 resting_state.users ≡ some seller)
    × (resting_state.book.orders ≡ (0, sell_order) ∷ [])
    × (lookup 1 (process_all (timed (low_message ∷ [])) [] resting_state).1.book.orders
        ≡ some low_order)
    × (lookup 0 (process_all (timed (low_message ∷ [])) [] resting_state).1.book.orders
        ≡ some sell_order)
    × (Order.remaining_quantity (Engine.match_order 9 large_order resting_state.book 2).incoming
        ≡ pos 4)
    × (lookup 0 two_sells.book.orders ≡ some sell_order)
    × (lookup 1 two_sells.book.orders ≡ some dear_order)
    × Traded buy 1 (Engine.match_order 9 (record large_order { id = 2 }) two_sells.book 3).trades
unfolding holding process_message dispatch Message.create_message process_order parse_order
    Order.parse_side check_positive check_and_place process_deposit credit_deposit UserStore.deposit
    UserStore.get_or_create User.deposit UserStore.can_allocate place_order UserStore.allocate
    User.allocate create_and_match run_match Engine.match_order Engine.match_side Engine.match_sell
    Engine.match_buy OrderBook.iter_matching_bids OrderBook.iter_matching_asks OrderBook.take_while
    OrderBook.objects Engine.match_loop Engine.match_resting Engine.execute Engine.fill_resting
    Engine.buy_trade Trade.create Order.fill OrderBook.remove OrderBook.unlist_order
    OrderBook.sorted_discard Order.create finish_order process_trades process_trade settle_users
    put_action Message.create_action UserStore.consume_liability User.consume_liability
    UserStore.credit add_remaining Engine.remaining_order note_result OrderBook.add
    OrderBook.list_order OrderBook.sorted_add OrderBook.key_ltb OrderBook.get_user_orders ◌+ℤ◌ ◌-ℤ◌
    ◌*ℤ◌
stores_then =
    (refl, refl, refl, refl, refl, refl, refl, refl, refl, refl, refl, refl, refl, inr (inl refl))
