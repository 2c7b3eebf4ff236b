-- ===== src/Matching/Engine.antt =====
-- backend/lumendark/matching/engine.py. `uuid4` is a counter, so ids never repeat, and a call reads the
-- clock once. The loops of `_match_buy` and `_match_sell` differ in the addresses of the trade only.
pub mod Filling
pub mod Match
pub mod Loop
pub mod Exhaustion
pub mod Clearing
pub mod Priority
pub mod PriceTime
pub mod Owed
use lumendark.Common.{
  ℕ, suc, true, false, Option, none, some, List, [], ◌∷◌, ◌++◌, Decimal, pos, ltb_ℤ, leb_ℤ, eqb_ℤ,
  min_ℤ, ◌==◌, if◌then◌else◌,
}
use lumendark.Models.Order.{Order, OrderSide, buy, sell, remaining_quantity, fill}
use lumendark.Models.Trade
use lumendark.Models.Trade.{Trade}
use lumendark.Storage.OrderBook
use lumendark.Storage.OrderBook.{OrderBook, iter_matching_asks, iter_matching_bids}

-- The variables of a loop: `trades`, the object `incoming`, the book and the next id.
pub record Run : Type 0 where
  pub trades : List Trade
  pub incoming : Order
  pub book : OrderBook
  pub next : ℕ

-- A trade of a quantity between the incoming and a resting order, at the resting order's price.
abbrev pub TradeOf : Type 0
TradeOf = ℕ → Order → Order → Decimal → Trade

unfoldable pub buy_trade : ℕ → TradeOf
buy_trade now uuid incoming resting =
    Trade.create uuid now incoming.user_address resting.user_address incoming.id resting.id
      resting.price

unfoldable pub sell_trade : ℕ → TradeOf
sell_trade now uuid incoming resting =
    Trade.create uuid now resting.user_address incoming.user_address resting.id incoming.id
      resting.price

-- `resting.fill(qty)`, on the object that the book shares, and the removal once nothing remains.
unfoldable pub fill_resting : Decimal → Order → OrderBook → OrderBook
fill_resting qty resting book =
    let resting' = fill qty resting in
    let book' = OrderBook.write resting' book in
    if eqb_ℤ (remaining_quantity resting') (pos 0)
    then (OrderBook.remove resting.id book').1
    else book'

abbrev pub trade_quantity : Order → Order → Decimal
trade_quantity incoming resting = min_ℤ (remaining_quantity incoming) (remaining_quantity resting)

-- The body of a loop behind its tests.
unfoldable pub execute : TradeOf → Run → Order → Run
execute trade s resting =
    let qty = trade_quantity s.incoming resting in
    record {
      trades = s.trades ++ trade s.next s.incoming resting qty ∷ [];
      incoming = fill qty s.incoming;
      book = fill_resting qty resting s.book;
      next = suc s.next;
    }

-- One round: `continue` at an order of the same user.
unfoldable pub match_resting : TradeOf → Run → Order → Run
unfolding execute
match_resting trade s resting =
    if resting.user_address == s.incoming.user_address then s else execute trade s resting

-- The loop over the orders that the book's generator had yielded, with its `break`.
unfoldable pub match_loop : TradeOf → Run → List Order → Run
unfolding match_resting
match_loop trade s [] = s
match_loop trade s (resting ∷ rest) = elim (leb_ℤ (remaining_quantity s.incoming) (pos 0)) [
  | true ↦ s
  | false ↦ match_loop trade (match_resting trade s resting) rest
]

abbrev pub start : Order → OrderBook → ℕ → Run
start incoming book next = record { trades = []; incoming = incoming; book = book; next = next }

unfoldable pub match_buy : ℕ → Order → OrderBook → ℕ → Run
match_buy now incoming book next =
    match_loop (buy_trade now) (start incoming book next) (iter_matching_asks incoming.price book)

unfoldable pub match_sell : ℕ → Order → OrderBook → ℕ → Run
match_sell now incoming book next =
    match_loop (sell_trade now) (start incoming book next) (iter_matching_bids incoming.price book)

unfoldable pub match_side : OrderSide → ℕ → Order → OrderBook → ℕ → Run
match_side buy = match_buy
match_side sell = match_sell

-- `match`: the loop's final variables; `MatchResult` has the trades and `remaining_order`.
unfoldable pub match_order : ℕ → Order → OrderBook → ℕ → Run
unfolding match_side
match_order now incoming = match_side incoming.side now incoming

unfoldable pub remaining_order : Run → Option Order
remaining_order s = if ltb_ℤ (pos 0) (remaining_quantity s.incoming) then some s.incoming else none
