-- ===== src/Matching/Engine/Match.antt =====
-- `MatchingEngine.match` as a whole, on a book in order.
use lumendark.Common.{ℕ, ◌≤◌, ◌≡◌, refl, true, arith, pos, ◌+ℤ◌, ◌≤ℤ◌, int_laws, Each-map}
use lumendark.Models.Order.{Order, OrderSide, buy, sell, remaining_quantity, is_active}
use lumendark.Storage.OrderBook.{OrderBook, iter_matching_asks, iter_matching_bids}
use lumendark.Storage.OrderBook.Invariant.{IsBook}
use lumendark.Storage.OrderBook.Iteration.{
  iter_matching_asks-Each, iter_matching_asks-Distinct, iter_matching_bids-Each,
  iter_matching_bids-Distinct,
}
use lumendark.Storage.OrderBook.Locked.{lock, locked}
use lumendark.Matching.Engine.{start, match_order, match_side, match_buy, match_sell}
use lumendark.Matching.Engine.Owed.{pending}
use lumendark.Matching.Engine.Loop.{IsRun, volume, match_loop-IsRun, next-match_loop}

pub start-IsRun :
    (side : OrderSide) {next : ℕ} (order : Order) (book : OrderBook) (n : ℕ)
    → order.side ≡ side
    → IsBook next book
    → pos 1 ≤ℤ remaining_quantity order
    → is_active order ≡ true
    → IsRun side next order (λ v y. locked book v y +ℤ lock order v y) (start order book n)
start-IsRun side order book n e h more act = record {
  book = h;
  side_kept = e;
  price_kept = refl;
  user_kept = refl;
  id_kept = refl;
  active = λ _. act;
  left = omega (arith, more);
  owed = λ v y. unfold pending in omega int_laws;
  trades = tt;
  filled = unfold volume in omega int_laws;
}

match_side-IsRun :
    (side : OrderSide) (now : ℕ) {next : ℕ} (order : Order) (book : OrderBook) (n : ℕ)
    → order.side ≡ side
    → IsBook next book
    → pos 1 ≤ℤ remaining_quantity order
    → is_active order ≡ true
    → IsRun side next order
        (λ v y. locked book v y +ℤ lock order v y)
        (match_side side now order book n)
unfolding match_side match_buy match_sell
match_side-IsRun buy now order book n e h more act =
    match_loop-IsRun buy now _ order _ (iter_matching_asks order.price book) (start order book n)
      (start-IsRun buy order book n e h more act)
      (Each-map _ _ (λ r p. record { found = p.0.0; other_side = p.0.1; crosses = p.1 })
        (iter_matching_asks order.price book) (iter_matching_asks-Each book h order.price))
      (iter_matching_asks-Distinct book h order.price)
match_side-IsRun sell now order book n e h more act =
    match_loop-IsRun sell now _ order _ (iter_matching_bids order.price book) (start order book n)
      (start-IsRun sell order book n e h more act)
      (Each-map _ _ (λ r p. record { found = p.0.0; other_side = p.0.1; crosses = p.1 })
        (iter_matching_bids order.price book) (iter_matching_bids-Each book h order.price))
      (iter_matching_bids-Distinct book h order.price)

-- From a book in order, the match of an active order with something to fill ends with a book in
-- order and with trades that this order may make: at a positive price within its limit, of a
-- positive quantity, between the order's user and another one. The quantities traded and left add
-- up to what was left to fill, what is left is not negative, and what the book and the order lock
-- afterwards together with what the trades consume is, for each user and asset, at most what the
-- book and the order locked before.
pub match_order-IsRun :
    (now : ℕ) {next : ℕ} (order : Order) (book : OrderBook) (n : ℕ)
    → IsBook next book
    → pos 1 ≤ℤ remaining_quantity order
    → is_active order ≡ true
    → IsRun order.side next order
        (λ v y. locked book v y +ℤ lock order v y)
        (match_order now order book n)
unfolding match_order
match_order-IsRun now order book n h more act =
    match_side-IsRun order.side now order book n refl h more act

-- A match hands out ids from the supply on.
next-match_side :
    (side : OrderSide) (now : ℕ) (order : Order) (book : OrderBook) (n : ℕ)
    → n ≤ (match_side side now order book n).next
unfolding match_side match_buy match_sell
next-match_side buy now order book n =
    next-match_loop buy now n order (λ _ _. pos 0) (iter_matching_asks order.price book)
      (start order book n)
next-match_side sell now order book n =
    next-match_loop sell now n order (λ _ _. pos 0) (iter_matching_bids order.price book)
      (start order book n)

pub next-match_order :
    (now : ℕ) (order : Order) (book : OrderBook) (n : ℕ) → n ≤ (match_order now order book n).next
unfolding match_order
next-match_order now order book n = next-match_side order.side now order book n
