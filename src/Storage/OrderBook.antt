-- ===== src/Storage/OrderBook.antt =====
-- backend/lumendark/storage/order_book.py: the price-time priority book. An order object is shared by
-- the dict and a sorted list: the dict holds it, and a list holds its sort key, which ends in the id
-- that finds the object. `SortedList` computes a key once, when the order is added. The lock is not
-- modelled: a call is one step.
pub mod Invariant
pub mod Locked
mod Sides
pub mod Changes
pub mod Iteration
pub mod Yields
pub mod Precedence
use lumendark.Common.{
  ℕ, Bool, Option, none, some, List, [], ◌∷◌, Decimal, pos, ◌-ℤ◌, ltb_ℤ, leb_ℤ, eqb_ℤ, ltb, ◌==◌,
  ◌&&◌, ◌||◌, if◌then◌else◌, ⊤, Action, ok, err, order_exists,
}
use lumendark.Common.Dict.{Dict, lookup, contains, insert, erase}
use lumendark.Models.Order.{Order, OrderSide, buy, sell}

-- `(±price, created_at, id)`, a tuple that is compared from the left.
pub record Key : Type 0 where
  pub rank : Decimal
  pub created_at : ℕ
  pub id : ℕ

unfoldable pub key_ltb : Key → Key → Bool
key_ltb j k =
    ltb_ℤ j.rank k.rank
    || (eqb_ℤ j.rank k.rank
        && (ltb j.created_at k.created_at || (j.created_at == k.created_at && ltb j.id k.id)))

abbrev pub key_eqb : Key → Key → Bool
key_eqb j k = eqb_ℤ j.rank k.rank && (j.created_at == k.created_at && j.id == k.id)

-- The key functions of `_bids` and `_asks`.
abbrev pub bid_key : Order → Key
bid_key o = record { rank = pos 0 -ℤ o.price; created_at = o.created_at; id = o.id }

abbrev pub ask_key : Order → Key
ask_key o = record { rank = o.price; created_at = o.created_at; id = o.id }

pub record OrderBook : Type 0 where
  pub orders : Dict Order
  pub bids : List Key
  pub asks : List Key

abbrev pub empty : OrderBook
empty = record { orders = []; bids = []; asks = [] }

-- `SortedList.add`: behind every key that is not greater.
unfoldable pub sorted_add : Key → List Key → List Key
sorted_add k [] = k ∷ []
sorted_add k (j ∷ ks) = if key_ltb k j then k ∷ j ∷ ks else j ∷ sorted_add k ks

-- `SortedList.discard`: drops the order of that key, if it is there.
unfoldable pub sorted_discard : Key → List Key → List Key
sorted_discard k [] = []
sorted_discard k (j ∷ ks) = if key_eqb k j then ks else j ∷ sorted_discard k ks

unfoldable pub list_order : Order → OrderSide → OrderBook → OrderBook
list_order o buy book = record book { bids = sorted_add (bid_key o) book.bids }
list_order o sell book = record book { asks = sorted_add (ask_key o) book.asks }

unfoldable pub unlist_order : Order → OrderSide → OrderBook → OrderBook
unlist_order o buy book = record book { bids = sorted_discard (bid_key o) book.bids }
unlist_order o sell book = record book { asks = sorted_discard (ask_key o) book.asks }

unfoldable pub add : Order → Action OrderBook ⊤
unfolding list_order
add o book =
    if contains o.id book.orders
    then (err order_exists, book)
    else (ok tt, list_order o o.side (record book { orders = insert o.id o book.orders }))

unfoldable pub remove : ℕ → OrderBook → Option Order × OrderBook
unfolding unlist_order
remove order_id book = elim (lookup order_id book.orders) [
  | none ↦ (none, book)
  | some o ↦ (some o, unlist_order o o.side (record book { orders = erase order_id book.orders }))
]

abbrev pub get : ℕ → OrderBook → Option Order
get order_id book = lookup order_id book.orders

-- The order objects that a sorted list refers to.
unfoldable pub objects : Dict Order → List Key → List Order
objects orders [] = []
objects orders (k ∷ ks) =
    let rest = objects orders ks in elim (lookup k.id orders) [ none ↦ rest | some o ↦ o ∷ rest ]

abbrev pub get_bids : OrderBook → List Order
get_bids book = objects book.orders book.bids

abbrev pub get_asks : OrderBook → List Order
get_asks book = objects book.orders book.asks

abbrev pub first : List Order → Option Order
first [] = none
first (o ∷ os) = some o

abbrev pub get_best_bid : OrderBook → Option Order
get_best_bid book = first (get_bids book)

abbrev pub get_best_ask : OrderBook → Option Order
get_best_ask book = first (get_asks book)

-- A generator that stops at the first order which fails the test.
unfoldable pub take_while : (Order → Bool) → List Order → List Order
take_while test [] = []
take_while test (o ∷ os) = if test o then o ∷ take_while test os else []

unfoldable pub iter_matching_asks : Decimal → OrderBook → List Order
iter_matching_asks max_price book = take_while (λ o. leb_ℤ o.price max_price) (get_asks book)

unfoldable pub iter_matching_bids : Decimal → OrderBook → List Order
iter_matching_bids min_price book = take_while (λ o. leb_ℤ min_price o.price) (get_bids book)

-- `_orders[id] = o` for an object that the book already holds: a change of the shared object.
abbrev pub write : Order → OrderBook → OrderBook
write o book = record book { orders = insert o.id o book.orders }

values_of : ℕ → Dict Order → List Order
values_of address [] = []
values_of address ((id, o) ∷ d) =
    let rest = values_of address d in if o.user_address == address then o ∷ rest else rest

unfoldable pub get_user_orders : ℕ → OrderBook → List Order
unfolding values_of
get_user_orders address book = values_of address book.orders
