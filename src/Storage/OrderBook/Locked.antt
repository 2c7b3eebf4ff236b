-- ===== src/Storage/OrderBook/Locked.antt =====
-- What the open orders of a book lock, user by user and asset by asset.
use lumendark.Common.{
  ℕ, [], ◌∷◌, arith, pos, ◌≤ℤ◌, int_laws, mul_nonneg, mul_zero, ap, ◌≡◌, ◌*ℤ◌, ℤ,
}
use lumendark.Common.Dict.{Dict}
use lumendark.Common.Dict.Sum.{sum, All}
use lumendark.Models.Order.{Order, Asset, liability_amount, liability_asset, remaining_quantity}
use lumendark.Storage.UserStore.Cover.{Demand, bump}
use lumendark.Storage.OrderBook.{OrderBook}
use lumendark.Storage.OrderBook.Invariant.{IsResting}

abbrev pub lock : Order → Demand
lock o = bump o.user_address (liability_asset o) (liability_amount o)

abbrev pub locked_in : Dict Order → Demand
locked_in orders v y = sum (λ o. lock o v y) orders

abbrev pub locked : OrderBook → Demand
locked book = locked_in book.orders

liability_amount_nonneg :
    (o : Order) → pos 0 ≤ℤ o.price → pos 0 ≤ℤ remaining_quantity o → pos 0 ≤ℤ liability_amount o
unfolding liability_amount
liability_amount_nonneg o hp hq = ground (arith, mul_nonneg o.price (remaining_quantity o) hp hq)

pub lock_nonneg :
    (o : Order)
    → pos 0 ≤ℤ o.price
    → pos 0 ≤ℤ remaining_quantity o
    → (v : ℕ) (y : Asset) → pos 0 ≤ℤ lock o v y
lock_nonneg o hp hq v y = ground (arith, liability_amount_nonneg o hp hq)

pub locked_in_nonneg :
    (next : ℕ) (orders : Dict Order)
    → All (IsResting next) orders
    → (v : ℕ) (y : Asset) → pos 0 ≤ℤ locked_in orders v y
unfolding sum
locked_in_nonneg next [] h v y = omega arith
locked_in_nonneg next ((k, o) ∷ d) h v y = omega (
  int_laws,
  lock_nonneg o (omega (arith, h.0.priced)) (omega (arith, h.0.remains)) v y,
  locked_in_nonneg next d h.1 v y,
)

liability_amount_zero : (o : Order) → remaining_quantity o ≡ pos 0 → liability_amount o ≡ pos 0
unfolding liability_amount
liability_amount_zero o e = ground (arith, mul_zero o.price, ap (λ (q : ℤ). o.price *ℤ q) e)

-- An order with nothing left to fill locks nothing.
pub lock_zero :
    (o : Order) → remaining_quantity o ≡ pos 0 → (v : ℕ) (y : Asset) → lock o v y ≡ pos 0
lock_zero o e v y = ground (arith, liability_amount_zero o e)
