-- ===== src/Matching/Engine/Owed.antt =====
-- What a trade will consume, and one exchange: what the two orders lock afterwards and what the trade
-- will consume is no more than what they locked.
use lumendark.Common.{
  ℕ, ◌≡◌, Bool, true, false, List, [], ◌∷◌, ◌++◌, if◌then◌else◌, ℤ, pos, ◌+ℤ◌, ◌-ℤ◌, ◌*ℤ◌, ◌≤ℤ◌,
  int_laws, Decimal, mul_mono,
}
use lumendark.Models.Order.{
  Order, Asset, OrderSide, buy, sell, fill, remaining_quantity, liability_asset,
}
use lumendark.Models.Order.Laws.{locked_for, liability_amount-eq, liability_amount-fill}
use lumendark.Models.Trade.{Trade, amount_a, amount_b}
use lumendark.Models.Trade
use lumendark.Storage.UserStore.Holdings.{concerns}
use lumendark.Storage.UserStore.Cover.{Demand, bump}
use lumendark.Storage.OrderBook.Locked.{lock}
use lumendark.Matching.Engine.{TradeOf, buy_trade, sell_trade}

-- The buyer's B and the seller's A.
abbrev pub traded : Trade → Demand
traded t v y =
    bump t.buyer_address Asset.b (amount_b t) v y +ℤ bump t.seller_address Asset.a (amount_a t) v y

unfoldable pub pending : List Trade → Demand
pending [] v y = pos 0
pending (t ∷ ts) v y = traded t v y +ℤ pending ts v y

pub pending-append :
    (ts us : List Trade) (v : ℕ) (y : Asset)
    → pending (ts ++ us) v y ≡ pending ts v y +ℤ pending us v y
unfolding pending
pending-append [] us v y = omega int_laws
pending-append (t ∷ ts) us v y = rw (pending-append ts us v y) (omega int_laws)

module _ (q : Decimal) (o : Order) (v : ℕ) (y : Asset) where
  lock_side :
      (side : OrderSide)
      → o.side ≡ side
      → lock o v y
        ≡ bump o.user_address
            (elim side [ buy ↦ Asset.b | sell ↦ Asset.a ])
            (locked_for side o.price (remaining_quantity o))
            v
            y
  unfolding liability_asset
  lock_side side e = rw (liability_amount-eq o, e)

  lock-fill_side :
      (side : OrderSide)
      → o.side ≡ side
      → lock (fill q o) v y
        ≡ bump o.user_address
            (elim side [ buy ↦ Asset.b | sell ↦ Asset.a ])
            (locked_for side o.price (remaining_quantity o) -ℤ locked_for side o.price q)
            v
            y
  unfolding liability_asset
  lock-fill_side side e =
      rw (liability_amount-fill q o, liability_amount-eq o) (unfold fill in rw e)

abbrev pub opposite : OrderSide → OrderSide
opposite buy = sell
opposite sell = buy

-- A price that an order of a side and a limit accepts.
abbrev pub Crosses : OrderSide → Decimal → Decimal → Type 0
Crosses buy limit price = price ≤ℤ limit
Crosses sell limit price = limit ≤ℤ price

abbrev pub taker_trade : OrderSide → ℕ → TradeOf
taker_trade buy = buy_trade
taker_trade sell = sell_trade

abbrev when : Bool → ℤ → ℤ
when c x = if c then x else pos 0

-- The taker buys: `r` and `t` remain, and `u` is what the taker locked for `q` at its own limit.
buyer_exchange :
    (c d : Bool) (r t q paid u : ℤ)
    → paid ≤ℤ u
    → when c (r -ℤ q) +ℤ (when d paid +ℤ when c q) +ℤ when d (t -ℤ u) ≤ℤ when c r +ℤ when d t
buyer_exchange true true r t q paid u h = omega (int_laws, h)
buyer_exchange true false r t q paid u h = omega (int_laws, h)
buyer_exchange false true r t q paid u h = omega (int_laws, h)
buyer_exchange false false r t q paid u h = omega (int_laws, h)

seller_exchange :
    (c d : Bool) (r t q paid : ℤ)
    → when d (r -ℤ paid) +ℤ (when d paid +ℤ when c q) +ℤ when c (t -ℤ q) ≤ℤ when d r +ℤ when c t
seller_exchange true true r t q paid = omega int_laws
seller_exchange true false r t q paid = omega int_laws
seller_exchange false true r t q paid = omega int_laws
seller_exchange false false r t q paid = omega int_laws

pub exchange :
    (side : OrderSide) (now uuid : ℕ) (incoming resting : Order) (q : Decimal)
    → incoming.side ≡ side
    → resting.side ≡ opposite side
    → Crosses side incoming.price resting.price
    → pos 0 ≤ℤ q
    → (v : ℕ) (y : Asset)
    → lock (fill q resting) v y
        +ℤ traded (taker_trade side now uuid incoming resting q) v y
        +ℤ lock (fill q incoming) v y
      ≤ℤ lock resting v y +ℤ lock incoming v y
unfolding buy_trade sell_trade Trade.create
exchange buy now uuid incoming resting q mine other crosses nonneg v y =
    rw
      (
        lock_side q incoming v y buy mine,
        lock_side q resting v y sell other,
        lock-fill_side q incoming v y buy mine,
        lock-fill_side q resting v y sell other,
      )
      (buyer_exchange (concerns resting.user_address Asset.a v y)
        (concerns incoming.user_address Asset.b v y) (remaining_quantity resting)
        (incoming.price *ℤ remaining_quantity incoming) q (resting.price *ℤ q) (incoming.price *ℤ q)
        (mul_mono resting.price incoming.price q crosses nonneg))
exchange sell now uuid incoming resting q mine other crosses nonneg v y =
    rw
      (
        lock_side q incoming v y sell mine,
        lock_side q resting v y buy other,
        lock-fill_side q incoming v y sell mine,
        lock-fill_side q resting v y buy other,
      )
      (seller_exchange (concerns incoming.user_address Asset.a v y)
        (concerns resting.user_address Asset.b v y) (resting.price *ℤ remaining_quantity resting)
        (remaining_quantity incoming) q (resting.price *ℤ q))
