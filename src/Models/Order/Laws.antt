-- ===== src/Models/Order/Laws.antt =====
-- What a fill does to the quantities and to the liability of an order.
use lumendark.Common.{◌≡◌, refl, sym, arith, ◌-ℤ◌, ◌*ℤ◌, int_laws, mul-sub, Decimal, ap, ◌∙◌}
use lumendark.Models.Order.{Order, OrderSide, buy, sell, fill, remaining_quantity, liability_amount}

-- What is locked for a quantity at the order's price.
abbrev pub locked_for : OrderSide → Decimal → Decimal → Decimal
locked_for buy price quantity = price *ℤ quantity
locked_for sell price quantity = quantity

pub liability_amount-eq :
    (o : Order) → liability_amount o ≡ locked_for o.side o.price (remaining_quantity o)
unfolding liability_amount
liability_amount-eq o = ground arith

module _ (q : Decimal) (o : Order) where
  pub remaining_quantity-fill : remaining_quantity (fill q o) ≡ remaining_quantity o -ℤ q
  unfolding fill
  remaining_quantity-fill = omega int_laws

locked_for-sub :
    (side : OrderSide) (p r q : Decimal)
    → locked_for side p (r -ℤ q) ≡ locked_for side p r -ℤ locked_for side p q
locked_for-sub buy p r q = mul-sub p r q
locked_for-sub sell p r q = refl

pub liability_amount-fill :
    (q : Decimal) (o : Order)
    → liability_amount (fill q o) ≡ liability_amount o -ℤ locked_for o.side o.price q
unfolding fill
liability_amount-fill q o =
    liability_amount-eq (fill q o)
    ∙ ap (locked_for o.side o.price) (remaining_quantity-fill q o)
    ∙ locked_for-sub o.side o.price (remaining_quantity o) q
    ∙ ap (λ l. l -ℤ locked_for o.side o.price q) (sym (liability_amount-eq o))
