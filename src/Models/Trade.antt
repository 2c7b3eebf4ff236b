-- ===== src/Models/Trade.antt =====
-- backend/lumendark/models/trade.py: executed trades.
use lumendark.Common.{ℕ, Decimal, ◌*ℤ◌}

pub record Trade : Type 0 where
  pub id : ℕ
  pub buyer_address : ℕ
  pub seller_address : ℕ
  pub buy_order_id : ℕ
  pub sell_order_id : ℕ
  pub price : Decimal
  pub quantity : Decimal
  pub created_at : ℕ

-- `Trade.create`, given the id that `uuid4` returns and the clock's reading.
unfoldable pub create : ℕ → ℕ → ℕ → ℕ → ℕ → ℕ → Decimal → Decimal → Trade
create uuid now buyer_address seller_address buy_order_id sell_order_id price quantity = record {
  id = uuid;
  buyer_address = buyer_address;
  seller_address = seller_address;
  buy_order_id = buy_order_id;
  sell_order_id = sell_order_id;
  price = price;
  quantity = quantity;
  created_at = now;
}

abbrev pub value : Trade → Decimal
value t = t.price *ℤ t.quantity

abbrev pub amount_a : Trade → Decimal
amount_a t = t.quantity

abbrev pub amount_b : Trade → Decimal
amount_b t = value t
