-- ===== src/Models/Order.antt =====
-- backend/lumendark/models/order.py: limit orders. Ids and addresses are only compared, so they are
-- naturals; `created_at` is a clock reading.
pub mod Laws
use Prim.Native.String.{String}
use text.Mathlib.Text.{◌==◌ as str_eq}
use lumendark.Common.{
  ℕ, Bool, true, false, Option, none, some, Decimal, pos, ◌+ℤ◌, ◌-ℤ◌, ◌*ℤ◌, eqb_ℤ, if◌then◌else◌,
}

pub data OrderSide : Type 0 where
  buy sell : OrderSide

-- `OrderSide(text)`; `none` is the `ValueError` on another text.
unfoldable pub parse_side : String → Option OrderSide
parse_side text =
    if str_eq text "buy" then some buy else if str_eq text "sell" then some sell else none

pub data OrderStatus : Type 0 where
  open_order partially_filled filled cancelled : OrderStatus

-- An asset's text: "a", "b" or any other.
pub data Asset : Type 0 where
  a b : Asset
  other : String → Asset

pub record Order : Type 0 where
  pub id : ℕ
  pub user_address : ℕ
  pub side : OrderSide
  pub price : Decimal
  pub quantity : Decimal
  pub filled_quantity : Decimal
  pub status : OrderStatus
  pub created_at : ℕ

-- `Order.create`, given the id that `uuid4` returns and the clock's reading.
unfoldable pub create : ℕ → ℕ → ℕ → OrderSide → Decimal → Decimal → Order
create uuid now user_address side price quantity = record {
  id = uuid;
  user_address = user_address;
  side = side;
  price = price;
  quantity = quantity;
  filled_quantity = pos 0;
  status = open_order;
  created_at = now;
}

abbrev pub remaining_quantity : Order → Decimal
remaining_quantity o = o.quantity -ℤ o.filled_quantity

active_status : OrderStatus → Bool
active_status open_order = true
active_status partially_filled = true
active_status _ = false

unfoldable pub is_active : Order → Bool
unfolding active_status
is_active o = active_status o.status

unfoldable pub liability_amount : Order → Decimal
liability_amount o = elim o.side [
  | buy ↦ o.price *ℤ remaining_quantity o
  | sell ↦ remaining_quantity o
]

unfoldable pub liability_asset : Order → Asset
liability_asset o = elim o.side [ buy ↦ b | sell ↦ a ]

unfoldable pub fill : Decimal → Order → Order
fill quantity o =
    let filled' = record o { filled_quantity = o.filled_quantity +ℤ quantity } in
    record filled' {
      status = if eqb_ℤ (remaining_quantity filled') (pos 0) then filled else partially_filled;
    }

unfoldable pub cancel : Order → Order
cancel o = record o { status = cancelled }
