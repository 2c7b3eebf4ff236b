-- ===== src/Models/Message.antt =====
-- backend/lumendark/models/message.py: requests, and actions for the blockchain.
use Prim.Native.String.{String}
use lumendark.Common.{ℕ, Option, none, some, Decimal, Error, Action, raise, pure, invalid_operation}
use lumendark.Models.Order.{Asset}

pub data MessageStatus : Type 0 where
  pending processing accepted rejected : MessageStatus

-- A number that is not infinite, as `Decimal` holds it.
pub data Value : Type 0 where
  nan : Value
  finite : Decimal → Value

-- A text by what `Decimal(str(text))` makes of it; `malformed` is the `InvalidOperation`.
pub data NumberText : Type 0 where
  malformed : NumberText
  decimal : Value → NumberText

-- A value in a comparison: a NaN raises, and any other goes on as the number that it is.
abbrev pub compared : {S : Type 0} → Value → Action S Decimal
compared nan = raise invalid_operation
compared (finite d) = pure d

-- `type` and `payload`. `order_id` is `none` where the text is missing or empty.
pub data Payload : Type 0 where
  deposit : Asset → NumberText → ℕ → ℕ → Payload
  order : String → NumberText → NumberText → Payload
  cancel : Option ℕ → Payload
  withdraw : Asset → NumberText → Payload

-- The texts that `reject` is given.
pub data Reason : Type 0 where
  invalid_amount amount_not_positive invalid_order_parameters not_positive : Reason
  user_unknown missing_order_id not_your_order : Reason
  insufficient : Decimal → Decimal → Reason
  order_not_found : ℕ → Reason
  asset_invalid : Asset → Reason
  raised : Error → Reason

pub record Message : Type 0 where
  pub id : ℕ
  pub user_address : ℕ
  pub payload : Payload
  pub status : MessageStatus
  pub rejection_reason : Option Reason
  pub created_at : ℕ
  pub processed_at : Option ℕ
  pub order_id : Option ℕ
  pub trades_count : ℕ

-- The factories `create_deposit`, `create_order`, `create_cancel` and `create_withdraw`, given the id
-- that `uuid4` returns and the clock's reading.
unfoldable pub create_message : ℕ → ℕ → ℕ → Payload → Message
create_message uuid now user_address payload = record {
  id = uuid;
  user_address = user_address;
  payload = payload;
  status = pending;
  rejection_reason = none;
  created_at = now;
  processed_at = none;
  order_id = none;
  trades_count = 0;
}

abbrev pub accept : ℕ → Message → Message
accept now m = record m { status = accepted; processed_at = some now }

abbrev pub reject : ℕ → Reason → Message → Message
reject now reason m = record m {
  status = rejected;
  rejection_reason = some reason;
  processed_at = some now;
}

-- `type` and `payload` of an action; its amounts are decimals, which `str` writes out.
pub data ActionPayload : Type 0 where
  withdrawal : ℕ → Asset → Decimal → ActionPayload
  settlement : ℕ → ℕ → ℕ → Decimal → Decimal → ActionPayload

pub record ChainAction : Type 0 where
  pub id : ℕ
  pub payload : ActionPayload
  pub status : MessageStatus
  pub created_at : ℕ
  pub tx_hash : Option ℕ

-- `Action.create_withdrawal` and `Action.create_settlement`.
unfoldable pub create_action : ℕ → ℕ → ActionPayload → ChainAction
create_action uuid now payload = record {
  id = uuid;
  payload = payload;
  status = pending;
  created_at = now;
  tx_hash = none;
}
