-- ===== src/Api/Routes.antt =====
-- backend/lumendark/api/routes: orders.py, withdrawals.py and status.py. The address of the user is what
-- `verify_request_signature` returned. A request that a route's patterns refuse is `none`, and so is the
-- response to the status of an unknown message.
pub mod Replies
pub mod Decided
use Prim.Native.String.{String}
use lumendark.Common.{
  ℕ, suc, Option, none, some, List, Decimal, Result, is_some, if◌then◌else◌, ltb,
}
use lumendark.Models.Order.{Asset, parse_side}
use lumendark.Models.Message.{Message, MessageStatus, NumberText, Payload, Reason, create_message}
use lumendark.Storage.UserStore
use lumendark.Storage.UserStore.{UserStore}
use lumendark.Storage.MessageStore
use lumendark.Storage.MessageStore.{MessageStore}
use lumendark.Queues.{put}

-- What the routes share: `message_store`, `message_queue`, the supply of ids and the clock.
pub record Server : Type 0 where
  pub messages : MessageStore
  pub queue : List Message
  pub next : ℕ
  pub now : ℕ

pub record OrderRequest : Type 0 where
  pub side : String
  pub price : NumberText
  pub quantity : NumberText

-- `none` is the empty text.
pub record CancelRequest : Type 0 where
  pub order_id : Option ℕ

pub record WithdrawalRequest : Type 0 where
  pub asset : Asset
  pub amount : NumberText

-- The end of each route: the message is made, stored and queued, and its id is the response.
unfoldable pub submit : ℕ → Payload → Server → Option ℕ × Server
submit user_address payload srv =
    let message = create_message srv.next srv.now user_address payload in
    (
      some message.id,
      record srv {
        messages = MessageStore.add message srv.messages;
        queue = put message srv.queue;
        next = suc srv.next;
      },
    )

unfoldable pub submit_order : OrderRequest → ℕ → Server → Option ℕ × Server
submit_order order user_address srv =
    if is_some (parse_side order.side)
    then submit user_address (Payload.order order.side order.price order.quantity) srv
    else (none, srv)

unfoldable pub cancel_order : CancelRequest → ℕ → Server → Option ℕ × Server
cancel_order cancel user_address = submit user_address (Payload.cancel cancel.order_id)

unfoldable pub request_withdrawal : WithdrawalRequest → ℕ → Server → Option ℕ × Server
request_withdrawal withdrawal user_address srv = elim withdrawal.asset [
  | Asset.other t ↦ (none, srv)
  | Asset.a ↦ submit user_address (Payload.withdraw Asset.a withdrawal.amount) srv
  | Asset.b ↦ submit user_address (Payload.withdraw Asset.b withdrawal.amount) srv
]

pub record MessageStatusResponse : Type 0 where
  pub message_id : ℕ
  pub payload : Payload
  pub status : MessageStatus
  pub rejection_reason : Option Reason
  pub created_at : ℕ
  pub processed_at : Option ℕ
  pub order_id : Option ℕ
  pub trades_count : Option ℕ

-- The response carries the type of the payload; the model keeps the payload.
abbrev pub response_of : Message → MessageStatusResponse
response_of m = record {
  message_id = m.id;
  payload = m.payload;
  status = m.status;
  rejection_reason = m.rejection_reason;
  created_at = m.created_at;
  processed_at = m.processed_at;
  order_id = m.order_id;
  trades_count = if ltb 0 m.trades_count then some m.trades_count else none;
}

unfoldable pub get_message_status : ℕ → MessageStore → Option MessageStatusResponse
get_message_status message_id store = elim (MessageStore.get message_id store) [
  | none ↦ none
  | some m ↦ some (response_of m)
]

-- The readers' results, before `str`; a raise in one would fail the request.
pub record BalanceResponse : Type 0 where
  pub user_address : ℕ
  pub asset_a_available : Result Decimal
  pub asset_a_liabilities : Result Decimal
  pub asset_b_available : Result Decimal
  pub asset_b_liabilities : Result Decimal

unfoldable pub get_user_balance : ℕ → UserStore → BalanceResponse
get_user_balance user_address users = record {
  user_address = user_address;
  asset_a_available = UserStore.get_available user_address Asset.a users;
  asset_a_liabilities = UserStore.get_liabilities user_address Asset.a users;
  asset_b_available = UserStore.get_available user_address Asset.b users;
  asset_b_liabilities = UserStore.get_liabilities user_address Asset.b users;
}
