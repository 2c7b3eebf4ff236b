-- ===== src/Executor/MessageHandler.antt =====
-- backend/lumendark/executor/message_handler.py: one message at a time. The object `message` that the
-- methods change is a part of the state, and so are the supply of ids and the clock. Logging is left out.
pub mod Chain
pub mod Settling
pub mod Trades
pub mod Solvency
pub mod Finishing
pub mod Placing
pub mod Handling
pub mod Ordering
pub mod Withdrawing
pub mod Cancelling
pub mod Processing
pub mod Queueing
pub mod Accepting
pub mod Releasing
pub mod Keeping
pub mod Identity
use Prim.Native.String.{String}
use lumendark.Common.{
  ℕ, suc, not, Option, none, some, List, [], ◌∷◌, ◌++◌, Decimal, pos, ◌*ℤ◌, leb_ℤ, ◌==◌,
  if◌then◌else◌, ⊤, Action, Result, ok, err, pure, gets, modify, ◌>>=◌, ◌>>◌, length, is_some,
}
use lumendark.Models.Order
use lumendark.Models.Order.{
  Order, OrderSide, buy, sell, Asset, parse_side, liability_amount, liability_asset,
  remaining_quantity,
}
use lumendark.Models.Trade.{Trade, amount_a, amount_b}
use lumendark.Models.Message.{
  Message, Payload, NumberText, malformed, decimal, Value, compared, Reason, ChainAction,
  ActionPayload, withdrawal, settlement, create_action, processing, raised,
}
use lumendark.Models.Message
use lumendark.Storage.UserStore
use lumendark.Storage.UserStore.{UserStore}
use lumendark.Storage.OrderBook
use lumendark.Storage.OrderBook.{OrderBook}
use lumendark.Storage.MessageStore
use lumendark.Queues.{put}
use lumendark.Storage.MessageStore.{MessageStore}
use lumendark.Matching.Engine.{Run, match_order, remaining_order}

pub record State : Type 0 where
  pub users : UserStore
  pub book : OrderBook
  pub actions : List ChainAction
  pub next : ℕ
  pub now : ℕ
  pub message : Message

abbrev pub M : Type 0 → Type 0
M A = Action State A

-- Calls of the stores and of the object `message`.
abbrev pub on_users : {A : Type 0} → Action UserStore A → M A
on_users m s = let (r, users) = m s.users in (r, record s { users = users })

abbrev pub ask_users : {A : Type 0} → (UserStore → Result A) → M A
ask_users read s = (read s.users, s)

abbrev pub on_book : {A : Type 0} → Action OrderBook A → M A
on_book m s = let (r, book) = m s.book in (r, record s { book = book })

abbrev pub accept : M ⊤
accept = modify (λ s. record s { message = Message.accept s.now s.message })

abbrev pub reject : Reason → M ⊤
reject reason = modify (λ s. record s { message = Message.reject s.now reason s.message })

abbrev pub uuid4 : M ℕ
uuid4 s = (ok s.next, record s { next = suc s.next })

-- `self._actions.put(action)`, for a new action
unfoldable pub put_action : ActionPayload → M ⊤
put_action payload = do
  uuid ← uuid4
  modify (λ s. record s { actions = put (create_action uuid s.now payload) s.actions })

unfoldable pub credit_deposit : Asset → Decimal → M ⊤
credit_deposit asset amount = do
  address ← gets (λ s. s.message.user_address)
  if leb_ℤ amount (pos 0)
      then reject Reason.amount_not_positive
      else do on_users (UserStore.deposit address asset amount); accept

unfoldable pub process_deposit : Asset → NumberText → M ⊤
unfolding credit_deposit
process_deposit asset malformed = reject Reason.invalid_amount
process_deposit asset (decimal v) = do amount ← compared v; credit_deposit asset amount

-- The four calls on the user store, in the order of the taker's side.
unfoldable pub settle_users : Trade → OrderSide → Action UserStore ⊤
settle_users trade buy = do
  UserStore.consume_liability trade.buyer_address Asset.b (amount_b trade)
  UserStore.consume_liability trade.seller_address Asset.a (amount_a trade)
  UserStore.credit trade.buyer_address Asset.a (amount_a trade)
  UserStore.credit trade.seller_address Asset.b (amount_b trade)
settle_users trade sell = do
  UserStore.consume_liability trade.seller_address Asset.a (amount_a trade)
  UserStore.consume_liability trade.buyer_address Asset.b (amount_b trade)
  UserStore.credit trade.seller_address Asset.b (amount_b trade)
  UserStore.credit trade.buyer_address Asset.a (amount_a trade)

unfoldable pub process_trade : Trade → OrderSide → M ⊤
process_trade trade taker_side = do
  on_users (settle_users trade taker_side)
  put_action (
      settlement trade.id trade.buyer_address trade.seller_address (amount_a trade)
        (amount_b trade))

unfoldable pub process_trades : List Trade → OrderSide → M ⊤
process_trades [] taker_side = pure tt
process_trades (trade ∷ trades) taker_side = do
  process_trade trade taker_side
  process_trades trades taker_side

abbrev pub required : OrderSide → Decimal → Decimal → Decimal
required buy price quantity = price *ℤ quantity
required sell price quantity = quantity

abbrev pub locked_asset : OrderSide → Asset
locked_asset buy = Asset.b
locked_asset sell = Asset.a

-- `self._engine.match(order)`, and the final variables of its loop
unfoldable pub run_match : Order → M Run
run_match order s =
    let r = match_order s.now order s.book s.next in
    (ok r, record s { book = r.book; next = r.next })

unfoldable pub add_remaining : Option Order → M ⊤
add_remaining none = pure tt
add_remaining (some o) = do
  on_book (OrderBook.add o)
  modify (λ s. record s { message = record s.message { order_id = some o.id } })

-- `message.trades_count = len(result.trades)` and `message.accept()`
unfoldable pub note_result : Run → M ⊤
note_result result = do
  modify (λ s. record s { message = record s.message { trades_count = length result.trades } })
  accept

-- The trades, the remaining order and the message, at the end of `_process_order`.
unfoldable pub finish_order : OrderSide → Run → M ⊤
finish_order side result = do
  process_trades result.trades side
  add_remaining (remaining_order result)
  note_result result

-- From `Order.create` to the end of `_process_order`.
unfoldable pub create_and_match : ℕ → OrderSide → Decimal → Decimal → M ⊤
create_and_match address side price quantity = do
  uuid ← uuid4
  now ← gets (λ s. s.now)
  result ← run_match (Order.create uuid now address side price quantity)
  finish_order side result

-- From the allocation to the end of `_process_order`.
unfoldable pub place_order : OrderSide → Decimal → Decimal → M ⊤
place_order side price quantity = do
  address ← gets (λ s. s.message.user_address)
  on_users (UserStore.allocate address (locked_asset side) (required side price quantity))
  create_and_match address side price quantity

-- From the look-up of the user to the end of `_process_order`.
unfoldable pub check_and_place : OrderSide → Decimal → Decimal → M ⊤
check_and_place side price quantity = do
  address ← gets (λ s. s.message.user_address)
  known ← gets (λ s. is_some (UserStore.get address s.users))
  if not known then reject Reason.user_unknown else do
    let asset = locked_asset side
    let need = required side price quantity
    enough ← ask_users (UserStore.can_allocate address asset need)
    if enough then place_order side price quantity else do
      available ← ask_users (UserStore.get_available address asset)
      reject (Reason.insufficient available need)

-- `if price <= 0 or quantity <= 0`, where a NaN raises if it is compared
unfoldable pub check_positive : OrderSide → Value → Value → M ⊤
check_positive side price_value quantity_value = do
  price ← compared price_value
  if leb_ℤ price (pos 0) then reject Reason.not_positive else do
    quantity ← compared quantity_value
    if leb_ℤ quantity (pos 0)
        then reject Reason.not_positive
        else check_and_place side price quantity

-- After `OrderSide(...)`, the two decimals.
unfoldable pub parse_order : Option OrderSide → NumberText → NumberText → M ⊤
parse_order (some side) (decimal price) (decimal quantity) = check_positive side price quantity
parse_order _ _ _ = reject Reason.invalid_order_parameters

unfoldable pub process_order : String → NumberText → NumberText → M ⊤
unfolding parse_order
process_order side price quantity = parse_order (parse_side side) price quantity

-- Behind the checks of `_process_cancel`. Nothing holds the object any more that `order.cancel()` changes then.
unfoldable pub release_order : Order → M ⊤
release_order o = do
  let amount = required o.side o.price (remaining_quantity o)
  on_users (UserStore.release o.user_address (locked_asset o.side) amount)
  accept

unfoldable pub cancel_removed : ℕ → Option Order → M ⊤
unfolding release_order
cancel_removed order_id none = reject (Reason.order_not_found order_id)
cancel_removed order_id (some o) = do
  address ← gets (λ s. s.message.user_address)
  if not (o.user_address == address)
      then (do on_book (OrderBook.add o); reject Reason.not_your_order)
      else release_order o

unfoldable pub process_cancel : Option ℕ → M ⊤
unfolding cancel_removed
process_cancel none = reject Reason.missing_order_id
process_cancel (some order_id) = do
  removed ← on_book (λ book. let (o, book') = OrderBook.remove order_id book in (ok o, book'))
  cancel_removed order_id removed

-- Behind the parsing of `_process_withdraw`.
unfoldable pub debit_withdrawal : Asset → Decimal → M ⊤
debit_withdrawal asset amount = do
  address ← gets (λ s. s.message.user_address)
  if leb_ℤ amount (pos 0) then reject Reason.amount_not_positive else do
    enough ← ask_users (UserStore.can_withdraw address asset amount)
    if enough
        then (do
          on_users (UserStore.withdraw address asset amount)
          put_action (withdrawal address asset amount)
          accept)
        else (do
          available ← ask_users (UserStore.get_available address asset)
          reject (Reason.insufficient available amount))

unfoldable pub parse_withdraw : Asset → NumberText → M ⊤
parse_withdraw asset malformed = reject Reason.invalid_amount
parse_withdraw asset (decimal v) = do amount ← compared v; debit_withdrawal asset amount

unfoldable pub process_withdraw : Asset → NumberText → M ⊤
unfolding parse_withdraw
process_withdraw (Asset.other t) amount = reject (Reason.asset_invalid (Asset.other t))
process_withdraw asset amount = parse_withdraw asset amount

unfoldable pub dispatch : Payload → M ⊤
dispatch (Payload.deposit asset amount ledger tx_hash) = process_deposit asset amount
dispatch (Payload.order side price quantity) = process_order side price quantity
dispatch (Payload.cancel order_id) = process_cancel order_id
dispatch (Payload.withdraw asset amount) = process_withdraw asset amount

-- `except Exception as e: message.reject(str(e))`, from the state that the raise left
abbrev pub catching : Result ⊤ × State → State
catching (ok _, s) = s
catching (err e, s) = record s { message = Message.reject s.now (raised e) s.message }

-- `_process_message`, with the message store beside the rest.
unfoldable pub process_message : MessageStore → State → MessageStore × State
process_message store s =
    let m = record s.message { status = processing } in
    let s' = catching (dispatch m.payload (record s { message = m })) in
    (MessageStore.update s'.message (MessageStore.update m store), s')
