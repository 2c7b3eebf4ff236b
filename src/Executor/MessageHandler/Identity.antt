-- ===== src/Executor/MessageHandler/Identity.antt =====
-- What no step of the message handler changes: which message it is, who sent it and what it asks for.
use Prim.Native.String.{String}
use lumendark.Common.{ℕ, Option, none, some, List, [], ◌∷◌, Decimal, ⊤, Result, ok, err}
use lumendark.Models.Order.{Order, OrderSide, Asset}
use lumendark.Models.Trade.{Trade}
use lumendark.Models.Message.{Payload, NumberText, malformed, decimal, Value, raised}
use lumendark.Matching.Engine.{Run}
use lumendark.Executor.MessageHandler.{
  State, credit_deposit, process_deposit, process_trade, process_trades, add_remaining, note_result,
  finish_order, create_and_match, place_order, check_and_place, check_positive, parse_order,
  process_order, release_order, cancel_removed, process_cancel, debit_withdrawal, parse_withdraw,
  process_withdraw, dispatch, catching,
}
use lumendark.Executor.MessageHandler.Keeping.{Same, Keeps, keeping, Keeps-reject}

Keeps-credit_deposit : (x : Asset) (amount : Decimal) → Keeps (credit_deposit x amount)
unfolding credit_deposit
Keeps-credit_deposit x amount = search keeping depth 12

Keeps-process_deposit : (x : Asset) (text : NumberText) → Keeps (process_deposit x text)
unfolding process_deposit
Keeps-process_deposit x malformed = search keeping depth 12
Keeps-process_deposit x (decimal v) = search (keeping, Keeps-credit_deposit) depth 12

Keeps-process_trade : (t : Trade) (side : OrderSide) → Keeps (process_trade t side)
unfolding process_trade
Keeps-process_trade t side = search keeping depth 12

Keeps-process_trades : (ts : List Trade) (side : OrderSide) → Keeps (process_trades ts side)
unfolding process_trades
Keeps-process_trades [] side = search keeping depth 12
Keeps-process_trades (t ∷ ts) side =
    search (keeping, Keeps-process_trade, Keeps-process_trades ts) depth 12

Keeps-add_remaining : (rest : Option Order) → Keeps (add_remaining rest)
unfolding add_remaining
Keeps-add_remaining none = search keeping depth 12
Keeps-add_remaining (some o) = search keeping depth 12

Keeps-note_result : (r : Run) → Keeps (note_result r)
unfolding note_result
Keeps-note_result r = search keeping depth 12

Keeps-finish_order : (side : OrderSide) (r : Run) → Keeps (finish_order side r)
unfolding finish_order
Keeps-finish_order side r =
    search (keeping, Keeps-process_trades, Keeps-add_remaining, Keeps-note_result) depth 12

Keeps-create_and_match :
    (address : ℕ) (side : OrderSide) (price : Decimal) (quantity : Decimal)
    → Keeps (create_and_match address side price quantity)
unfolding create_and_match
Keeps-create_and_match address side price quantity = search (keeping, Keeps-finish_order) depth 12

Keeps-place_order :
    (side : OrderSide) (price : Decimal) (quantity : Decimal)
    → Keeps (place_order side price quantity)
unfolding place_order
Keeps-place_order side price quantity = search (keeping, Keeps-create_and_match) depth 12

Keeps-check_and_place :
    (side : OrderSide) (price : Decimal) (quantity : Decimal)
    → Keeps (check_and_place side price quantity)
unfolding check_and_place
Keeps-check_and_place side price quantity = search (keeping, Keeps-place_order) depth 12

Keeps-check_positive :
    (side : OrderSide) (price : Value) (quantity : Value)
    → Keeps (check_positive side price quantity)
unfolding check_positive
Keeps-check_positive side price quantity = search (keeping, Keeps-check_and_place) depth 12

Keeps-parse_order :
    (side : Option OrderSide) (price : NumberText) (quantity : NumberText)
    → Keeps (parse_order side price quantity)
unfolding parse_order
Keeps-parse_order (some side) (decimal p) (decimal q) =
    search (keeping, Keeps-check_positive) depth 12
Keeps-parse_order (some side) (decimal p) malformed = search keeping depth 12
Keeps-parse_order (some side) malformed q = search keeping depth 12
Keeps-parse_order none p q = search keeping depth 12

Keeps-process_order :
    (side : String) (price : NumberText) (quantity : NumberText)
    → Keeps (process_order side price quantity)
unfolding process_order
Keeps-process_order side price quantity = search (keeping, Keeps-parse_order) depth 12

Keeps-release_order : (o : Order) → Keeps (release_order o)
unfolding release_order
Keeps-release_order o = search keeping depth 12

Keeps-cancel_removed : (id : ℕ) (removed : Option Order) → Keeps (cancel_removed id removed)
unfolding cancel_removed
Keeps-cancel_removed id none = search keeping depth 12
Keeps-cancel_removed id (some o) = search (keeping, Keeps-release_order) depth 12

Keeps-process_cancel : (order_id : Option ℕ) → Keeps (process_cancel order_id)
unfolding process_cancel
Keeps-process_cancel none = search keeping depth 12
Keeps-process_cancel (some id) = search (keeping, Keeps-cancel_removed) depth 12

Keeps-debit_withdrawal : (x : Asset) (amount : Decimal) → Keeps (debit_withdrawal x amount)
unfolding debit_withdrawal
Keeps-debit_withdrawal x amount = search keeping depth 12

Keeps-parse_withdraw : (x : Asset) (text : NumberText) → Keeps (parse_withdraw x text)
unfolding parse_withdraw
Keeps-parse_withdraw x malformed = search keeping depth 12
Keeps-parse_withdraw x (decimal v) = search (keeping, Keeps-debit_withdrawal) depth 12

Keeps-process_withdraw : (x : Asset) (text : NumberText) → Keeps (process_withdraw x text)
unfolding process_withdraw
Keeps-process_withdraw Asset.a text = search (keeping, Keeps-parse_withdraw) depth 12
Keeps-process_withdraw Asset.b text = search (keeping, Keeps-parse_withdraw) depth 12
Keeps-process_withdraw (Asset.other t) text = search keeping depth 12

pub Keeps-dispatch : (payload : Payload) → Keeps (dispatch payload)
unfolding dispatch
Keeps-dispatch (Payload.deposit x amount ledger tx_hash) =
    search (keeping, Keeps-process_deposit) depth 12
Keeps-dispatch (Payload.order side price quantity) = search (keeping, Keeps-process_order) depth 12
Keeps-dispatch (Payload.cancel order_id) = search (keeping, Keeps-process_cancel) depth 12
Keeps-dispatch (Payload.withdraw x amount) = search (keeping, Keeps-process_withdraw) depth 12

pub Same-catching : (s0 : State) (r : Result ⊤ × State) → Same s0 r.1 → Same s0 (catching r)
Same-catching s0 (ok a, s) h = h
Same-catching s0 (err e, s) h = (Keeps-reject (raised e)).keeps s0 s h
