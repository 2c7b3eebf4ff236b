-- ===== src/Blockchain/Client.antt =====
-- backend/lumendark/blockchain/client.py: calls of the RPC server, which is a parameter.
use lumendark.Common.{ℕ, zero, suc, Option, none, some, List}
use lumendark.Blockchain.Decoding.{ScVal}

-- An event as `get_events` of the SDK has it. Ids are ordered as their texts are, which are padded.
pub record Event : Type 0 where
  pub id : ℕ
  pub contract_id : ℕ
  pub ledger : ℕ
  pub topic : List (Option ScVal)
  pub value : Option ScVal
  pub tx_hash : ℕ

-- The server at one poll: the events of a contract from a ledger on, up to a limit, and the latest
-- ledger; `none` is an exception.
pub record RpcServer : Type 0 where
  pub get_events : ℕ → ℕ → ℕ → Option (List Event)
  pub get_latest_ledger : Option ℕ

-- `get_events` of a client with the contract id that it was given; `none` is an exception, also the
-- `ValueError` where there is no id.
unfoldable pub get_events : RpcServer → Option ℕ → ℕ → ℕ → Option (List Event)
get_events server none start_ledger limit = none
get_events server (some contract_id) start_ledger limit =
    server.get_events contract_id start_ledger limit

-- The answers of `get_transaction`: `failed` is also a call that raises, and `not_found` any answer that is
-- waited out.
pub data TransactionStatus : Type 0 where
  success failed not_found : TransactionStatus

pub data Confirmation : Type 0 where
  confirmed transaction_failed timed_out : Confirmation

-- The `for` loop of `submit_transaction`, and those of transaction.py, from the round `k` on.
unfoldable pub await_transaction : (ℕ → TransactionStatus) → ℕ → ℕ → Confirmation
await_transaction status zero k = timed_out
await_transaction status (suc rounds) k = elim (status k) [
  | success ↦ confirmed
  | failed ↦ transaction_failed
  | not_found ↦ await_transaction status rounds (suc k)
]
