-- ===== src/Blockchain/Transaction.antt =====
-- backend/lumendark/blockchain/transaction.py, `TransactionSubmitter`: a withdrawal or a settlement as a
-- call of the contract. The RPC server and the conversions of Python and of the SDK are parameters.
pub mod Confirmed
use Prim.Native.String.{String}
use text.Mathlib.Text.{◌==◌ as str_eq}
use lumendark.Common.{ℕ, Bool, true, false, Option, none, some, ℤ, Decimal, ◌&&◌, if◌then◌else◌}
use lumendark.Models.Order.{Asset}
use lumendark.Models.Message.{ActionPayload, withdrawal, settlement}
use lumendark.Executor.ActionHandler.{Submit}
use lumendark.Blockchain.Client.{
  TransactionStatus, Confirmation, confirmed, transaction_failed, timed_out, await_transaction,
}

pub data ContractAsset : Type 0 where
  A B : ContractAsset

-- The function and the parameters of an invocation.
pub data ContractCall : Type 0 where
  withdraw : ℕ → ℕ → ContractAsset → ℤ → ContractCall
  settle : ℕ → ℕ → ℕ → ContractAsset → ℤ → ContractAsset → ℤ → ContractCall

-- What the server does, over a state of the network; `false` and `none` stand for an error in the answer
-- and for an exception. A transaction's status is asked for by its hash, in numbered rounds.
pub record SorobanServer (S : Type 0) : Type 0 where
  pub load_account : S → Bool
  pub simulate_transaction : ContractCall → S → Bool
  pub prepare_transaction : ContractCall → S → Bool
  pub send_transaction : ContractCall → S → Option ℕ × S
  pub get_transaction : ℕ → S → ℕ → TransactionStatus

-- `int(text)` and `int(float(text))` of a decimal's text, and which values the SDK takes.
pub record Conversions : Type 0 where
  pub int_text : Decimal → Option ℤ
  pub int_float : Decimal → Option ℤ
  pub is_uint64 : ℕ → Bool
  pub is_int128 : ℤ → Bool
  pub is_address : ℕ → Bool

-- `_asset_to_scval`
unfoldable pub asset_to_scval : Asset → Option ContractAsset
asset_to_scval Asset.a = some A
asset_to_scval Asset.b = some B
asset_to_scval (Asset.other t) =
    if str_eq t "A" then some A else if str_eq t "B" then some B else none

module _ (conv : Conversions) where
  abbrev pub withdraw_call : ℕ → ℕ → Option ContractAsset → Option ℤ → Option ContractCall
  withdraw_call nonce user (some asset) (some amount) =
      if conv.is_uint64 nonce && conv.is_address user && conv.is_int128 amount
      then some (withdraw nonce user asset amount)
      else none
  withdraw_call nonce user _ _ = none

  abbrev pub settle_call : ℕ → ℕ → ℕ → Option ℤ → Option ℤ → Option ContractCall
  settle_call nonce buyer seller (some sold) (some bought) =
      if conv.is_uint64 nonce
        && conv.is_address buyer
        && conv.is_address seller
        && conv.is_int128 sold
        && conv.is_int128 bought
      then some (settle nonce buyer seller A sold B bought)
      else none
  settle_call nonce buyer seller _ _ = none

  -- The parameters that the two methods build.
  unfoldable pub call_of : ℕ → ActionPayload → Option ContractCall
  unfolding asset_to_scval
  call_of nonce (withdrawal user asset amount) =
      withdraw_call nonce user (asset_to_scval asset) (conv.int_text amount)
  call_of nonce (settlement trade buyer seller amount_a amount_b) =
      settle_call nonce buyer seller (conv.int_float amount_a) (conv.int_float amount_b)

  module _ {S : Type 0} (server : SorobanServer S) where
    -- The end of both methods: the hash where the transaction is confirmed.
    abbrev pub conclude : ℕ → Confirmation → Option ℕ
    conclude tx_hash confirmed = some tx_hash
    conclude tx_hash transaction_failed = none
    conclude tx_hash timed_out = none

    abbrev pub await_sent : Option ℕ × S → Option ℕ × S
    await_sent (none, s) = (none, s)
    await_sent (some tx_hash, s) =
        (conclude tx_hash (await_transaction (server.get_transaction tx_hash s) 60 0), s)

    unfoldable pub submit_call : Option ContractCall → S → Option ℕ × S
    submit_call none s = (none, s)
    submit_call (some call) s =
        if server.simulate_transaction call s && server.prepare_transaction call s
        then await_sent (server.send_transaction call s)
        else (none, s)

    -- `submit_withdrawal` and `submit_settlement`
    unfoldable pub submit_action : Submit S
    unfolding submit_call call_of
    submit_action nonce payload s =
        if server.load_account s then submit_call (call_of nonce payload) s else (none, s)
