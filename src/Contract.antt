-- ===== src/Contract.antt =====
-- contracts/orderbook/src (lib.rs, storage.rs, types.rs, events.rs): the contract on the chain. A panic
-- undoes the whole call, so a call returns the new state or nothing. The tokens' contract is a parameter,
-- and so is who signed a call; that storage entries expire is not modelled.
pub mod Parts
pub mod Balances
pub mod Changes
pub mod Backing
pub mod Transfers
pub mod Calls
pub mod Returns
pub mod Ledger
pub mod Funded
pub mod Carrying
pub mod Queue
pub mod Requests
use Prim.Native.Nat.{◌^◌}
use lumendark.Common.{
  ℕ, suc, ◌≡◌, Bool, true, false, Option, none, some, List, [], ◌∷◌, ◌++◌, ◌&&◌, ◌-◌, ℤ, pos,
  negsuc, ◌+ℤ◌, ◌-ℤ◌, ltb_ℤ, leb_ℤ, ltb, leb, ◌==◌, if◌then◌else◌,
}
use lumendark.Common.Dict.{Dict, lookup, insert}
use lumendark.Blockchain.Transaction
use lumendark.Blockchain.Transaction.{ContractAsset, A, B, ContractCall}

pub data Event : Type 0 where
  deposit_event : ℕ → ContractAsset → ℤ → Event
  withdraw_event : ℕ → ℕ → ContractAsset → ℤ → Event
  settle_event : ℕ → ℕ → ℕ → ContractAsset → ℤ → ContractAsset → ℤ → Event

-- `DataKey`: what the storage holds under each key, once the constructor has run. A nonce that was not
-- set is read as 0.
pub record Storage : Type 0 where
  pub admin : ℕ
  pub asset_a : ℕ
  pub asset_b : ℕ
  pub balances : ContractAsset → Dict ℤ
  pub nonce : ℕ

-- The storage, the state of the tokens' contracts, and the events.
pub record World (T : Type 0) : Type 0 where
  pub storage : Storage
  pub tokens : T
  pub events : List Event

-- The contract's address, and `transfer` of the token at an address, from and to an address.
pub record Chain (T : Type 0) : Type 0 where
  pub contract_address : ℕ
  pub transfer : ℕ → ℕ → ℕ → ℤ → T → Option T

-- `__constructor`
abbrev pub constructor_storage : ℕ → ℕ → ℕ → Storage
constructor_storage admin asset_a asset_b = record {
  admin = admin;
  asset_a = asset_a;
  asset_b = asset_b;
  balances = λ _. [];
  nonce = 0;
}

abbrev pub deployed : {T : Type 0} → ℕ → ℕ → ℕ → T → World T
deployed admin asset_a asset_b t = record {
  storage = constructor_storage admin asset_a asset_b;
  tokens = t;
  events = [];
}

abbrev pub i128_max : ℤ
i128_max = pos (2 ^ 127 - 1)

abbrev pub i128_min : ℤ
i128_min = negsuc (2 ^ 127 - 1)

abbrev pub u64_max : ℕ
u64_max = 2 ^ 64 - 1

-- Arithmetic panics where it overflows (`overflow-checks`).
unfoldable pub checked_i128 : ℤ → Option ℤ
checked_i128 n = if leb_ℤ i128_min n && leb_ℤ n i128_max then some n else none

unfoldable pub checked_u64 : ℕ → Option ℕ
checked_u64 n = if leb n u64_max then some n else none

abbrev pub same_asset : ContractAsset → ContractAsset → Bool
same_asset A A = true
same_asset B B = true
same_asset _ _ = false

abbrev pub unwrap_or_zero : Option ℤ → ℤ
unwrap_or_zero none = pos 0
unwrap_or_zero (some n) = n

abbrev pub get_asset_address : ContractAsset → Storage → ℕ
get_asset_address A st = st.asset_a
get_asset_address B st = st.asset_b

abbrev pub get_user_balance : ℕ → ContractAsset → Storage → ℤ
get_user_balance user asset st = unwrap_or_zero (lookup user (st.balances asset))

unfoldable pub set_user_balance : ℕ → ContractAsset → ℤ → Storage → Storage
set_user_balance user asset balance st = record st {
  balances = λ y. if same_asset asset y then insert user balance (st.balances y) else st.balances y;
}

-- A part of a call: a panic is `none`.
abbrev pub Part : Type 0 → Type 0
Part S = S → Option S

infixr 5 ◌>=>◌
unfoldable pub ◌>=>◌ : {S : Type 0} → Part S → Part S → Part S
◌>=>◌ f g s = elim (f s) [ none ↦ none | some s' ↦ g s' ]

unfoldable pub require : {S : Type 0} → Bool → Part S
require b s = if b then some s else none

abbrev store_checked : ℕ → ContractAsset → Storage → Option ℤ → Option Storage
store_checked user asset st none = none
store_checked user asset st (some n) = some (set_user_balance user asset n st)

unfoldable pub increase_balance : ℕ → ContractAsset → ℤ → Part Storage
increase_balance user asset amount st =
    store_checked user asset st (checked_i128 (get_user_balance user asset st +ℤ amount))

unfoldable pub decrease_balance : ℕ → ContractAsset → ℤ → Part Storage
decrease_balance user asset amount st =
    if ltb_ℤ (get_user_balance user asset st) amount
    then none
    else store_checked user asset st (checked_i128 (get_user_balance user asset st -ℤ amount))

abbrev pub validate_nonce : ℕ → Part Storage
validate_nonce expected st = require (expected == st.nonce) st

abbrev store_nonce : Storage → Option ℕ → Option Storage
store_nonce st none = none
store_nonce st (some n) = some (record st { nonce = n })

unfoldable pub increment_nonce : Part Storage
increment_nonce st = store_nonce st (checked_u64 (suc st.nonce))

-- A call from outside: a deposit, or one that the backend submits.
pub data Invocation : Type 0 where
  fund : ℕ → ContractAsset → ℤ → Invocation
  act : ContractCall → Invocation

-- The signers of a call.
abbrev pub Signers : Type 0
Signers = ℕ → Bool

module _ {T : Type 0} (chain : Chain T) where
  -- A part of a call on the storage, on the tokens, and an event.
  abbrev with_storage : World T → Option Storage → Option (World T)
  with_storage w none = none
  with_storage w (some st) = some (record w { storage = st })

  abbrev pub on_storage : Part Storage → Part (World T)
  on_storage f w = with_storage w (f w.storage)

  abbrev with_tokens : World T → Option T → Option (World T)
  with_tokens w none = none
  with_tokens w (some t) = some (record w { tokens = t })

  abbrev pub transfer_tokens : ContractAsset → ℕ → ℕ → ℤ → Part (World T)
  transfer_tokens asset from to amount w =
      with_tokens w (chain.transfer (get_asset_address asset w.storage) from to amount w.tokens)

  abbrev pub emit : Event → Part (World T)
  emit e w = some (record w { events = w.events ++ e ∷ [] })

  module _ (signers : Signers) where
    abbrev pub require_admin : Part (World T)
    require_admin w = require (signers w.storage.admin) w

    unfoldable pub deposit : ℕ → ContractAsset → ℤ → Part (World T)
    deposit user asset amount =
        require (signers user)
        >=> require (ltb_ℤ (pos 0) amount)
        >=> transfer_tokens asset user chain.contract_address amount
        >=> on_storage (increase_balance user asset amount)
        >=> emit (deposit_event user asset amount)

    unfoldable pub withdraw : ℕ → ℕ → ContractAsset → ℤ → Part (World T)
    withdraw nonce user asset amount =
        require_admin
        >=> require (ltb_ℤ (pos 0) amount)
        >=> on_storage (validate_nonce nonce)
        >=> on_storage (decrease_balance user asset amount)
        >=> transfer_tokens asset chain.contract_address user amount
        >=> on_storage increment_nonce
        >=> emit (withdraw_event nonce user asset amount)

    unfoldable pub settle : ℕ → ℕ → ℕ → ContractAsset → ℤ → ContractAsset → ℤ → Part (World T)
    settle nonce buyer seller asset_sold amount_sold asset_bought amount_bought =
        require_admin
        >=> require (ltb_ℤ (pos 0) amount_sold && ltb_ℤ (pos 0) amount_bought)
        >=> on_storage (validate_nonce nonce)
        >=> on_storage (decrease_balance seller asset_sold amount_sold)
        >=> on_storage (increase_balance seller asset_bought amount_bought)
        >=> on_storage (increase_balance buyer asset_sold amount_sold)
        >=> on_storage (decrease_balance buyer asset_bought amount_bought)
        >=> on_storage increment_nonce
        >=> emit (settle_event nonce buyer seller asset_sold amount_sold asset_bought amount_bought)

    -- The functions that change the state.
    abbrev pub invoke : Invocation → Part (World T)
    invoke (fund user asset amount) = deposit user asset amount
    invoke (act (ContractCall.withdraw nonce user asset amount)) = withdraw nonce user asset amount
    invoke
          (act (
            ContractCall.settle nonce buyer seller asset_sold amount_sold asset_bought
              amount_bought)) =
        settle nonce buyer seller asset_sold amount_sold asset_bought amount_bought

  abbrev pub committed : World T → Option (World T) → World T
  committed w none = w
  committed w (some w') = w'

  -- Calls by their signers, one after another: one that panics changes nothing.
  abbrev pub transact : List (Signers × Invocation) → World T → World T
  transact [] w = w
  transact ((signers, call) ∷ calls) w = transact calls (committed w (invoke signers call w))
