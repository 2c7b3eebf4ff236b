-- ===== src/Executor/MessageHandler/Queueing.antt =====
-- What `_process_message` queues for the chain, beside what it does to the users' totals.
use Prim.Native.String.{String}
use lumendark.Common.{
  ℕ, ◌≡◌, refl, sym, subst, ◌⊎◌, inl, inr, true, false, pos, leb_ℤ, Bool-cases, Decimal, ⊤,
}
use lumendark.Models.Order.{Asset}
use lumendark.Models.Message.{
  Payload, NumberText, malformed, decimal, nan, finite, accepted, rejected, processing,
}
use lumendark.Storage.MessageStore.{MessageStore}
use lumendark.Storage.UserStore
use lumendark.Storage.UserStore.Cover.{Demand, bump, deposit-Covers}
use lumendark.Storage.UserStore.Holdings.{asset_eqb}
use lumendark.Storage.UserStore.OtherAsset.{deposit_other_asset}
use lumendark.Storage.OrderBook.Locked.{locked}
use lumendark.Executor.MessageHandler.{
  State, catching, dispatch, process_message, process_deposit, credit_deposit, process_withdraw,
  parse_withdraw, debit_withdrawal,
}
use lumendark.Executor.MessageHandler.Chain.{Chained, funded, nothing, ledger_eq}
use lumendark.Executor.MessageHandler.Solvency.{IsSolvent}
use lumendark.Executor.MessageHandler.Handling.{no_move, positive_of, funded-shift, funded-no_move}
use lumendark.Executor.MessageHandler.Withdrawing.{funded_spent}
use lumendark.Executor.MessageHandler.Processing.{moved, process_message-Handled}

-- What a payload brings in for its user, if it is accepted.
abbrev pub credited : ℕ → Payload → Demand
credited user (Payload.deposit x (decimal (finite amount)) ledger tx_hash) = bump user x amount
credited user _ = nothing

-- A request of a user, not a deposit.
abbrev pub IsRequest : Payload → Type 0
IsRequest (Payload.deposit asset amount ledger tx_hash) = ⊥
IsRequest _ = ⊤

pub credited_request :
    (user : ℕ) (payload : Payload) → IsRequest payload → credited user payload ≡ nothing
credited_request user (Payload.deposit asset amount ledger tx_hash) h = elim h [ ]
credited_request user (Payload.order side price quantity) h = refl
credited_request user (Payload.cancel order_id) h = refl
credited_request user (Payload.withdraw asset amount) h = refl

deposit_low :
    (s : State) (x : Asset) (amount : Decimal)
    → leb_ℤ amount (pos 0) ≡ true
    → (catching (process_deposit x (decimal (finite amount)) s)).message.status ≡ rejected
unfolding process_deposit credit_deposit
deposit_low s x amount low = rw low refl

deposit_other :
    (s : State) (t : String) (amount : Decimal)
    → IsSolvent s
    → (catching (process_deposit (Asset.other t) (decimal (finite amount)) s)).message.status
      ≡ rejected
unfolding process_deposit credit_deposit UserStore.deposit
deposit_other s t amount h = elim (Bool-cases (leb_ℤ amount (pos 0))) [
  | inl low ↦ rw low refl
  | inr high ↦
      let p =
        deposit_other_asset s.users s.message.user_address t amount (locked s.book) h.covers in
      rw (high, catching, p.0) refl
]

withdraw_low :
    (s : State) (x : Asset) (amount : Decimal)
    → leb_ℤ amount (pos 0) ≡ true
    → (catching (process_withdraw x (decimal (finite amount)) s)).message.status ≡ rejected
unfolding process_withdraw parse_withdraw debit_withdrawal
withdraw_low s Asset.a amount low = rw low refl
withdraw_low s Asset.b amount low = rw low refl
withdraw_low s (Asset.other t) amount low = refl

withdraw_other :
    (s : State) (t : String) (text : NumberText)
    → (catching (process_withdraw (Asset.other t) text s)).message.status ≡ rejected
unfolding process_withdraw
withdraw_other s t text = refl

funded_none : (user : ℕ) → funded user no_move ≡ nothing
funded_none user = ledger_eq (funded-no_move user)

-- Where the message is accepted, it brings in what `credited` says.
funded_accepted :
    (s : State) (payload : Payload)
    → IsSolvent s
    → (catching (dispatch payload s)).message.status ≡ accepted
    → funded s.message.user_address (moved payload) ≡ credited s.message.user_address payload
unfolding dispatch
funded_accepted s (Payload.deposit x malformed ledger tx_hash) h yea =
    funded_none s.message.user_address
funded_accepted s (Payload.deposit x (decimal nan) ledger tx_hash) h yea =
    funded_none s.message.user_address
funded_accepted s (Payload.deposit (Asset.other t) (decimal (finite d)) ledger tx_hash) h yea =
    absurd (cc (yea, deposit_other s t d h))
funded_accepted s (Payload.deposit x (decimal (finite d)) ledger tx_hash) h yea =
    elim (Bool-cases (leb_ℤ d (pos 0))) [
      | inl low ↦ absurd (cc (yea, deposit_low s x d low))
      | inr high ↦
          sym (ledger_eq λ v y. funded-shift s.message.user_address x d v y (positive_of d high))
    ]
funded_accepted s (Payload.order side price quantity) h yea = funded_none s.message.user_address
funded_accepted s (Payload.cancel order_id) h yea = funded_none s.message.user_address
funded_accepted s (Payload.withdraw x malformed) h yea = funded_none s.message.user_address
funded_accepted s (Payload.withdraw x (decimal nan)) h yea = funded_none s.message.user_address
funded_accepted s (Payload.withdraw x (decimal (finite d))) h yea =
    elim (Bool-cases (leb_ℤ d (pos 0))) [
      | inl low ↦ absurd (cc (yea, withdraw_low s x d low))
      | inr high ↦ ledger_eq λ v y. funded_spent s.message.user_address x d v y (positive_of d high)
    ]

-- An accepted message brings in `credit`, and a rejected one nothing.
abbrev pub Outcome : Demand → State → State → Type 0
Outcome credit s s' =
    ((s'.message.status ≡ accepted) × Chained credit s s')
    ⊎ ((s'.message.status ≡ rejected) × Chained nothing s s')

-- From a solvent state, `_process_message` queues actions behind the earlier ones that the
-- contract allows one after another from the users' totals, with the amount of an accepted
-- deposit on top, and whose effects lead to the new totals of every user; a rejected message
-- brings nothing in.
pub process_message-Queued :
    (store : MessageStore) (s : State)
    → IsSolvent s
    → Outcome (credited s.message.user_address s.message.payload) s (process_message store s).1
unfolding process_message
process_message-Queued store s h =
    let t = record s { message = record s.message { status = processing } } in
    elim (process_message-Handled store s h).chain [
      | inl (yea, c) ↦ inl (
        yea,
        subst (λ (credit : Demand). Chained credit s (process_message store s).1)
            (funded_accepted t s.message.payload (record { book = h.book; covers = h.covers }) yea)
            c,
      )
      | inr refused ↦ inr refused
    ]

pub deposit_accepted :
    (s : State) (x : Asset) (amount : Decimal)
    → IsSolvent s
    → asset_eqb x x ≡ true
    → leb_ℤ amount (pos 0) ≡ false
    → (catching (process_deposit x (decimal (finite amount)) s)).message.status ≡ accepted
unfolding process_deposit credit_deposit UserStore.deposit
deposit_accepted s x amount h real high =
    let p =
      deposit-Covers s.users s.message.user_address x real (locked s.book) amount
        (positive_of amount high) h.covers in
    rw (high, catching, p.0) refl
