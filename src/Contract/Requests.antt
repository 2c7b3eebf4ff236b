-- ===== src/Contract/Requests.antt =====
-- The whole way of a request: the message handler, the action handler behind it and the contract.
use lumendark.Common.{
  ℕ, ◌≡◌, ◌≤◌, ◌+◌, sym, ap, ◌∙◌, subst, true, false, List, [], ◌++◌, ℤ, int_laws, inl, inr, length,
  Each,
}
use lumendark.Models.Message.{ChainAction, accepted}
use lumendark.Storage.MessageStore.{MessageStore}
use lumendark.Storage.UserStore.Cover.{Demand}
use lumendark.Storage.UserStore.Totals.{totals}
use lumendark.Executor.ActionHandler.{start}
use lumendark.Executor.MessageHandler.{State, process_message}
use lumendark.Executor.MessageHandler.Chain.{Chained, Steps, payloads, nothing, ledger_eq}
use lumendark.Executor.MessageHandler.Solvency.{IsSolvent}
use lumendark.Executor.MessageHandler.Queueing.{IsRequest, credited_request, process_message-Queued}
use lumendark.Blockchain.Transaction.{ContractCall, Conversions}
use lumendark.Contract.{World, Chain, Signers, u64_max}
use lumendark.Contract.Backing.{no_amounts, Owes, Moves}
use lumendark.Contract.Ledger.{ledger}
use lumendark.Contract.Carrying.{Pays}
use lumendark.Contract.Queue.{submit_to, Fitting, start-carries_out}

-- Actions that were queued behind none.
Steps-from :
    (s s' : State)
    → s.actions ≡ []
    → Chained nothing s s'
    → Steps (totals s.users) (payloads s'.actions) (totals s'.users)
Steps-from s s' none c =
    subst (λ ps. Steps (totals s.users) ps (totals s'.users))
      (sym (c.queued ∙ ap (λ (acts : List ChainAction). payloads acts ++ c.new) none))
      (subst (λ (l : Demand). Steps l c.new (totals s'.users)) (ledger_eq λ v y. omega int_laws)
        c.steps)

request-Steps :
    (store : MessageStore) (s : State)
    → IsSolvent s
    → IsRequest s.message.payload
    → s.actions ≡ []
    → (let s' = (process_message store s).1 in
        Steps (totals s.users) (payloads s'.actions) (totals s'.users))
request-Steps store s h request none = elim (process_message-Queued store s h) [
  | inl (yea, c) ↦ Steps-from s (process_message store s).1 none (
      subst (λ (l : Demand). Chained l s (process_message store s).1)
        (credited_request s.message.user_address s.message.payload request) c)
  | inr (nay, c) ↦ Steps-from s (process_message store s).1 none c
]

-- For amounts that convert as they are, arguments that the SDK takes and incoming amounts that
-- fit an i128, a token that moves what it is asked to and pays what the contract holds, and calls
-- that the admin signs and the contract does not: from a solvent state with nothing queued and a
-- contract that holds what it owes and whose balances are the users' totals, and with room in a
-- u64 for the nonces, the contract carries out every action that the processing of a request
-- other than a deposit queues, by a handler in step with its nonce, and its balances are then the
-- users' new totals.
pub process_message-carried_out :
    {T : Type 0} (conv : Conversions) (chain : Chain T) (signers : Signers) (held : ℕ → ℕ → T → ℤ)
    (tx_hash : ContractCall → World T → ℕ)
    → Pays chain held
    → ((n : ℕ) → n ≤ u64_max → conv.is_uint64 n ≡ true)
    → Moves chain held
    → signers chain.contract_address ≡ false
    → (store : MessageStore) (s : State) (w : World T) → IsSolvent s
    → IsRequest s.message.payload
    → s.actions ≡ []
    → Owes chain held no_amounts w
    → signers w.storage.admin ≡ true
    → ledger w.storage ≡ totals s.users
    → length (process_message store s).1.actions + w.storage.nonce ≤ u64_max
    → Fitting conv (totals s.users) (payloads (process_message store s).1.actions)
    → (let s' = (process_message store s).1 in
        let (results, h) =
          start
            (submit_to conv chain signers tx_hash)
            s'.actions
            (record { nonce = w.storage.nonce; submitter = w }) in
        Each (λ act. act.status ≡ accepted) results
        × (ledger h.submitter.storage ≡ totals s'.users)
        × (h.nonce ≡ h.submitter.storage.nonce))
process_message-carried_out conv chain signers held tx_hash pays exact moves unsigned store s w h
      request none owes signed same room fits =
    let s' = (process_message store s).1 in
    let r =
      start-carries_out conv chain signers held tx_hash pays exact moves unsigned s'.actions w
        (totals s'.users) owes signed room
        (subst (λ (l : Demand). Steps l (payloads s'.actions) (totals s'.users)) (sym same)
          (request-Steps store s h request none))
        (subst (λ (l : Demand). Fitting conv l (payloads s'.actions)) (sym same) fits) in
    (r.0, r.2, r.3)
