-- ===== src/Executor/Exchange.antt =====
-- The message handler beside the action handler and the contract: deposits on the chain, messages, and
-- the submission of queued actions, in any order of steps. A submission may fail on its way, or carry
-- converted amounts.
pub mod Due
pub mod Runs
use lumendark.Common.{ℕ, suc, ◌≡◌, ◌≤◌, false, List, [], ◌∷◌, ◌++◌, ℤ, some, ⊤}
use lumendark.Models.Message.{Message, Payload, ChainAction, decimal, finite}
use lumendark.Storage.MessageStore.{MessageStore}
use lumendark.Executor.ActionHandler.{Submit, Handler, process_action}
use lumendark.Executor.MessageHandler.{State, process_message}
use lumendark.Executor.MessageHandler.Queueing.{IsRequest}
use lumendark.Blockchain.Transaction.{ContractAsset, ContractCall, Conversions}
use lumendark.Blockchain.Decoding.RoundTrip.{asset_of}
use lumendark.Contract
use lumendark.Contract.{World, Chain, Signers, u64_max, invoke}
use lumendark.Contract.Ledger.{ledger}
use lumendark.Contract.Queue.{Converts, Room, submit_to}

-- A deposit that the contract has taken.
pub record Funding : Type 0 where
  pub user : ℕ
  pub asset : ContractAsset
  pub amount : ℤ

-- The message handler's state, the action handler with the chain that it submits to, and the deposits
-- whose messages wait.
pub record Exchange (T : Type 0) : Type 0 where
  pub state : State
  pub handler : Handler (World T)
  pub incoming : List Funding

-- The handler's state after the processing of a message, at a reading of the clock.
abbrev pub next_state : MessageStore → ℕ → Message → State → State
next_state store now m s = (process_message store (record s { message = m; now = now })).1

pub data Step {T : Type 0} (chain : Chain T) (e : Exchange T) : Exchange T → Type 0 where
  -- A deposit at the contract that returns.
  fund :
      (signers : Signers) (d : Funding) (w : World T)
      → invoke chain signers (Contract.fund d.user d.asset d.amount) e.handler.submitter ≡ some w
      → Step chain e (record e {
        handler = record e.handler { submitter = w };
        incoming = e.incoming ++ d ∷ [];
      })
  -- The message of the first deposit that waits.
  credit :
      (d : Funding) (ds : List Funding) (store : MessageStore) (now : ℕ) (m : Message)
      (ledger tx_hash : ℕ)
      → e.incoming ≡ d ∷ ds
      → m.user_address ≡ d.user
      → m.payload ≡ Payload.deposit (asset_of d.asset) (decimal (finite d.amount)) ledger tx_hash
      → Step chain e (record e { state = next_state store now m e.state; incoming = ds })
  process :
      (store : MessageStore) (now : ℕ) (m : Message)
      → IsRequest m.payload
      → Step chain e (record e { state = next_state store now m e.state })
  -- The first queued action goes to a submitter, whatever that does with it.
  submit :
      (submitter : Submit (World T)) (act : ChainAction) (acts : List ChainAction)
      → e.state.actions ≡ act ∷ acts
      → Step chain e (record e {
        state = record e.state { actions = acts };
        handler = (process_action submitter act e.handler).1;
      })

pub data Run {T : Type 0} (chain : Chain T) (e : Exchange T) : Exchange T → Type 0 where
  done : Run chain e e
  then_step : {e' e'' : Exchange T} → Run chain e e' → Step chain e' e'' → Run chain e e''

module _ {T : Type 0} (conv : Conversions) (chain : Chain T) (signers : Signers)
    (tx_hash : ContractCall → World T → ℕ) where
  -- The amounts convert as they are, the SDK takes the arguments, and the contract has room for what is
  -- paid in and for the nonce.
  abbrev pub Submittable : ChainAction → Handler (World T) → Type 0
  Submittable act h =
      Converts conv act.payload
      × Room act.payload (ledger h.submitter.storage)
      × (suc h.submitter.storage.nonce ≤ u64_max)

  -- The contract signs no deposit, and every submission is of a submittable action, by a submitter that
  -- delivers its call.
  abbrev pub Smooth : {e e' : Exchange T} → Step chain e e' → Type 0
  Smooth (fund by d w returns) = by chain.contract_address ≡ false
  Smooth (credit d ds store now m number hash first own payload) = ⊤
  Smooth (process store now m request) = ⊤
  Smooth {e} (submit submitter act acts first) =
      (submitter e.handler.nonce act.payload e.handler.submitter
        ≡ submit_to conv chain signers tx_hash e.handler.nonce act.payload e.handler.submitter)
      × Submittable act e.handler

  abbrev pub AllSmooth : {e e' : Exchange T} → Run chain e e' → Type 0
  AllSmooth done = ⊤
  AllSmooth (then_step run step) = AllSmooth run × Smooth step
