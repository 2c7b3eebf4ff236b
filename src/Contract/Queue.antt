-- ===== src/Contract/Queue.antt =====
-- The action handler with the contract behind its submitter: a queue that the contract allows, action by
-- action, is carried out as a whole.
use lumendark.Common.{
  ℕ, suc, ◌≡◌, ◌≤◌, ◌+◌, refl, sym, ap, subst, true, false, Option, none, some, List, [], ◌∷◌,
  arith, ℤ, ◌+ℤ◌, ◌≤ℤ◌, ⊤, length, Each,
}
use lumendark.Models.Order.{Asset}
use lumendark.Models.Message.{ChainAction, ActionPayload, withdrawal, settlement, accepted}
use lumendark.Storage.UserStore.Cover.{Demand}
use lumendark.Executor.ActionHandler.{Submit, Handler, process_action, start}
use lumendark.Executor.MessageHandler.Chain.{Allowed, effect, Steps, payloads}
use lumendark.Blockchain.Transaction.{A, B, ContractCall, Conversions, call_of, asset_to_scval}
use lumendark.Contract.{World, Chain, Signers, act, i128_max, u64_max, invoke}
use lumendark.Contract.Parts.{Returns}
use lumendark.Contract.Backing.{no_amounts, Owes, Moves}
use lumendark.Contract.Calls.{invoke-Owes}
use lumendark.Contract.Ledger.{ledger}
use lumendark.Contract.Carrying.{Pays, Carried, settle-Returns, withdraw-Returns}

-- The amounts become integers as they are, and the SDK takes the arguments.
abbrev pub Converts : Conversions → ActionPayload → Type 0
Converts conv (withdrawal user x amount) =
    (conv.int_text amount ≡ some amount)
    × (conv.is_address user ≡ true)
    × (conv.is_int128 amount ≡ true)
Converts conv (settlement trade buyer seller sold paid) =
    (conv.int_float sold ≡ some sold)
    × (conv.int_float paid ≡ some paid)
    × (conv.is_address buyer ≡ true)
    × (conv.is_address seller ≡ true)
    × (conv.is_int128 sold ≡ true)
    × (conv.is_int128 paid ≡ true)

-- What an action pays in still fits an i128.
abbrev pub Room : ActionPayload → Demand → Type 0
Room (withdrawal user x amount) l = ⊤
Room (settlement trade buyer seller sold paid) l =
    (l seller Asset.b +ℤ paid ≤ℤ i128_max) × (l buyer Asset.a +ℤ sold ≤ℤ i128_max)

-- The same for each action of a queue, where it comes.
abbrev pub Fitting : Conversions → Demand → List ActionPayload → Type 0
Fitting conv l [] = ⊤
Fitting conv l (p ∷ ps) = Converts conv p × Room p l × Fitting conv (effect p l) ps

module _ {T : Type 0} (conv : Conversions) (chain : Chain T) (signers : Signers) where
  -- The submitter, for a network that delivers each call: a hash where it returns.
  abbrev pub answered : ℕ → World T → Option (World T) → Option ℕ × World T
  answered tx_hash w none = (none, w)
  answered tx_hash w (some w') = (some tx_hash, w')

  abbrev pub delivered :
      (ContractCall → World T → ℕ) → World T → Option ContractCall → Option ℕ × World T
  delivered tx_hash w none = (none, w)
  delivered tx_hash w (some call) = answered (tx_hash call w) w (invoke chain signers (act call) w)

  abbrev pub submit_to : (ContractCall → World T → ℕ) → Submit (World T)
  submit_to tx_hash nonce payload w = delivered tx_hash w (call_of conv nonce payload)

  module _ (held : ℕ → ℕ → T → ℤ) (pays : Pays chain held)
      (exact : (n : ℕ) → n ≤ u64_max → conv.is_uint64 n ≡ true) where
    -- The call that an allowed action becomes returns.
    pub record Accepted (w : World T) (payload : ActionPayload) : Type 0 where
      pub call : ContractCall
      pub becomes : call_of conv w.storage.nonce payload ≡ some call
      pub runs :
          Returns
            (invoke chain signers (act call))
            w
            (Carried chain held w (effect payload (ledger w.storage)))

    pub accepts :
        (w : World T) (payload : ActionPayload)
        → Owes chain held no_amounts w
        → signers w.storage.admin ≡ true
        → suc w.storage.nonce ≤ u64_max
        → Allowed payload (ledger w.storage)
        → Converts conv payload
        → Room payload (ledger w.storage)
        → Accepted w payload
    unfolding call_of asset_to_scval
    accepts w (withdrawal user Asset.a amount) h signed room allowed converts fits = record {
      call = ContractCall.withdraw w.storage.nonce user A amount;
      becomes =
          rw (converts.0, exact w.storage.nonce (omega (arith, room)), converts.1, converts.2) refl;
      runs =
          withdraw-Returns chain held w signers h signed room A user amount pays allowed.0
            allowed.1;
    }
    accepts w (withdrawal user Asset.b amount) h signed room allowed converts fits = record {
      call = ContractCall.withdraw w.storage.nonce user B amount;
      becomes =
          rw (converts.0, exact w.storage.nonce (omega (arith, room)), converts.1, converts.2) refl;
      runs =
          withdraw-Returns chain held w signers h signed room B user amount pays allowed.0
            allowed.1;
    }
    accepts w (withdrawal user (Asset.other t) amount) h signed room allowed converts fits =
        absurd (omega (arith, allowed))
    accepts w (settlement trade buyer seller sold paid) h signed room allowed converts fits =
        record {
          call = ContractCall.settle w.storage.nonce buyer seller A sold B paid;
          becomes =
              rw
                (
                  converts.0,
                  converts.1,
                  exact w.storage.nonce (omega (arith, room)),
                  converts.2,
                  converts.3,
                  converts.4,
                  converts.5,
                )
                refl;
          runs =
              settle-Returns chain held w signers h signed room trade buyer seller sold paid allowed
                fits.0 fits.1;
        }

    module _ (moves : Moves chain held) (unsigned : signers chain.contract_address ≡ false)
        (tx_hash : ContractCall → World T → ℕ) where
      -- A handler in step with the contract.
      abbrev pub in_step : World T → Handler (World T)
      in_step w = record { nonce = w.storage.nonce; submitter = w }

      abbrev pub carried : ChainAction → ContractCall → World T → ChainAction
      carried action call w = record action { status = accepted; tx_hash = some (tx_hash call w) }

      pub process_action-Accepted :
          (action : ChainAction) (w : World T) (a : Accepted w action.payload)
          → process_action (submit_to tx_hash) action (in_step w)
            ≡ (carried action a.call w, in_step a.runs.after)
      unfolding process_action
      process_action-Accepted action w a = rw (a.becomes, a.runs.returns, a.runs.holds.nonce) refl

      -- A queue that was carried out: every action accepted, the balances as given, and the handler
      -- still in step.
      record CarriedOut (l : Demand) (queue : List ChainAction)
          (result : List ChainAction × Handler (World T)) : Type 0 where
        pub accepts_all : Each (λ act. act.status ≡ accepted) result.0
        pub same_payloads : payloads result.0 ≡ payloads queue
        pub balances : ledger result.1.submitter.storage ≡ l
        pub stays_in_step : result.1.nonce ≡ result.1.submitter.storage.nonce

      start-CarriedOut :
          (queue : List ChainAction) (w : World T) (l : Demand)
          → Owes chain held no_amounts w
          → signers w.storage.admin ≡ true
          → length queue + w.storage.nonce ≤ u64_max
          → Steps (ledger w.storage) (payloads queue) l
          → Fitting conv (ledger w.storage) (payloads queue)
          → CarriedOut l queue (start (submit_to tx_hash) queue (in_step w))
      unfolding start
      start-CarriedOut [] w l h signed room steps fits = record {
        accepts_all = tt;
        same_payloads = refl;
        balances = steps;
        stays_in_step = refl;
      }
      start-CarriedOut (action ∷ queue) w l h signed room steps fits =
          let a = accepts w action.payload h signed (omega (arith, room)) steps.0 fits.0 fits.1 in
          let w' = a.runs.after in
          let c = a.runs.holds in
          let r =
            start-CarriedOut queue w' l
              (invoke-Owes chain held moves signers (act a.call) unsigned w w' h a.runs.returns)
              (rw c.admin signed) (omega (arith, room, c.nonce))
              (subst (λ (m : Demand). Steps m (payloads queue) l) (sym c.balances) steps.1)
              (subst (λ (m : Demand). Fitting conv m (payloads queue)) (sym c.balances) fits.2) in
          rw (process_action-Accepted action w a) (record {
            accepts_all = (refl, r.accepts_all);
            same_payloads = ap (λ ps. action.payload ∷ ps) r.same_payloads;
            balances = r.balances;
            stays_in_step = r.stays_in_step;
          })

-- For amounts that convert as they are and arguments that the SDK takes, a token that moves what
-- it is asked to and pays what the contract holds, and calls that the admin signs and the
-- contract does not: from a contract that holds what it owes, a queue of actions that its
-- balances allow one after another, whose incoming amounts fit an i128 and whose nonces fit a
-- u64, is accepted action by action by a handler that is in step with the contract's nonce; the
-- actions keep their payloads and order, the contract's balances are then what the actions lead
-- to, and the handler is in step again.
pub start-carries_out :
    {T : Type 0} (conv : Conversions) (chain : Chain T) (signers : Signers) (held : ℕ → ℕ → T → ℤ)
    (tx_hash : ContractCall → World T → ℕ)
    → Pays chain held
    → ((n : ℕ) → n ≤ u64_max → conv.is_uint64 n ≡ true)
    → Moves chain held
    → signers chain.contract_address ≡ false
    → (queue : List ChainAction) (w : World T) (l : Demand) → Owes chain held no_amounts w
    → signers w.storage.admin ≡ true
    → length queue + w.storage.nonce ≤ u64_max
    → Steps (ledger w.storage) (payloads queue) l
    → Fitting conv (ledger w.storage) (payloads queue)
    → (let (results, h) =
          start
            (submit_to conv chain signers tx_hash)
            queue
            (record { nonce = w.storage.nonce; submitter = w }) in
        Each (λ act. act.status ≡ accepted) results
        × (payloads results ≡ payloads queue)
        × (ledger h.submitter.storage ≡ l)
        × (h.nonce ≡ h.submitter.storage.nonce))
start-carries_out conv chain signers held tx_hash pays exact moves unsigned queue w l h signed room
      steps fits =
    let r =
      start-CarriedOut conv chain signers held pays exact moves unsigned tx_hash queue w l h signed
        room steps fits in
    (r.accepts_all, r.same_payloads, r.balances, r.stays_in_step)
