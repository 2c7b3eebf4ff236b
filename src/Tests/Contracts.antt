-- ===== src/Tests/Contracts.antt =====
-- The contract on a sample token: deposits, withdrawals and a settlement.
use lumendark.Common.{
  ℕ, ◌≡◌, ◌≤◌, refl, sym, true, none, some, List, [], ◌∷◌, arith, ℤ, pos, ◌≤ℤ◌, leb_ℤ, leb, ◌==◌,
  if◌then◌else◌, int_laws, Bool-cases, inl, inr, Each,
}
use lumendark.Common.Int.{◌+ℤ◌, ◌-ℤ◌}
use lumendark.Common.Dict.{Dict}
use lumendark.Common.Dict.Sum.{sum, All}
use lumendark.Models.Order.{Asset}
use lumendark.Models.Message.{ChainAction, withdrawal, settlement, accepted, create_action}
use lumendark.Storage.UserStore.Cover.{Demand}
use lumendark.Executor.ActionHandler.{start}
use lumendark.Executor.MessageHandler.Chain.{effect, payloads}
use lumendark.Blockchain.Transaction.{ContractAsset, A, B, ContractCall, Conversions}
use lumendark.Contract
use lumendark.Contract.{
  World, Chain, Signers, Invocation, fund, act, Storage, i128_max, u64_max, get_asset_address,
  get_user_balance, deployed, transact,
}
use lumendark.Contract.Balances.{balance_sum}
use lumendark.Contract.Backing.{Moves, Owes, no_amounts}
use lumendark.Contract.Calls.{transact-backed}
use lumendark.Contract.Ledger.{ledger}
use lumendark.Contract.Carrying.{Pays}
use lumendark.Contract.Queue.{start-carries_out, submit_to}

-- What each address holds of each token.
abbrev pub Holdings : Type 0
Holdings = ℕ → ℕ → ℤ

abbrev after_transfer : ℕ → ℕ → ℕ → ℤ → Holdings → Holdings
after_transfer token from to n t other address =
    if other == token
    then t other address
      -ℤ (if address == from then n else pos 0)
      +ℤ (if address == to then n else pos 0)
    else t other address

abbrev pub sample_chain : Chain Holdings
sample_chain = record {
  contract_address = 7;
  transfer = λ token from to n t.
      if leb_ℤ n (t token from) then some (after_transfer token from to n t) else none;
}

abbrev pub held : ℕ → ℕ → Holdings → ℤ
held token address t = t token address

pub sample_moves : Moves sample_chain held
sample_moves token from to n t t' e other address = elim (Bool-cases (leb_ℤ n (t token from))) [
  | inl enough ↦
      let q : some (after_transfer token from to n t) ≡ some t' = rw enough at e in
      let q' : after_transfer token from to n t ≡ t' = cc q in sym (ap_at q' other address)
  | inr less ↦ let q : none ≡ some t' = rw less at e in absurd (cc q)
]
  where
    ap_at : {f g : Holdings} → f ≡ g → (other address : ℕ) → f other address ≡ g other address
    ap_at p other address = λ i. p i other address

pub sample_pays : Pays sample_chain held
sample_pays token to n t positive enough fails =
    let e : leb_ℤ n (t token 7) ≡ true = ground arith in
    let q : some (after_transfer token 7 to n t) ≡ none = rw e at fails in absurd (cc q)

-- Each address but the contract's has 1000 of both tokens.
abbrev pub holdings : Holdings
holdings token address = if address == 7 then pos 0 else pos 1000

abbrev pub by : ℕ → Signers
by signer address = address == signer

abbrev calls : List (Signers × Invocation)
calls =
    (by 1, fund 1 A (pos 10))
    ∷ (by 2, fund 2 B (pos 100))
    ∷ (by 9, act (ContractCall.settle 0 2 1 A (pos 3) B (pos 12)))
    ∷ (by 1, act (ContractCall.withdraw 1 1 A (pos 5)))
    ∷ (by 9, act (ContractCall.withdraw 1 1 A (pos 5)))
    ∷ []

transact-backed_example :
    let w = transact sample_chain calls (deployed 9 20 21 holdings) in
    ((v : ℕ) (y : ContractAsset)
      → (pos 0 ≤ℤ get_user_balance v y w.storage) × (get_user_balance v y w.storage ≤ℤ i128_max))
    × (w.storage.nonce ≤ u64_max)
    × ((y : ContractAsset)
        → balance_sum y w.storage ≤ℤ held (get_asset_address y w.storage) 7 w.tokens)
transact-backed_example =
    transact-backed sample_chain held sample_moves calls 9 20 21 holdings
      (refl, (refl, (refl, (refl, (refl, tt))))) (λ e. omega (arith, e)) (omega arith) (omega arith)

-- The user cannot withdraw without the admin, so that the fourth call panics: one settlement and one
-- withdrawal have run.
calls_then :
    let w = transact sample_chain calls (deployed 9 20 21 holdings) in
    (w.storage.nonce ≡ 2)
    × (get_user_balance 1 A w.storage ≡ pos 2)
    × (get_user_balance 1 B w.storage ≡ pos 12)
    × (get_user_balance 2 A w.storage ≡ pos 3)
    × (get_user_balance 2 B w.storage ≡ pos 88)
    × (w.tokens 20 7 ≡ pos 5)
    × (w.tokens 20 1 ≡ pos 995)
unfolding Contract.deposit Contract.settle Contract.withdraw Contract.◌>=>◌ Contract.require
    Contract.increase_balance Contract.decrease_balance Contract.increment_nonce
    Contract.set_user_balance Contract.checked_i128 Contract.checked_u64 ◌+ℤ◌ ◌-ℤ◌
calls_then = (refl, refl, refl, refl, refl, refl, refl)

abbrev pub sample_balances : ContractAsset → Dict ℤ
sample_balances A = (1, pos 10) ∷ []
sample_balances B = (2, pos 100) ∷ []

abbrev pub backed_world : World Holdings
backed_world = record {
  storage = record { admin = 9; asset_a = 20; asset_b = 21; balances = sample_balances; nonce = 4 };
  tokens = λ token address. pos 1000;
  events = [];
}

backed_world-Owes : Owes sample_chain held no_amounts backed_world
unfolding sum
backed_world-Owes = record {
  storage = record { balances = in_range; nonce = omega arith };
  two_tokens = λ e. omega (arith, e);
  backed = backed;
}
  where
    in_range : (y : ContractAsset) → All (λ u n. (pos 0 ≤ℤ n) × (n ≤ℤ i128_max)) (sample_balances y)
    in_range A = ((omega arith, omega arith), tt)
    in_range B = ((omega arith, omega arith), tt)

    backed : (y : ContractAsset) → balance_sum y backed_world.storage +ℤ pos 0 ≤ℤ pos 1000
    backed A = omega int_laws
    backed B = omega int_laws

abbrev queue : List ChainAction
queue =
    create_action 0 5 (withdrawal 1 Asset.a (pos 2))
    ∷ create_action 1 5 (settlement 3 2 1 (pos 3) (pos 12))
    ∷ []

abbrev pub conversions : Conversions
conversions = record {
  int_text = λ n. some n;
  int_float = λ n. some n;
  is_uint64 = λ n. leb n u64_max;
  is_int128 = λ n. leb_ℤ n i128_max;
  is_address = λ a. true;
}

-- The contract's balances of users 1 and 2, and what the two actions lead to.
abbrev led_to : Demand
led_to =
    effect (settlement 3 2 1 (pos 3) (pos 12))
      (effect (withdrawal 1 Asset.a (pos 2)) (ledger backed_world.storage))

start-carries_out_example :
    (let (results, h) =
        start
          (submit_to conversions sample_chain (by 9) (λ call w. 77))
          queue
          (record { nonce = 4; submitter = backed_world }) in
      Each (λ act. act.status ≡ accepted) results
      × (payloads results ≡ payloads queue)
      × (ledger h.submitter.storage ≡ led_to)
      × (h.nonce ≡ h.submitter.storage.nonce))
unfolding create_action
start-carries_out_example =
    start-carries_out conversions sample_chain (by 9) held (λ call w. 77) sample_pays
      (λ n le. ground arith) sample_moves refl queue backed_world led_to backed_world-Owes refl
      (omega arith)
      (
        (omega arith, omega arith),
        ((omega arith, omega arith, omega int_laws, omega int_laws), refl),
      )
      (
        (refl, refl, refl),
        tt,
        ((refl, refl, refl, refl, refl, refl), (omega int_laws, omega int_laws), tt),
      )
