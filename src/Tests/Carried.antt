-- ===== src/Tests/Carried.antt =====
-- A withdrawal on its whole way to the contract.
use lumendark.Common.{
  ℕ, ◌≡◌, refl, sym, ap, ◌∙◌, none, [], ◌∷◌, arith, pos, int_laws, Bool-cases, inl, inr, ◌==◌, Each,
  ℤ, ◌≤ℤ◌,
}
use lumendark.Common.Int.{◌+ℤ◌, ◌-ℤ◌}
use lumendark.Common.Dict.{Dict}
use lumendark.Common.Dict.Sum.{sum, All}
use lumendark.Models.Order.{Asset}
use lumendark.Models.User
use lumendark.Models.User.{User}
use lumendark.Models.Message
use lumendark.Models.Message.{ChainAction, withdrawal, pending, accepted}
use lumendark.Storage.UserStore
use lumendark.Storage.UserStore.{UserStore}
use lumendark.Storage.UserStore.Holdings.{holding}
use lumendark.Storage.UserStore.Totals.{totals}
use lumendark.Executor.ActionHandler
use lumendark.Executor.MessageHandler.{
  State, process_message, dispatch, process_deposit, credit_deposit, process_withdraw,
  parse_withdraw, debit_withdrawal, put_action,
}
use lumendark.Executor.MessageHandler.Chain.{ledger_eq}
use lumendark.Executor.MessageHandler.Solvency.{IsSolvent}
use lumendark.Executor.MessageHandler.Processing.{process_all, process_all-IsSolvent}
use lumendark.Blockchain.Transaction.{ContractAsset, A, B}
use lumendark.Contract.{World, i128_max}
use lumendark.Contract.Balances.{balance_sum}
use lumendark.Contract.Ledger.{ledger}
use lumendark.Contract.Backing.{Owes, no_amounts}
use lumendark.Contract.Queue.{submit_to}
use lumendark.Contract.Requests.{process_message-carried_out}
use lumendark.Tests.{timed, deposit_a_message, withdraw_message, empty_state, empty_state-IsSolvent}
use lumendark.Tests.Contracts.{
  Holdings, sample_chain, held, sample_moves, sample_pays, by, conversions, backed_world,
}

abbrev funded_state : State
funded_state = record (process_all (timed (deposit_a_message ∷ [])) [] empty_state).1 {
  message = withdraw_message;
}

funded_state-IsSolvent : IsSolvent funded_state
funded_state-IsSolvent =
    let h =
      process_all-IsSolvent (timed (deposit_a_message ∷ [])) [] empty_state empty_state-IsSolvent in
    record { book = h.book; covers = h.covers }

abbrev funded_user : User
funded_user = record {
  address = 1;
  balance_a = record { available = pos 10; liabilities = pos 0 };
  balance_b = record { available = pos 0; liabilities = pos 0 };
}

abbrev action : ChainAction
action = record {
  id = 0;
  payload = withdrawal 1 Asset.a (pos 2);
  status = pending;
  created_at = 9;
  tx_hash = none;
}

funded_then :
    (funded_state.users ≡ (1, funded_user) ∷ [])
    × (funded_state.actions ≡ [])
    × ((process_message [] funded_state).1.actions ≡ action ∷ [])
unfolding process_message dispatch process_deposit credit_deposit process_withdraw parse_withdraw
    debit_withdrawal put_action Message.create_message Message.create_action UserStore.deposit
    UserStore.get_or_create User.deposit UserStore.can_withdraw UserStore.withdraw User.withdraw
    ◌+ℤ◌ ◌-ℤ◌
funded_then = (refl, refl, refl)

abbrev one_balance : ContractAsset → Dict ℤ
one_balance A = (1, pos 10) ∷ []
one_balance B = []

abbrev funded_world : World Holdings
funded_world = record backed_world {
  storage = record backed_world.storage { balances = one_balance };
}

funded_world-Owes : Owes sample_chain held no_amounts funded_world
unfolding sum
funded_world-Owes = record {
  storage = record { balances = in_range; nonce = omega arith };
  two_tokens = λ e. omega (arith, e);
  backed = backed;
}
  where
    in_range : (y : ContractAsset) → All (λ u n. (pos 0 ≤ℤ n) × (n ≤ℤ i128_max)) (one_balance y)
    in_range A = ((omega arith, omega arith), tt)
    in_range B = tt

    backed : (y : ContractAsset) → balance_sum y funded_world.storage +ℤ pos 0 ≤ℤ pos 1000
    backed A = omega int_laws
    backed B = omega int_laws

same_balances : ledger funded_world.storage ≡ totals funded_state.users
unfolding holding ◌+ℤ◌
same_balances = ledger_eq same ∙ ap totals (sym funded_then.0)
  where
    same :
        (v : ℕ) (y : Asset) → ledger funded_world.storage v y ≡ totals ((1, funded_user) ∷ []) v y
    same v Asset.a = elim (Bool-cases (v == 1)) [ inl t ↦ rw t refl | inr f ↦ rw f refl ]
    same v Asset.b = elim (Bool-cases (v == 1)) [ inl t ↦ rw t refl | inr f ↦ rw f refl ]
    same v (Asset.other t) = elim (Bool-cases (v == 1)) [ inl t ↦ rw t refl | inr f ↦ rw f refl ]

process_message-carried_out_example :
    (let s' = (process_message [] funded_state).1 in
      let (results, h) =
        ActionHandler.start
          (submit_to conversions sample_chain (by 9) (λ call w. 77))
          s'.actions
          (record { nonce = 4; submitter = funded_world }) in
      Each (λ act. act.status ≡ accepted) results
      × (ledger h.submitter.storage ≡ totals s'.users)
      × (h.nonce ≡ h.submitter.storage.nonce))
unfolding Message.create_message
process_message-carried_out_example =
    process_message-carried_out conversions sample_chain (by 9) held (λ call w. 77) sample_pays
      (λ n le. ground arith) sample_moves refl [] funded_state funded_world funded_state-IsSolvent
      tt funded_then.1 funded_world-Owes refl same_balances (rw funded_then.2 (omega arith))
      (rw funded_then.2 ((refl, refl, refl), tt, tt))
