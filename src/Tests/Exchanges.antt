-- ===== src/Tests/Exchanges.antt =====
-- The theorems on the backend beside the contract, at a deposit and a withdrawal.
use lumendark.Common.{ℕ, ◌≡◌, refl, none, some, [], ◌∷◌, arith, pos, ◌≤ℤ◌, Option}
use lumendark.Common.Int.{◌+ℤ◌, ◌-ℤ◌}
use lumendark.Common.Dict.Sum.{sum}
use lumendark.Models.Order.{Asset}
use lumendark.Models.User
use lumendark.Models.Message
use lumendark.Models.Message.{ChainAction, withdrawal, pending, accepted}
use lumendark.Storage.UserStore
use lumendark.Storage.UserStore.Holdings.{holding}
use lumendark.Storage.UserStore.Totals.{totals}
use lumendark.Executor.ActionHandler.{process_action}
use lumendark.Executor.MessageHandler.{
  process_message, dispatch, process_deposit, credit_deposit, process_withdraw, parse_withdraw,
  debit_withdrawal, put_action,
}
use lumendark.Executor.MessageHandler.Queueing.{Outcome, credited, process_message-Queued}
use lumendark.Executor.Exchange.{
  Exchange, Funding, next_state, fund, credit, process, submit, Run, done, then_step, AllSmooth,
  Submittable,
}
use lumendark.Executor.Exchange.Runs.{Agrees, Run-accepts, Run-Agrees}
use lumendark.Blockchain.Transaction.{ContractAsset, A, B}
use lumendark.Contract
use lumendark.Contract.{World, deployed, get_asset_address, constructor_storage}
use lumendark.Contract.Ledger.{ledger}
use lumendark.Contract.Queue.{submit_to}
use lumendark.Tests.{
  deposit_a_message, withdraw_message, empty_state, empty_state-IsSolvent, next_message,
  next_message-IsSolvent,
}
use lumendark.Tests.Contracts.{
  Holdings, sample_chain, held, sample_moves, sample_pays, by, conversions, holdings,
}

process_message-Queued_example :
    Outcome
      (credited 1 withdraw_message.payload)
      (next_message withdraw_message)
      (process_message [] (next_message withdraw_message)).1
unfolding Message.create_message
process_message-Queued_example =
    process_message-Queued [] (next_message withdraw_message)
      (next_message-IsSolvent withdraw_message)

abbrev new_world : World Holdings
new_world = deployed 9 20 21 holdings

abbrev begin : Exchange Holdings
begin = record {
  state = empty_state;
  handler = record { nonce = 0; submitter = new_world };
  incoming = [];
}

begin-Agrees : Agrees sample_chain held begin
unfolding holding ◌+ℤ◌ sum
begin-Agrees = record {
  solvent = empty_state-IsSolvent;
  no_actions = refl;
  no_fundings = refl;
  owes = record {
    storage = record { balances = λ y. tt; nonce = omega arith };
    two_tokens = λ e. omega (arith, e);
    backed = backed;
  };
  balances = empty_total;
  nonce = refl;
}
  where
    backed :
        (y : ContractAsset)
        → pos 0 ≤ℤ holdings (get_asset_address y (constructor_storage 9 20 21)) 7
    backed A = omega arith
    backed B = omega arith

    empty_total : (v : ℕ) (y : Asset) → ledger new_world.storage v y ≡ totals empty_state.users v y
    empty_total v Asset.a = refl
    empty_total v Asset.b = refl
    empty_total v (Asset.other t) = refl

abbrev funding : Funding
funding = record { user = 1; asset = A; amount = pos 10 }

-- What a call leaves, where it returns.
abbrev or_new : Option (World Holdings) → World Holdings
or_new none = new_world
or_new (some w) = w

abbrev funded_world : World Holdings
funded_world = or_new (Contract.deposit sample_chain (by 1) 1 A (pos 10) new_world)

taken : Contract.deposit sample_chain (by 1) 1 A (pos 10) new_world ≡ some funded_world
unfolding Contract.deposit Contract.◌>=>◌ Contract.require Contract.increase_balance
    Contract.set_user_balance Contract.checked_i128 ◌+ℤ◌ ◌-ℤ◌
taken = refl

funded_nonce : funded_world.storage.nonce ≡ 0
unfolding Contract.deposit Contract.◌>=>◌ Contract.require Contract.increase_balance
    Contract.set_user_balance Contract.checked_i128 ◌+ℤ◌ ◌-ℤ◌
funded_nonce = refl

abbrev queued : Exchange Holdings
queued = record {
  state = next_state [] 9 withdraw_message (next_state [] 9 deposit_a_message empty_state);
  handler = record { nonce = 0; submitter = funded_world };
  incoming = [];
}

until_queued : Run sample_chain begin queued
unfolding Message.create_message
until_queued =
    then_step
      (then_step (then_step done (fund (by 1) funding funded_world taken))
        (credit funding [] [] 9 deposit_a_message 7 8 refl refl refl))
      (process [] 9 withdraw_message tt)

until_queued-AllSmooth : AllSmooth conversions sample_chain (by 9) (λ call w. 77) until_queued
unfolding until_queued
until_queued-AllSmooth = (((tt, refl), tt), tt)

abbrev action : ChainAction
action = record {
  id = 0;
  payload = withdrawal 1 Asset.a (pos 2);
  status = pending;
  created_at = 9;
  tx_hash = none;
}

action_queued : queued.state.actions ≡ action ∷ []
unfolding process_message dispatch process_deposit credit_deposit process_withdraw parse_withdraw
    debit_withdrawal put_action Message.create_message Message.create_action UserStore.deposit
    UserStore.get_or_create User.deposit UserStore.can_withdraw UserStore.withdraw User.withdraw
    ◌+ℤ◌ ◌-ℤ◌
action_queued = refl

action-Submittable :
    Submittable conversions sample_chain (by 9) (λ call w. 77) action queued.handler
action-Submittable = ((refl, refl, refl), tt, rw funded_nonce (omega arith))

Run-accepts_example :
    (process_action
      (submit_to conversions sample_chain (by 9) (λ call w. 77))
      action
      queued.handler).0.status
    ≡ accepted
Run-accepts_example =
    Run-accepts conversions sample_chain (by 9) held (λ call w. 77) sample_pays
      (λ n le. ground arith) sample_moves refl begin queued begin-Agrees refl until_queued
      until_queued-AllSmooth action [] action_queued action-Submittable

abbrev executed : Exchange Holdings
executed = record {
  state = record queued.state { actions = [] };
  handler =
      (process_action (submit_to conversions sample_chain (by 9) (λ call w. 77)) action
        queued.handler).1;
  incoming = [];
}

Run-Agrees_example :
    ledger executed.handler.submitter.storage 1 Asset.a ≡ totals executed.state.users 1 Asset.a
Run-Agrees_example =
    Run-Agrees conversions sample_chain (by 9) held (λ call w. 77) sample_pays
      (λ n le. ground arith) sample_moves refl begin executed begin-Agrees refl
      (then_step until_queued
        (submit (submit_to conversions sample_chain (by 9) (λ call w. 77)) action [] action_queued))
      (until_queued-AllSmooth, (refl, action-Submittable)) refl refl 1 Asset.a
