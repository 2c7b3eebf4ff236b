-- ===== src/Executor/MessageHandler/Accepting.antt =====
-- When orders and withdrawals are accepted, and what they then do.
use lumendark.Common.{
  ◌≡◌, refl, ap, ◌∙◌, true, false, some, [], ◌∷◌, ◌++◌, arith, pos, ◌+ℤ◌, ◌-ℤ◌, ◌≤ℤ◌, leb_ℤ,
  int_laws, Decimal, Runs, Runs-bind, ⊤, ◌>>◌, Result,
}
use lumendark.Common.Dict.{lookup}
use lumendark.Models.Order.{Asset}
use lumendark.Models.User
use lumendark.Models.User.{User, UserBalance}
use lumendark.Models.User.Effects.{withdraw_covered}
use lumendark.Models.Message
use lumendark.Models.Message.{Reason, accepted, withdrawal}
use lumendark.Storage.UserStore
use lumendark.Storage.UserStore.{UserStore}
use lumendark.Storage.UserStore.Holdings.{holding, asset_eqb, holding-on_user, result-on_user}
use lumendark.Storage.UserStore.Readers.{can_withdraw_known, get_available_lem}
use lumendark.Storage.UserStore.Cover.{concerns_self}
use lumendark.Executor.MessageHandler.{State, on_users, accept, debit_withdrawal, put_action}
use lumendark.Executor.MessageHandler.Solvency.{Runs-on_users}
use lumendark.Executor.MessageHandler.Chain.{payloads}
use lumendark.Executor.MessageHandler.Trades.{put_action-Runs}

-- The state after a rejection.
abbrev pub rejected_with : Reason → State → State
rejected_with reason s = record s { message = Message.reject s.now reason s.message }

-- After an accepted withdrawal.
pub record Withdrawn (s : State) (x : Asset) (d : Decimal) (s' : State) : Type 0 where
  pub status : s'.message.status ≡ accepted
  pub balance : holding s'.users s.message.user_address x ≡ record {
    available = (holding s.users s.message.user_address x).available -ℤ d;
    liabilities = (holding s.users s.message.user_address x).liabilities;
  }
  pub queued :
      payloads s'.actions ≡ payloads s.actions ++ withdrawal s.message.user_address x d ∷ []

module _ (s : State) (x : Asset) (d : Decimal) {us : User} (real : asset_eqb x x ≡ true)
    (found : lookup s.message.user_address s.users ≡ some us) where
  abbrev balance_of_user : UserBalance
  balance_of_user = holding s.users s.message.user_address x

  withdraw-Runs :
      d ≤ℤ balance_of_user.available
      → Runs (UserStore.withdraw s.message.user_address x d) s.users (λ _ users.
        holding users s.message.user_address x ≡ record {
          available = balance_of_user.available -ℤ d;
          liabilities = balance_of_user.liabilities;
        })
  unfolding UserStore.withdraw
  withdraw-Runs enough = record {
    value = tt;
    returns =
        result-on_user s.users s.message.user_address x (User.withdraw d) found real
        ∙ ap (λ (r : Result ⊤ × UserBalance). r.0) (withdraw_covered d balance_of_user enough);
    holds =
        holding-on_user s.users s.message.user_address x (User.withdraw d) found
          s.message.user_address x
        ∙ rw (concerns_self s.message.user_address x real)
            (ap (λ (r : Result ⊤ × UserBalance). r.1) (withdraw_covered d balance_of_user enough));
  }

  accepted-Runs :
      d ≤ℤ balance_of_user.available
      → Runs
          (on_users (UserStore.withdraw s.message.user_address x d)
            >> (put_action (withdrawal s.message.user_address x d) >> accept))
          s
          (λ _ s'. Withdrawn s x d s')
  accepted-Runs enough =
      Runs-on_users (UserStore.withdraw s.message.user_address x d)
        (λ _. put_action (withdrawal s.message.user_address x d) >> accept) s (withdraw-Runs enough)
        λ _ users b.
          Runs-bind {f = λ _. accept}
            (put_action-Runs (record s { users = users }) (withdrawal s.message.user_address x d))
            λ _ s1 q. record {
              value = tt;
              returns = refl;
              holds = record {
                status = refl;
                balance = ap (λ (w : State). holding w.users s.message.user_address x) q.1 ∙ b;
                queued = q.0;
              };
            }

  -- For a stored user, an asset "a" or "b" and a positive amount, `_process_withdraw` behind its
  -- parsing returns: if the user's available balance covers the amount, the message is accepted,
  -- the user holds that much less of the asset available with the same liabilities, and the
  -- withdrawal is the last action of the queue behind the earlier ones; if it does not, the
  -- message is rejected and nothing else changes.
  pub debit_withdrawal-accepts :
      pos 1 ≤ℤ d
      → (d ≤ℤ balance_of_user.available
          → Runs (debit_withdrawal x d) s (λ _ s'. Withdrawn s x d s'))
        × (balance_of_user.available +ℤ pos 1 ≤ℤ d
            → Runs
                (debit_withdrawal x d)
                s
                (λ _ s'. s' ≡ rejected_with (Reason.insufficient balance_of_user.available d) s))
  unfolding debit_withdrawal UserStore.can_withdraw UserStore.get_available
  debit_withdrawal-accepts positive =
      let e = can_withdraw_known s.users s.message.user_address found x d real in
      let high : leb_ℤ d (pos 0) ≡ false = ground arith in
      (
        (λ enough.
            let t : leb_ℤ d balance_of_user.available ≡ true = ground arith in
            let r = accepted-Runs enough in
            record {
              value = r.value;
              returns = rw (high, e, t) r.returns;
              holds = rw (high, e, t) r.holds;
            }),
        (λ short.
            let f : leb_ℤ d balance_of_user.available ≡ false = grind int_laws in
            let g = get_available_lem s.users s.message.user_address x real in
            record {
              value = tt;
              returns = rw (high, e, f, g) refl;
              holds = rw (high, e, f, g) refl;
            }),
      )
