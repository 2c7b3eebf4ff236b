-- ===== src/Executor/MessageHandler/Withdrawing.antt =====
-- Withdrawal messages, from a solvent state.
use lumendark.Common.{
  ℕ, List, [], ◌∷◌, some, ◌==◌, int_laws, ◌≤ℤ◌, ◌≡◌, refl, ap, ◌∙◌, inl, inr, true, arith, ℤ, pos,
  ◌+ℤ◌, ◌-ℤ◌, leb_ℤ, Decimal, Runs, Runs-bind, ◌>>◌, Bool-cases, Option-cases, subst, sym,
}
use lumendark.Common.Dict.{lookup}
use lumendark.Models.Order.{Asset}
use lumendark.Models.Message.{
  NumberText, malformed, decimal, nan, finite, Reason, withdrawal, ActionPayload,
}
use lumendark.Storage.UserStore
use lumendark.Storage.UserStore.{UserStore}
use lumendark.Storage.UserStore.Holdings.{holding, supply, asset_eqb}
use lumendark.Storage.UserStore.Readers.{
  can_withdraw_known, can_withdraw_unknown, get_available_lem,
}
use lumendark.Storage.UserStore.Cover.{Covers, withdraw-Covers}
use lumendark.Storage.UserStore.Supply.{shift, supply-withdraw}
use lumendark.Storage.OrderBook.Invariant.{IsBook-mono}
use lumendark.Storage.OrderBook.Locked.{locked, locked_in_nonneg}
use lumendark.Executor.MessageHandler.{
  State, reject, accept, debit_withdrawal, process_withdraw, parse_withdraw, put_action,
}
use lumendark.Models.User.{User}
use lumendark.Storage.UserStore.Cover.{Demand, bump}
use lumendark.Storage.UserStore.Totals.{totals, totals-withdraw}
use lumendark.Executor.MessageHandler.Chain.{Steps, ledger_eq, bump_neg, funded, pos_of_negated}
use lumendark.Executor.MessageHandler.Solvency.{IsSolvent, Runs-on_users}
use lumendark.Executor.MessageHandler.Trades.{put_action-Runs}
use lumendark.Executor.MessageHandler.Handling.{
  Handled, Handles, Handles-Runs, Runs-reject, Runs-accept, no_move, positive_of, Chained-nothing,
}

pub funded_spent :
    (u : ℕ) (x : Asset) (amount : ℤ) (v : ℕ) (y : Asset)
    → pos 1 ≤ℤ amount
    → funded u (shift x (pos 0 -ℤ amount)) v y ≡ pos 0
funded_spent u x amount v y h = elim (Bool-cases (v == u)) [
  | inl own ↦ elim (Bool-cases (asset_eqb y x)) [
    | inl t ↦ rw (own, t) (pos_of_negated amount h)
    | inr f ↦ rw (own, f) refl
  ]
  | inr other ↦ rw other
]

sub_bump :
    (u : ℕ) (x : Asset) (amount : ℤ) (v : ℕ) (y : Asset) (m : ℤ)
    → m -ℤ bump u x amount v y ≡ m +ℤ bump u x (pos 0 -ℤ amount) v y
sub_bump u x amount v y m = rw (bump_neg u x amount v y) (omega int_laws)

spent-Steps :
    (s : State) (x : Asset) (amount : ℤ) (new : List ActionPayload) (after : Demand)
    → pos 1 ≤ℤ amount
    → Steps (totals s.users) new after
    → Steps
        (λ v y. totals s.users v y +ℤ funded s.message.user_address (shift x (pos 0 -ℤ amount)) v y)
        new
        after
spent-Steps s x amount new after h =
    subst (λ (l : Demand). Steps l new after)
      (ledger_eq λ v y. rw (funded_spent s.message.user_address x amount v y h) (omega int_laws))

module _ (s : State) (x : Asset) (amount : Decimal) (h : IsSolvent s)
    (real : asset_eqb x x ≡ true) where
  queue_and_accept :
      (users : UserStore)
      → Covers users (locked s.book)
      → ((y : Asset) → supply users y ≡ supply s.users y +ℤ shift x (pos 0 -ℤ amount) y)
      → Steps (totals s.users) (withdrawal s.message.user_address x amount ∷ []) (totals users)
      → pos 1 ≤ℤ amount
      → Runs
          (put_action (withdrawal s.message.user_address x amount) >> accept)
          (record s { users = users })
          (λ _ s'. Handled (shift x (pos 0 -ℤ amount)) s s')
  queue_and_accept users c moved steps positive =
      Runs-bind {f = λ _. accept}
        (put_action-Runs (record s { users = users }) (withdrawal s.message.user_address x amount))
        λ _ s1 q.
          Runs-accept (shift x (pos 0 -ℤ amount)) s s1
            (subst IsSolvent (sym q.1)
              (record { book = IsBook-mono (omega arith) h.book; covers = c }))
            (λ y. ap (λ (w : State). supply w.users y) q.1 ∙ moved y)
            (record {
              new = withdrawal s.message.user_address x amount ∷ [];
              queued = q.0;
              steps =
                  spent-Steps s x amount (withdrawal s.message.user_address x amount ∷ [])
                    (totals s1.users) positive
                    (subst
                      (Steps (totals s.users) (withdrawal s.message.user_address x amount ∷ []))
                      (sym (ap (λ (w : State). totals w.users) q.1)) steps);
            })

  withdrawal-Steps :
      (us : User)
      → lookup s.message.user_address s.users ≡ some us
      → pos 1 ≤ℤ amount
      → amount ≤ℤ (holding s.users s.message.user_address x).available
      → Steps
          (totals s.users)
          (withdrawal s.message.user_address x amount ∷ [])
          (totals (UserStore.withdraw s.message.user_address x amount s.users).1)
  withdrawal-Steps us known positive enough =
      let c = h.covers.at s.message.user_address x in
      (
        (
          positive,
          omega (
            int_laws,
            enough,
            c.1,
            locked_in_nonneg s.next s.book.orders h.book.resting s.message.user_address x,
          ),
        ),
        ledger_eq λ v y.
            sub_bump s.message.user_address x amount v y (totals s.users v y)
            ∙ sym (totals-withdraw s.users s.message.user_address x amount known enough v y),
      )

  short_of_funds :
      Runs
        (reject (Reason.insufficient (holding s.users s.message.user_address x).available amount))
        s
        (λ _ s'. Handled (shift x (pos 0 -ℤ amount)) s s')
  short_of_funds = Runs-reject (shift x (pos 0 -ℤ amount)) _ s h

  debit_withdrawal-Runs :
      Runs (debit_withdrawal x amount) s (λ _ s'. Handled (shift x (pos 0 -ℤ amount)) s s')
  unfolding debit_withdrawal UserStore.can_withdraw short_of_funds UserStore.get_available holding
  debit_withdrawal-Runs = elim (Bool-cases (leb_ℤ amount (pos 0))) [
    | inl low ↦
        let r = Runs-reject (shift x (pos 0 -ℤ amount)) Reason.amount_not_positive s h in
        record { value = r.value; returns = rw low r.returns; holds = rw low r.holds }
    | inr high ↦
        let g = get_available_lem s.users s.message.user_address x real in
        elim (Option-cases (lookup s.message.user_address s.users)) [
          | inl unknown ↦
              let e = can_withdraw_unknown s.users s.message.user_address x unknown amount in
              let r = short_of_funds in
              record {
                value = r.value;
                returns = rw (high, e, g) r.returns;
                holds = rw (high, e, g) r.holds;
              }
          | inr (us, known) ↦
              let e = can_withdraw_known s.users s.message.user_address known x amount real in
              elim (Bool-cases
                (leb_ℤ amount (holding s.users s.message.user_address x).available)) [
                  | inl enough ↦
                      let p =
                        withdraw-Covers s.users s.message.user_address x real (locked s.book) amount
                          known (ground arith) h.covers in
                      let r =
                        Runs-on_users (UserStore.withdraw s.message.user_address x amount)
                          (λ _. put_action (withdrawal s.message.user_address x amount) >> accept) s
                          {P = λ _ users.
                            Covers users (locked s.book)
                            × ((y : Asset)
                                → supply users y ≡ supply s.users y +ℤ shift x (pos 0 -ℤ amount) y)
                            × Steps (totals s.users)
                                (withdrawal s.message.user_address x amount ∷ []) (totals users)}
                          {Q = λ _ s'. Handled (shift x (pos 0 -ℤ amount)) s s'}
                          (record {
                            value = tt;
                            returns = p.0;
                            holds = (
                              p.1,
                              supply-withdraw s.users s.message.user_address x amount known
                                  (ground arith),
                              withdrawal-Steps us known (positive_of amount high) (ground arith),
                            );
                          })
                          λ _ users q.
                            queue_and_accept users q.0 q.1 q.2 (positive_of amount high) in
                      record {
                        value = r.value;
                        returns = rw (high, e, enough) r.returns;
                        holds = rw (high, e, enough) r.holds;
                      }
                  | inr short ↦
                      let r = short_of_funds in
                      record {
                        value = r.value;
                        returns = rw (high, e, short, g) r.returns;
                        holds = rw (high, e, short, g) r.holds;
                      }
                ]
        ]
  ]

-- What an accepted withdrawal takes out.
abbrev pub withdrawn : Asset → NumberText → Asset → ℤ
withdrawn x (decimal (finite d)) = shift x (pos 0 -ℤ d)
withdrawn x _ = no_move

parse_withdraw-Handled :
    (s : State) (x : Asset) (text : NumberText)
    → IsSolvent s
    → asset_eqb x x ≡ true
    → Handles (withdrawn x text) (parse_withdraw x text) s
unfolding parse_withdraw
parse_withdraw-Handled s x malformed h real =
    Handles-Runs no_move (reject Reason.invalid_amount) s
      (Runs-reject no_move Reason.invalid_amount s h)
parse_withdraw-Handled s x (decimal nan) h real = record {
  solvent = record { book = h.book; covers = h.covers };
  outcome = inr (refl, λ y. refl);
  chain = inr (refl, Chained-nothing s s.users refl);
}
parse_withdraw-Handled s x (decimal (finite d)) h real =
    Handles-Runs (shift x (pos 0 -ℤ d)) (debit_withdrawal x d) s
      (debit_withdrawal-Runs s x d h real)

-- From a solvent state, a withdraw message with any texts leaves a solvent state, and it is
-- accepted, where the sum of the users' totals of its asset has gone down by its amount and the
-- other sums are kept, or rejected, where all are kept. What it queued for the chain leads from
-- each user's totals, with what the payload brings in on top, to the new ones.
pub process_withdraw-Handled :
    (s : State) (x : Asset) (text : NumberText)
    → IsSolvent s
    → Handles (withdrawn x text) (process_withdraw x text) s
unfolding process_withdraw
process_withdraw-Handled s Asset.a text h = parse_withdraw-Handled s Asset.a text h refl
process_withdraw-Handled s Asset.b text h = parse_withdraw-Handled s Asset.b text h refl
process_withdraw-Handled s (Asset.other t) text h =
    Handles-Runs (withdrawn (Asset.other t) text) (reject (Reason.asset_invalid (Asset.other t))) s
      (Runs-reject (withdrawn (Asset.other t) text) (Reason.asset_invalid (Asset.other t)) s h)
