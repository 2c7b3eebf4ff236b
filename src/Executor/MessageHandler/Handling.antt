-- ===== src/Executor/MessageHandler/Handling.antt =====
-- Orders, deposits and withdrawals, from a solvent state, as `_process_message` catches them.
use Prim.Native.String.{String}
use mathlib.Core.List.{append-nil}
use lumendark.Common.{
  ℕ, [], ap, ◌∙◌, int_laws, ◌==◌, ◌≡◌, refl, sym, subst, ◌⊎◌, inl, inr, true, false, arith, ℤ, pos,
  ◌+ℤ◌, ◌≤ℤ◌, leb_ℤ, Decimal, Runs, ⊤, ok, Bool-cases,
}
use lumendark.Models.Order.{Asset}
use lumendark.Models.Message.{
  NumberText, malformed, decimal, nan, finite, Reason, accepted, rejected,
}
use lumendark.Storage.UserStore
use lumendark.Storage.UserStore.{UserStore}
use lumendark.Storage.UserStore.Holdings.{supply, asset_eqb}
use lumendark.Storage.UserStore.Cover.{bump, Covers, deposit-Covers}
use lumendark.Storage.UserStore.Supply.{shift, supply-deposit}
use lumendark.Storage.UserStore.OtherAsset.{deposit_other_asset}
use lumendark.Storage.OrderBook.Locked.{locked}
use lumendark.Executor.MessageHandler.{
  State, M, accept, reject, catching, credit_deposit, process_deposit,
}
use lumendark.Storage.UserStore.Totals.{totals, totals-deposit}
use lumendark.Executor.MessageHandler.Chain.{
  Chained, Queued, payloads, nothing, funded, ledger_eq, pos_of_positive,
}
use lumendark.Executor.MessageHandler.Solvency.{IsSolvent, Runs-on_users}

-- After a message: the state is solvent, and either the message is accepted and the supplies have
-- moved by `delta`, or it is rejected and they have not moved.
pub record Handled (delta : Asset → ℤ) (s s' : State) : Type 0 where
  pub solvent : IsSolvent s'
  pub outcome :
      ((s'.message.status ≡ accepted)
        × ((y : Asset) → supply s'.users y ≡ supply s.users y +ℤ delta y))
      ⊎ ((s'.message.status ≡ rejected) × ((y : Asset) → supply s'.users y ≡ supply s.users y))
  -- The actions that were queued, and what they do to the ledger of the chain.
  pub chain :
      ((s'.message.status ≡ accepted) × Chained (funded s.message.user_address delta) s s')
      ⊎ ((s'.message.status ≡ rejected) × Chained nothing s s')

abbrev pub Handles : (Asset → ℤ) → M ⊤ → State → Type 0
Handles delta m s = Handled delta s (catching (m s))

pub Handles-Runs :
    (delta : Asset → ℤ) (m : M ⊤) (s : State)
    → Runs m s (λ _ s'. Handled delta s s')
    → Handles delta m s
Handles-Runs delta m s r = subst (Handled delta s) (sym (caught r.returns)) r.holds
  where
    caught : (m s).0 ≡ ok r.value → catching (m s) ≡ (m s).1
    caught e = rw (catching, e)

-- Nothing was queued, and no total has changed.
pub Chained-nothing :
    (s : State) (users : UserStore)
    → totals users ≡ totals s.users
    → Queued nothing s.users s.actions users s.actions
Chained-nothing s users kept = record {
  new = [];
  queued = sym (append-nil (payloads s.actions));
  steps = ledger_eq (λ v y. omega int_laws) ∙ sym kept;
}

pub Runs-reject :
    (delta : Asset → ℤ) (reason : Reason) (s : State)
    → IsSolvent s
    → Runs (reject reason) s (λ _ s'. Handled delta s s')
Runs-reject delta reason s h = record {
  value = tt;
  returns = refl;
  holds = record {
    solvent = record { book = h.book; covers = h.covers };
    outcome = inr (refl, λ y. refl);
    chain = inr (refl, Chained-nothing s s.users refl);
  };
}

abbrev pub no_move : Asset → ℤ
no_move y = pos 0

pub funded-no_move : (u v : ℕ) (y : Asset) → funded u no_move v y ≡ pos 0
funded-no_move u v y = elim (Bool-cases (v == u)) [ inl own ↦ rw own refl | inr other ↦ rw other ]

pub funded_nothing : (u v : ℕ) (y : Asset) (m : ℤ) → m ≡ m +ℤ funded u no_move v y
funded_nothing u v y m = rw (funded-no_move u v y) (omega int_laws)

pub accepted_nothing :
    (s : State) (users : UserStore)
    → totals users ≡ totals s.users
    → Queued (funded s.message.user_address no_move) s.users s.actions users s.actions
accepted_nothing s users kept = record {
  new = [];
  queued = sym (append-nil (payloads s.actions));
  steps =
      sym (ledger_eq λ v y. funded_nothing s.message.user_address v y (totals s.users v y))
      ∙ sym kept;
}

-- An acceptance of a state that is solvent and has moved its supplies.
pub Runs-accept :
    (delta : Asset → ℤ) (s s' : State)
    → IsSolvent s'
    → ((y : Asset) → supply s'.users y ≡ supply s.users y +ℤ delta y)
    → Chained (funded s.message.user_address delta) s s'
    → Runs accept s' (λ _ t. Handled delta s t)
Runs-accept delta s s' h moved chained = record {
  value = tt;
  returns = refl;
  holds = record {
    solvent = record { book = h.book; covers = h.covers };
    outcome = inl (refl, moved);
    chain =
        inl (refl, record { new = chained.new; queued = chained.queued; steps = chained.steps });
  };
}

pub positive_of : (x : ℤ) → leb_ℤ x (pos 0) ≡ false → pos 1 ≤ℤ x
positive_of x h = ground arith

pub funded-shift :
    (u : ℕ) (x : Asset) (amount : ℤ) (v : ℕ) (y : Asset)
    → pos 1 ≤ℤ amount
    → bump u x amount v y ≡ funded u (shift x amount) v y
funded-shift u x amount v y h = elim (Bool-cases (v == u)) [
  | inl own ↦ elim (Bool-cases (asset_eqb y x)) [
    | inl t ↦ rw (own, t) (sym (pos_of_positive amount h))
    | inr f ↦ rw (own, f) refl
  ]
  | inr other ↦ rw other
]

deposit-Chained :
    (s : State) (x : Asset) (amount : ℤ)
    → pos 1 ≤ℤ amount
    → Chained
        (funded s.message.user_address (shift x amount))
        s
        (record s { users = (UserStore.deposit s.message.user_address x amount s.users).1 })
deposit-Chained s x amount h = record {
  new = [];
  queued = sym (append-nil (payloads s.actions));
  steps = sym (
      ledger_eq λ v y.
        totals-deposit s.users s.message.user_address x amount v y
        ∙ ap (λ (n : ℤ). totals s.users v y +ℤ n)
            (funded-shift s.message.user_address x amount v y h));
}

credit_deposit_real :
    (s : State) (x : Asset) (amount : Decimal)
    → IsSolvent s
    → asset_eqb x x ≡ true
    → Runs (credit_deposit x amount) s (λ _ s'. Handled (shift x amount) s s')
unfolding credit_deposit
credit_deposit_real s x amount h real = elim (Bool-cases (leb_ℤ amount (pos 0))) [
  | inl low ↦
      let r = Runs-reject (shift x amount) Reason.amount_not_positive s h in
      record { value = r.value; returns = rw low r.returns; holds = rw low r.holds }
  | inr high ↦
      let p =
        deposit-Covers s.users s.message.user_address x real (locked s.book) amount
          (positive_of amount high) h.covers in
      let r =
        Runs-on_users (UserStore.deposit s.message.user_address x amount) (λ _. accept) s
          {P = λ _ users.
            Covers users (locked s.book)
            × ((y : Asset) → supply users y ≡ supply s.users y +ℤ shift x amount y)
            × Chained (funded s.message.user_address (shift x amount)) s
                (record s { users = users })}
          {Q = λ _ s'. Handled (shift x amount) s s'}
          (record {
            value = tt;
            returns = p.0;
            holds = (
              p.1,
              supply-deposit s.users s.message.user_address x amount,
              deposit-Chained s x amount (positive_of amount high),
            );
          })
          λ _ users q.
            Runs-accept (shift x amount) s (record s { users = users })
              (record { book = h.book; covers = q.0 }) q.1 q.2 in
      record { value = r.value; returns = rw high r.returns; holds = rw high r.holds }
]

-- An asset that is neither "a" nor "b" raises, after the user may have been created.
credit_deposit_other :
    (s : State) (t : String) (amount : Decimal) (delta : Asset → ℤ)
    → IsSolvent s
    → Handles delta (credit_deposit (Asset.other t) amount) s
unfolding credit_deposit UserStore.deposit
credit_deposit_other s t amount delta h = elim (Bool-cases (leb_ℤ amount (pos 0))) [
  | inl low ↦ rw low (record {
    solvent = record { book = h.book; covers = h.covers };
    outcome = inr (refl, λ y. refl);
    chain = inr (refl, Chained-nothing s s.users refl);
  })
  | inr high ↦
      let p =
        deposit_other_asset s.users s.message.user_address t amount (locked s.book) h.covers in
      rw (high, catching, p.0)
        (record {
          solvent = record { book = h.book; covers = p.1 };
          outcome = inr (refl, p.2);
          chain = inr (refl, Chained-nothing s _ p.3);
        })
]

-- What a message moves in the supplies if it is accepted.
abbrev pub deposited : Asset → NumberText → Asset → ℤ
deposited x (decimal (finite d)) = shift x d
deposited x _ = no_move

-- From a solvent state, a deposit message with any texts leaves a solvent state, and it is
-- accepted, where the sum of the users' totals of its asset has gone up by its amount and the
-- other sums are kept, or rejected, where all are kept. What it queued for the chain leads from
-- each user's totals, with what the payload brings in on top, to the new ones.
pub process_deposit-Handled :
    (s : State) (x : Asset) (text : NumberText)
    → IsSolvent s
    → Handles (deposited x text) (process_deposit x text) s
unfolding process_deposit
process_deposit-Handled s x malformed h =
    Handles-Runs no_move (reject Reason.invalid_amount) s
      (Runs-reject no_move Reason.invalid_amount s h)
process_deposit-Handled s x (decimal nan) h = record {
  solvent = record { book = h.book; covers = h.covers };
  outcome = inr (refl, λ y. refl);
  chain = inr (refl, Chained-nothing s s.users refl);
}
process_deposit-Handled s Asset.a (decimal (finite d)) h =
    Handles-Runs (shift Asset.a d) (credit_deposit Asset.a d) s
      (credit_deposit_real s Asset.a d h refl)
process_deposit-Handled s Asset.b (decimal (finite d)) h =
    Handles-Runs (shift Asset.b d) (credit_deposit Asset.b d) s
      (credit_deposit_real s Asset.b d h refl)
process_deposit-Handled s (Asset.other t) (decimal (finite d)) h =
    credit_deposit_other s t d (shift (Asset.other t) d) h
