-- ===== src/Executor/MessageHandler/Releasing.antt =====
-- When a cancellation is accepted, and what it then does.
use lumendark.Common.{
  ℕ, ◌≡◌, refl, sym, ap, ◌∙◌, true, none, some, ℤ, ◌+ℤ◌, ◌-ℤ◌, int_laws, Runs, ⊤, ◌==◌, Result,
}
use lumendark.Common.Dict.{lookup}
use lumendark.Models.Order.{Order, remaining_quantity}
use lumendark.Models.User
use lumendark.Models.User.{User, UserBalance}
use lumendark.Models.User.Effects.{release_covered}
use lumendark.Models.Message.{accepted}
use lumendark.Storage.UserStore
use lumendark.Storage.UserStore.{UserStore}
use lumendark.Storage.UserStore.Holdings.{holding, holding-on_user, result-on_user}
use lumendark.Storage.UserStore.Cover.{Covers-le, concerns_self, known, liabilities_enough}
use lumendark.Storage.OrderBook.Locked.{locked, locked_in_nonneg}
use lumendark.Executor.MessageHandler.{
  State, accept, required, locked_asset, process_cancel, cancel_removed, release_order,
}
use lumendark.Executor.MessageHandler.Solvency.{IsSolvent, Runs-on_users}
use lumendark.Executor.MessageHandler.Placing.{locked_asset_real}
use lumendark.Executor.MessageHandler.Cancelling.{
  removing, removed, removed-IsBook, taken_out, gone, resting, locked-remove, lock-released,
  required_pos,
}

-- After an accepted cancellation of the order `o`.
pub record Cancelled (s : State) (id : ℕ) (o : Order) (s' : State) : Type 0 where
  pub status : s'.message.status ≡ accepted
  pub gone : lookup id s'.book.orders ≡ none
  pub balance : holding s'.users o.user_address (locked_asset o.side) ≡ record {
    available =
        (holding s.users o.user_address (locked_asset o.side)).available
        +ℤ required o.side o.price (remaining_quantity o);
    liabilities =
        (holding s.users o.user_address (locked_asset o.side)).liabilities
        -ℤ required o.side o.price (remaining_quantity o);
  }

module _ (s : State) (id : ℕ) (o : Order) (h : IsSolvent s)
    (found : lookup id s.book.orders ≡ some o) where
  abbrev balance_of_owner : UserBalance
  balance_of_owner = holding s.users o.user_address (locked_asset o.side)

  abbrev released : ℤ
  released = required o.side o.price (remaining_quantity o)

  give_back-Runs :
      Runs (UserStore.release o.user_address (locked_asset o.side) released) s.users (λ _ users.
        holding users o.user_address (locked_asset o.side) ≡ record {
          available = balance_of_owner.available +ℤ released;
          liabilities = balance_of_owner.liabilities -ℤ released;
        })
  unfolding UserStore.release
  give_back-Runs =
      let real = locked_asset_real o.side in
      let rest = resting s id o h found in
      let positive = required_pos o.side o.price (remaining_quantity o) rest.priced rest.remains in
      let book = removed-IsBook s id o h found in
      let nonneg = locked_in_nonneg s.next (removed s id o h found).orders book.resting in
      let c =
        Covers-le
          (λ v y. rw (locked-remove s id o h found v y, sym (lock-released o v y)) (omega int_laws))
          h.covers in
      let (us, owner) =
        known s.users o.user_address (locked_asset o.side) real (locked (removed s id o h found))
          released positive nonneg c in
      let enough =
        liabilities_enough s.users o.user_address (locked_asset o.side) real
          (locked (removed s id o h found)) released positive nonneg c o.user_address
          (locked_asset o.side) (concerns_self o.user_address (locked_asset o.side) real) in
      let e = release_covered released balance_of_owner enough in
      record {
        value = tt;
        returns =
            result-on_user s.users o.user_address (locked_asset o.side) (User.release released)
              owner real
            ∙ ap (λ (r : Result ⊤ × UserBalance). r.0) e;
        holds =
            holding-on_user s.users o.user_address (locked_asset o.side) (User.release released)
              owner o.user_address (locked_asset o.side)
            ∙ rw (concerns_self o.user_address (locked_asset o.side) real)
                (ap (λ (r : Result ⊤ × UserBalance). r.1) e ∙ refl);
      }

  release_order-Cancelled :
      Runs (release_order o) (taken_out s id o h found) (λ _ s'. Cancelled s id o s')
  unfolding release_order
  release_order-Cancelled =
      Runs-on_users (UserStore.release o.user_address (locked_asset o.side) released) (λ _. accept)
        (taken_out s id o h found) give_back-Runs
        λ _ users b. record {
          value = tt;
          returns = refl;
          holds = record {
            status = refl;
            gone =
                ap (λ i. lookup i (removed s id o h found).orders)
                  (sym (resting s id o h found).own_id)
                ∙ gone s id o h found;
            balance = b;
          };
        }

  -- For a solvent state and an order in the book, the cancellation by the order's own user
  -- returns with the message accepted, the order no longer in the book, and the user holding what
  -- the order locked as available instead of liabilities.
  pub process_cancel-accepts :
      o.user_address == s.message.user_address ≡ true
      → Runs (process_cancel (some id)) s (λ _ s'. Cancelled s id o s')
  unfolding process_cancel cancel_removed
  process_cancel-accepts own =
      let r = release_order-Cancelled in
      record {
        value = r.value;
        returns = rw (removing s id o h found, own) r.returns;
        holds = rw (removing s id o h found, own) r.holds;
      }
