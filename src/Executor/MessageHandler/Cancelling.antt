-- ===== src/Executor/MessageHandler/Cancelling.antt =====
-- Cancel messages, from a solvent state.
use lumendark.Common.{
  ℕ, ◌≡◌, refl, sym, ap, ◌∙◌, inl, inr, Option, none, some, arith, ℤ, pos, ◌-ℤ◌, ◌≤ℤ◌, int_laws,
  Runs, Runs-map, ⊤, ◌>>◌, Bool-cases, Option-cases, ◌==◌, mul_pos,
}
use lumendark.Common.Dict.{lookup, erase, lookup-erase_self, lookup-erase-some}
use lumendark.Common.Dict.Sum.{sum, sum-erase, All-lookup}
use lumendark.Models.Order.{
  Order, OrderSide, buy, sell, Asset, remaining_quantity, liability_amount, liability_asset,
}
use lumendark.Models.Message.{Reason}
use lumendark.Storage.UserStore
use lumendark.Storage.UserStore.Holdings.{supply}
use lumendark.Storage.UserStore.Cover.{Covers, Covers-le, bump, release-Covers}
use lumendark.Storage.UserStore.Supply.{supply-release}
use lumendark.Storage.OrderBook
use lumendark.Storage.OrderBook.{OrderBook}
use lumendark.Storage.OrderBook.Invariant.{IsResting, IsBook, Apart}
use lumendark.Storage.OrderBook.Changes.{
  add-IsBook, orders-add, remove_eq, remove_missing, orders-remove, remove-IsBook, held-Apart,
}
use lumendark.Storage.OrderBook.Locked.{lock, locked, locked_in_nonneg}
use lumendark.Executor.MessageHandler.{
  State, M, on_book, reject, accept, required, locked_asset, release_order, cancel_removed,
  process_cancel,
}
use lumendark.Storage.UserStore.Totals.{totals, totals-release}
use lumendark.Executor.MessageHandler.Chain.{ledger_eq, bump_zero}
use lumendark.Executor.MessageHandler.Solvency.{IsSolvent, Runs-on_users, Runs-on_book}
use lumendark.Executor.MessageHandler.Placing.{shift_zero, locked_asset_real}
use lumendark.Executor.MessageHandler.Finishing.{locked-insert}
use lumendark.Executor.MessageHandler.Handling.{
  Handled, Handles, Handles-Runs, Runs-reject, Runs-accept, no_move, accepted_nothing,
}

-- What is released for an order is what the order locks.
pub lock-released :
    (o : Order) (v : ℕ) (y : Asset)
    → lock o v y
      ≡ bump o.user_address
          (locked_asset o.side)
          (required o.side o.price (remaining_quantity o))
          v
          y
unfolding liability_amount liability_asset
lock-released o v y = locked_by o o.side refl v y
  where
    locked_by :
        (o : Order) (side : OrderSide)
        → o.side ≡ side
        → (v : ℕ) (y : Asset)
        → lock o v y
          ≡ bump o.user_address
              (locked_asset side)
              (required side o.price (remaining_quantity o))
              v
              y
    locked_by o buy e v y = rw e refl
    locked_by o sell e v y = rw e refl

pub required_pos :
    (side : OrderSide) (price quantity : ℤ)
    → pos 1 ≤ℤ price
    → pos 1 ≤ℤ quantity
    → pos 1 ≤ℤ required side price quantity
required_pos buy price quantity p q = mul_pos price quantity p q
required_pos sell price quantity p q = q

module _ (s : State) (id : ℕ) (o : Order) (h : IsSolvent s)
    (found : lookup id s.book.orders ≡ some o) where
  abbrev pub removed : OrderBook
  removed = (OrderBook.remove id s.book).1

  pub removing : OrderBook.remove id s.book ≡ (some o, removed)
  removing =
      remove_eq id o s.book found
      ∙ ap (λ (p : Option Order × OrderBook). (some o, p.1)) (sym (remove_eq id o s.book found))

  pub resting : IsResting s.next id o
  resting = All-lookup _ id o s.book.orders h.book.resting found

  pub removed-IsBook : IsBook s.next removed
  removed-IsBook = remove-IsBook id s.book h.book

  pub locked-remove : (v : ℕ) (y : Asset) → locked removed v y ≡ locked s.book v y -ℤ lock o v y
  locked-remove v y =
      ap (λ d. sum (λ w. lock w v y) d) (orders-remove id o s.book found)
      ∙ sum-erase (λ w. lock w v y) id s.book.orders
      ∙ rw found refl

  pub gone : lookup o.id removed.orders ≡ none
  gone =
      ap (λ d. lookup o.id d) (orders-remove id o s.book found)
      ∙ ap (λ i. lookup o.id (erase i s.book.orders)) (sym resting.own_id)
      ∙ lookup-erase_self o.id s.book.orders h.book.dict

  removed-Apart : Apart o removed.orders
  removed-Apart i p e =
      held-Apart id o o s.book.orders h.book.uncrossed found refl refl refl i p
        (lookup-erase-some i id p s.book.orders h.book.dict
          (ap (lookup i) (sym (orders-remove id o s.book found)) ∙ e)).1

  abbrev pub taken_out : State
  taken_out = record s { book = removed }

  -- The order of another user goes back into the book.
  put_back :
      Runs
        (OrderBook.add o)
        removed
        (λ _ book. IsBook s.next book × ((v : ℕ) (y : Asset) → locked book v y ≡ locked s.book v y))
  put_back =
      let p =
        add-IsBook o removed removed-IsBook gone
          (record {
            own_id = refl;
            issued = omega (arith, resting.issued, resting.own_id);
            priced = resting.priced;
            remains = resting.remains;
            active = resting.active;
          })
          removed-Apart in
      record {
        value = tt;
        returns = p.0;
        holds = (
          p.1,
          λ v y.
              locked-insert o removed (OrderBook.add o removed).1 gone (orders-add o removed gone) v
                y
              ∙ rw (locked-remove v y) (omega int_laws),
        );
      }

  put_back-Runs :
      Runs
        (on_book (OrderBook.add o) >> reject Reason.not_your_order)
        taken_out
        (λ _ s'. Handled no_move s s')
  put_back-Runs =
      Runs-on_book (OrderBook.add o) (λ _. reject Reason.not_your_order) taken_out put_back
        λ _ book q. moved_nothing (
          Runs-reject no_move Reason.not_your_order (record s { book = book })
            (record {
              book = q.0;
              covers = Covers-le (λ v y. rw (q.1 v y) (omega arith)) h.covers;
            }))
    where
      moved_nothing :
          {book : OrderBook} {m : M ⊤}
          → Runs m
              (record s { book = book })
              (λ _ s'. Handled no_move (record s { book = book }) s')
          → Runs m (record s { book = book }) (λ _ s'. Handled no_move s s')
      moved_nothing r =
          Runs-map r λ _ s' f. record { solvent = f.solvent; outcome = f.outcome; chain = f.chain }

  abbrev pub amount : ℤ
  amount = required o.side o.price (remaining_quantity o)

  release-Runs :
      Runs (UserStore.release o.user_address (locked_asset o.side) amount) s.users (λ _ users.
        Covers users (locked removed)
        × ((y : Asset) → supply users y ≡ supply s.users y)
        × (totals users ≡ totals s.users))
  release-Runs =
      let positive =
        required_pos o.side o.price (remaining_quantity o) resting.priced resting.remains in
      let nonneg = locked_in_nonneg s.next removed.orders removed-IsBook.resting in
      let c =
        Covers-le (λ v y. rw (locked-remove v y, sym (lock-released o v y)) (omega int_laws))
          h.covers in
      let p =
        release-Covers s.users o.user_address (locked_asset o.side) (locked_asset_real o.side)
          (locked removed) amount positive nonneg c in
      record {
        value = tt;
        returns = p.0;
        holds = (
          p.1,
          λ y.
              supply-release s.users o.user_address (locked_asset o.side) (locked removed) amount
                positive nonneg (locked_asset_real o.side) c y
              ∙ shift_zero (locked_asset o.side) y (supply s.users y),
          ledger_eq λ v y.
              totals-release s.users o.user_address (locked_asset o.side) (locked removed) amount
                positive nonneg (locked_asset_real o.side) c v y
              ∙ bump_zero o.user_address (locked_asset o.side) v y (totals s.users v y),
        );
      }

  release_order-Runs : Runs (release_order o) taken_out (λ _ s'. Handled no_move s s')
  unfolding release_order
  release_order-Runs =
      Runs-on_users (UserStore.release o.user_address (locked_asset o.side) amount) (λ _. accept)
        taken_out release-Runs
        λ _ users q.
          Runs-accept no_move s (record taken_out { users = users })
            (record { book = removed-IsBook; covers = q.0 }) (λ y. q.1 y ∙ omega int_laws)
            (accepted_nothing s users q.2)

  cancel_found : Runs (process_cancel (some id)) s (λ _ s'. Handled no_move s s')
  unfolding process_cancel cancel_removed
  cancel_found = elim (Bool-cases (o.user_address == s.message.user_address)) [
    | inl own ↦
        let r = release_order-Runs in
        record {
          value = r.value;
          returns = rw (removing, own) r.returns;
          holds = rw (removing, own) r.holds;
        }
    | inr not_own ↦
        let r = put_back-Runs in
        record {
          value = r.value;
          returns = rw (removing, not_own) r.returns;
          holds = rw (removing, not_own) r.holds;
        }
  ]

-- From a solvent state, a cancel message, of a missing, an unknown, another user's or an own
-- order, leaves a solvent state, is accepted or rejected, and moves no sum of the users' totals.
-- What it queued for the chain leads from each user's totals, with what the payload brings in on
-- top, to the new ones.
pub process_cancel-Handled :
    (s : State) (id : Option ℕ) → IsSolvent s → Handles no_move (process_cancel id) s
unfolding process_cancel cancel_removed
process_cancel-Handled s none h =
    Handles-Runs no_move (reject Reason.missing_order_id) s
      (Runs-reject no_move Reason.missing_order_id s h)
process_cancel-Handled s (some id) h = elim (Option-cases (lookup id s.book.orders)) [
  | inl missing ↦
      let r = Runs-reject no_move (Reason.order_not_found id) s h in
      Handles-Runs no_move (process_cancel (some id)) s (record {
        value = r.value;
        returns = rw (remove_missing id s.book missing) r.returns;
        holds = rw (remove_missing id s.book missing) r.holds;
      })
  | inr (o, found) ↦ Handles-Runs no_move (process_cancel (some id)) s (cancel_found s id o h found)
]
