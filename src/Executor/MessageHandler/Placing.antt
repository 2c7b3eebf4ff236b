-- ===== src/Executor/MessageHandler/Placing.antt =====
-- `_process_order` behind its checks, from the allocation on, from a solvent state.
use lumendark.Common.{
  ℕ, suc, ◌≡◌, refl, ap, ◌∙◌, true, some, arith, ℤ, pos, ◌+ℤ◌, ◌*ℤ◌, ◌≤ℤ◌, minus_zero, int_laws,
  Decimal, Runs, Runs-map, map, subst, Bool-cases, inl, inr,
}
use lumendark.Common.Dict.{lookup}
use lumendark.Models.Order
use lumendark.Models.Order.{
  Asset, Order, OrderSide, buy, sell, remaining_quantity, liability_amount, liability_asset,
  is_active,
}
use lumendark.Models.User.{User}
use lumendark.Storage.UserStore
use lumendark.Storage.UserStore.{UserStore}
use lumendark.Storage.UserStore.Holdings.{holding, supply, asset_eqb}
use lumendark.Storage.UserStore.Cover.{Demand, Covers, Covers-le, bump, allocate-Covers}
use lumendark.Storage.UserStore.Supply.{shift, supply-allocate}
use lumendark.Storage.OrderBook.Locked.{lock, locked}
use lumendark.Storage.OrderBook.Invariant.{Apart}
use lumendark.Matching.Engine.Clearing.{match_order-Apart}
use lumendark.Matching.Engine.{Run, match_order}
use lumendark.Matching.Engine.Loop.{IsRun}
use lumendark.Matching.Engine.Match.{match_order-IsRun, next-match_order}
use lumendark.Executor.MessageHandler.{
  State, create_and_match, run_match, place_order, required, locked_asset,
}
use lumendark.Storage.UserStore.Totals.{totals, totals-allocate}
use lumendark.Executor.MessageHandler.Chain.{Steps, ledger_eq, bump_zero}
use lumendark.Executor.MessageHandler.Settling.{settlement_of}
use lumendark.Executor.MessageHandler.Solvency.{IsSolvent, Runs-on_users}
use lumendark.Executor.MessageHandler.Finishing.{Placed, finish_order-Runs}

-- The order that `_process_order` creates.
abbrev pub new_order : State → OrderSide → Decimal → Decimal → Order
new_order s side price quantity =
    Order.create s.next s.now s.message.user_address side price quantity

-- The matching of that order.
abbrev pub placed_run : State → OrderSide → Decimal → Decimal → Run
placed_run s side price quantity =
    match_order s.now (new_order s side price quantity) s.book (suc s.next)

-- What the new order locks is what was allocated for it.
lock-new_order :
    (s : State) (side : OrderSide) (price quantity : Decimal) (v : ℕ) (y : Asset)
    → lock (new_order s side price quantity) v y
      ≡ bump s.message.user_address (locked_asset side) (required side price quantity) v y
unfolding Order.create liability_amount liability_asset
lock-new_order s buy price quantity v y =
    ap (λ (q : Decimal). bump s.message.user_address Asset.b (price *ℤ q) v y) (minus_zero quantity)
lock-new_order s sell price quantity v y =
    ap (λ (q : Decimal). bump s.message.user_address Asset.a q v y) (minus_zero quantity)

pub shift_zero : (x y : Asset) (m : ℤ) → m +ℤ shift x (pos 0) y ≡ m
shift_zero x y m = elim (Bool-cases (asset_eqb y x)) [
  | inl t ↦ rw t (omega int_laws)
  | inr f ↦ rw f (omega int_laws)
]

pub locked_asset_real :
    (side : OrderSide) → asset_eqb (locked_asset side) (locked_asset side) ≡ true
locked_asset_real buy = refl
locked_asset_real sell = refl

module _ (s : State) (side : OrderSide) (price quantity : Decimal) {us : User}
    (solvent : IsSolvent s) (known : lookup s.message.user_address s.users ≡ some us)
    (priced : pos 1 ≤ℤ price) (moves : pos 1 ≤ℤ quantity)
    (enough : required side price quantity
      ≤ℤ (holding s.users s.message.user_address (locked_asset side)).available) where
  placed_run-IsRun :
      IsRun side s.next
        (new_order s side price quantity)
        (λ v y. locked s.book v y +ℤ lock (new_order s side price quantity) v y)
        (placed_run s side price quantity)
  unfolding Order.create
  placed_run-IsRun =
      unfold is_active in
      match_order-IsRun s.now (new_order s side price quantity) s.book (suc s.next) solvent.book
        (rw (minus_zero quantity) moves) refl

  placed_run-Apart :
      pos 1 ≤ℤ remaining_quantity (placed_run s side price quantity).incoming
      → Apart
          (placed_run s side price quantity).incoming
          (placed_run s side price quantity).book.orders
  unfolding Order.create
  placed_run-Apart =
      unfold is_active in
      match_order-Apart s.now (new_order s side price quantity) s.book (suc s.next) solvent.book
        (rw (minus_zero quantity) moves) refl

  bound : Demand
  bound v y =
      locked s.book v y
      +ℤ bump s.message.user_address (locked_asset side) (required side price quantity) v y

  create_and_match-Runs :
      (users : UserStore)
      → Covers users bound
      → Runs
          (create_and_match s.message.user_address side price quantity)
          (record s { users = users })
          (λ _ s'. Placed (record s { users = users }) (placed_run s side price quantity).trades s')
  unfolding create_and_match run_match Order.create bound
  create_and_match-Runs users c =
      let r = placed_run s side price quantity in
      let f =
        finish_order-Runs (record s { users = users; book = r.book; next = r.next }) side s.next
          (new_order s side price quantity)
          (λ v y. locked s.book v y +ℤ lock (new_order s side price quantity) v y) r
          placed_run-IsRun priced refl refl
          (next-match_order s.now (new_order s side price quantity) s.book (suc s.next))
          (Covers-le (λ v y. rw (lock-new_order s side price quantity v y) (omega arith)) c)
          placed_run-Apart in
      record {
        value = f.value;
        returns = f.returns;
        holds = record {
          solvent = f.holds.solvent;
          supplies = f.holds.supplies;
          steps = f.holds.steps;
          queued = f.holds.queued;
          status = f.holds.status;
          count = f.holds.count;
        };
      }

  allocate-Runs :
      Runs
        (UserStore.allocate s.message.user_address
          (locked_asset side)
          (required side price quantity))
        s.users
        (λ _ users.
          Covers users bound
          × ((y : Asset) → supply users y ≡ supply s.users y)
          × (totals users ≡ totals s.users))
  unfolding bound
  allocate-Runs =
      let p =
        allocate-Covers s.users s.message.user_address (locked_asset side) (locked_asset_real side)
          (locked s.book) (required side price quantity) known enough solvent.covers in
      record {
        value = tt;
        returns = p.0;
        holds = (
          p.1,
          λ y.
              supply-allocate s.users s.message.user_address (locked_asset side)
                (required side price quantity) known enough y
              ∙ shift_zero (locked_asset side) y (supply s.users y),
          ledger_eq λ v y.
              totals-allocate s.users s.message.user_address (locked_asset side)
                (required side price quantity) known enough v y
              ∙ bump_zero s.message.user_address (locked_asset side) v y (totals s.users v y),
        );
      }

  -- For a solvent state, a stored user, a positive price and quantity, and available funds of at
  -- least what the order locks, the part of `_process_order` behind its checks returns: the state
  -- is solvent, the sums of the users' totals are kept, the trades of the match are queued for
  -- settlement behind the earlier actions in their order, these settlements are allowed one after
  -- another from each user's totals and lead to the new ones, and the message is accepted with
  -- the count of trades.
  pub place_order-Runs :
      Runs
        (place_order side price quantity)
        s
        (λ _ s'. Placed s (placed_run s side price quantity).trades s')
  unfolding place_order
  place_order-Runs =
      let r =
        Runs-on_users
          (UserStore.allocate s.message.user_address (locked_asset side)
            (required side price quantity))
          (λ _. create_and_match s.message.user_address side price quantity) s
          {Q = λ _ s'. Placed s (placed_run s side price quantity).trades s'} allocate-Runs
          λ _ users q. Runs-map (create_and_match-Runs users q.0) λ _ s' f. record {
            solvent = f.solvent;
            supplies = λ y. f.supplies y ∙ q.1 y;
            steps =
                subst
                  (λ (l : Demand).
                    Steps l (map settlement_of (placed_run s side price quantity).trades)
                      (totals s'.users))
                  q.2 f.steps;
            queued = f.queued;
            status = f.status;
            count = f.count;
          } in
      record { value = r.value; returns = r.returns; holds = r.holds }
