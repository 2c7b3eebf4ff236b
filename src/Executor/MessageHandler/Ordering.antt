-- ===== src/Executor/MessageHandler/Ordering.antt =====
-- Order messages, from a solvent state.
use Prim.Native.String.{String}
use lumendark.Common.{
  subst, List, map, refl, ◌∙◌, inl, inr, Option, some, arith, pos, ◌≤ℤ◌, leb_ℤ, int_laws, Decimal,
  Runs, Bool-cases, Option-cases, if◌then◌else◌, ◌>>=◌, invalid_operation,
}
use lumendark.Common.Dict.{lookup}
use lumendark.Models.Order.{OrderSide, parse_side}
use lumendark.Models.Message.{
  NumberText, malformed, decimal, Value, nan, finite, Reason, raised, compared,
}
use lumendark.Models.Message
use lumendark.Storage.UserStore
use lumendark.Storage.UserStore.Holdings.{holding}
use lumendark.Storage.UserStore.Readers.{can_allocate_known, get_available_lem}
use lumendark.Executor.MessageHandler.{
  State, reject, check_and_place, check_positive, process_order, parse_order, required,
  locked_asset,
}
use lumendark.Storage.UserStore.Cover.{Demand}
use lumendark.Storage.UserStore.Totals.{totals}
use lumendark.Executor.MessageHandler.Chain.{Chained, Steps, funded, ledger_eq}
use lumendark.Models.Trade.{Trade}
use lumendark.Executor.MessageHandler.Settling.{settlement_of}
use lumendark.Executor.MessageHandler.Finishing.{Placed}
use lumendark.Executor.MessageHandler.Solvency.{IsSolvent}
use lumendark.Executor.MessageHandler.Placing.{place_order-Runs, locked_asset_real}
use lumendark.Executor.MessageHandler.Handling.{
  Handled, Handles, Handles-Runs, Runs-reject, no_move, positive_of, Chained-nothing,
  funded_nothing,
}

Placed-chain :
    (s s' : State) (ts : List Trade)
    → Placed s ts s'
    → Chained (funded s.message.user_address no_move) s s'
Placed-chain s s' ts p = record {
  new = map settlement_of ts;
  queued = p.queued;
  steps =
      subst (λ (l : Demand). Steps l (map settlement_of ts) (totals s'.users))
        (ledger_eq λ v y. funded_nothing s.message.user_address v y (totals s.users v y)) p.steps;
}

-- Behind the test of signs an order never raises: it is placed, or rejected with nothing moved.
pub check_and_place-Runs :
    (s : State) (side : OrderSide) (price quantity : Decimal)
    → IsSolvent s
    → pos 1 ≤ℤ price
    → pos 1 ≤ℤ quantity
    → Runs (check_and_place side price quantity) s (λ _ s'. Handled no_move s s')
unfolding check_and_place UserStore.can_allocate holding UserStore.get_available
check_and_place-Runs s side price quantity h priced moves =
    elim (Option-cases (lookup s.message.user_address s.users)) [
      | inl unknown ↦
          let r = Runs-reject no_move Reason.user_unknown s h in
          record { value = r.value; returns = rw unknown r.returns; holds = rw unknown r.holds }
      | inr (us, known) ↦
          let e =
            can_allocate_known s.users s.message.user_address known (locked_asset side)
              (required side price quantity) (locked_asset_real side) in
          elim (Bool-cases (
            leb_ℤ (required side price quantity)
              (holding s.users s.message.user_address (locked_asset side)).available)) [
                | inl enough ↦
                    let r =
                      place_order-Runs s side price quantity h known priced moves (ground arith) in
                    record {
                      value = r.value;
                      returns = rw (known, e, enough) r.returns;
                      holds =
                          rw (known, e, enough)
                            (record {
                              solvent = r.holds.solvent;
                              outcome =
                                  inl (r.holds.status, λ y. r.holds.supplies y ∙ omega int_laws);
                              chain = inl (r.holds.status, Placed-chain s _ _ r.holds);
                            });
                    }
                | inr short ↦
                    let have =
                      (holding s.users s.message.user_address (locked_asset side)).available in
                    let r =
                      Runs-reject no_move (Reason.insufficient have (required side price quantity))
                        s h in
                    let g =
                      get_available_lem s.users s.message.user_address (locked_asset side)
                        (locked_asset_real side) in
                    record {
                      value = r.value;
                      returns = rw (known, e, short, g) r.returns;
                      holds = rw (known, e, short, g) r.holds;
                    }
              ]
    ]

nan_caught :
    (s : State)
    → IsSolvent s
    → Handled no_move s
        (record s { message = Message.reject s.now (raised invalid_operation) s.message })
nan_caught s h = record {
  solvent = record { book = h.book; covers = h.covers };
  outcome = inr (refl, λ y. refl);
  chain = inr (refl, Chained-nothing s s.users refl);
}

check_positive-Handled :
    (s : State) (side : OrderSide) (price quantity : Value)
    → IsSolvent s
    → Handles no_move (check_positive side price quantity) s
unfolding check_positive
check_positive-Handled s side nan quantity h = nan_caught s h
check_positive-Handled s side (finite price) quantity h = elim (Bool-cases (leb_ℤ price (pos 0))) [
  | inl low ↦ rw low (
      Handles-Runs no_move (reject Reason.not_positive) s
        (Runs-reject no_move Reason.not_positive s h))
  | inr high ↦ rw high (check_quantity s side price quantity h (positive_of price high))
]
  where
    check_quantity :
        (s : State) (side : OrderSide) (price : Decimal) (quantity : Value)
        → IsSolvent s
        → pos 1 ≤ℤ price
        → Handles no_move
            (do
              q ← compared quantity
              if leb_ℤ q (pos 0) then reject Reason.not_positive else check_and_place side price q)
            s
    check_quantity s side price nan h priced = nan_caught s h
    check_quantity s side price (finite q) h priced = elim (Bool-cases (leb_ℤ q (pos 0))) [
      | inl low ↦ rw low (
          Handles-Runs no_move (reject Reason.not_positive) s
            (Runs-reject no_move Reason.not_positive s h))
      | inr high ↦ rw high (
          Handles-Runs no_move (check_and_place side price q) s
            (check_and_place-Runs s side price q h priced (positive_of q high)))
    ]

parse_order-Handled :
    (s : State) (side : Option OrderSide) (price quantity : NumberText)
    → IsSolvent s
    → Handles no_move (parse_order side price quantity) s
unfolding parse_order
parse_order-Handled s (some side) (decimal p) (decimal q) h = check_positive-Handled s side p q h
parse_order-Handled s _ _ _ h =
    Handles-Runs no_move (reject Reason.invalid_order_parameters) s
      (Runs-reject no_move Reason.invalid_order_parameters s h)

-- From a solvent state, an order message with any texts leaves a solvent state, is accepted or
-- rejected, and moves no sum of the users' totals. What it queued for the chain leads from each
-- user's totals, with what the payload brings in on top, to the new ones.
pub process_order-Handled :
    (s : State) (side : String) (price quantity : NumberText)
    → IsSolvent s
    → Handles no_move (process_order side price quantity) s
unfolding process_order
process_order-Handled s side price quantity h =
    parse_order-Handled s (parse_side side) price quantity h
