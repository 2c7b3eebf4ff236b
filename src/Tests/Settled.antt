-- ===== src/Tests/Settled.antt =====
-- The theorems on settlement, at a trade of two sample users.
use lumendark.Common.{ℕ, ◌≡◌, refl, [], ◌∷◌, pos, ◌≤ℤ◌, ◌+ℤ◌, arith, int_laws, Runs}
use lumendark.Common.Int.{◌*ℤ◌}
use lumendark.Models.Order.{Asset, buy}
use lumendark.Models.Trade.{Trade}
use lumendark.Models.User.{User}
use lumendark.Storage.UserStore.{UserStore}
use lumendark.Storage.UserStore.Holdings.{holding, supply}
use lumendark.Storage.UserStore.Cover.{Demand, Covers, Covers-le}
use lumendark.Matching.Engine.Owed.{traded, pending}
use lumendark.Executor.MessageHandler.{State, settle_users, process_trades}
use lumendark.Storage.UserStore.Totals.{totals}
use lumendark.Executor.MessageHandler.Chain.{effect}
use lumendark.Executor.MessageHandler.Settling.{settlement_of}
use lumendark.Executor.MessageHandler.Settling.{settle_users-Runs}
use lumendark.Executor.MessageHandler.Trades.{Traded, process_trades-Runs}
use lumendark.Tests.{seller, empty_state}

abbrev trade : Trade
trade = record {
  id = 3;
  buyer_address = 2;
  seller_address = 1;
  buy_order_id = 1;
  sell_order_id = 0;
  price = pos 4;
  quantity = pos 3;
  created_at = 9;
}

abbrev buyer : User
buyer = record {
  address = 2;
  balance_a = record { available = pos 0; liabilities = pos 0 };
  balance_b = record { available = pos 85; liabilities = pos 15 };
}

abbrev users : UserStore
users = (1, seller) ∷ (2, buyer) ∷ []

abbrev nothing : Demand
nothing v y = pos 0

users_cover : Covers users (λ v y. nothing v y +ℤ traded trade v y)
unfolding holding ◌*ℤ◌
users_cover = record { at = covered }
  where
    covered :
        (v : ℕ) (y : Asset)
        → (pos 0 ≤ℤ (holding users v y).available)
          × (nothing v y +ℤ traded trade v y ≤ℤ (holding users v y).liabilities)
    covered v Asset.a = grind int_laws
    covered v Asset.b = grind int_laws
    covered v (Asset.other t) = grind int_laws

settle_users-Runs_example : Runs (settle_users trade buy) users (λ _ s.
    Covers s nothing
    × ((y : Asset) → supply s y ≡ supply users y)
    × ((v : ℕ) (y : Asset) → totals s v y ≡ effect (settlement_of trade) (totals users) v y))
settle_users-Runs_example =
    settle_users-Runs users trade buy nothing (omega arith) (omega arith) (λ v y. omega arith)
      users_cover

abbrev trading : State
trading = record empty_state { users = users }

trades_cover : Covers users (λ v y. nothing v y +ℤ pending (trade ∷ []) v y)
unfolding pending
trades_cover = Covers-le (λ v y. omega int_laws) users_cover

process_trades-Runs_example :
    Runs (process_trades (trade ∷ []) buy) trading (λ _ s'. Traded trading (trade ∷ []) nothing s')
process_trades-Runs_example =
    process_trades-Runs (trade ∷ []) trading buy nothing (pos 5) 2
      (
        record {
          priced = omega arith;
          moves = omega arith;
          crosses = omega arith;
          taker = refl;
          maker = λ e. ground arith;
        },
        tt,
      )
      (λ v y. omega arith) trades_cover
