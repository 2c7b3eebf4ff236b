-- ===== src/Tests/Stores.antt =====
-- The theorems on the stores, at the sample states.
use lumendark.Common.{
  ℕ, [], ◌∷◌, pos, ◌≡◌, refl, ok, err, invalid_asset, insufficient_liabilities, if◌then◌else◌,
  arith, ◌≤ℤ◌, ◌+ℤ◌, int_laws, some, ◌==◌,
}
use lumendark.Common.Dict.{lookup}
use lumendark.Models.Order
use lumendark.Models.Order.{Order, Asset, buy, sell}
use lumendark.Storage.UserStore.{UserStore, deposit, allocate, release, consume_liability, withdraw}
use lumendark.Storage.UserStore.Holdings.{holding, supply}
use lumendark.Storage.UserStore.Cover.{Demand, Covers, bump, withdraw-Covers, deposit-Covers}
use lumendark.Storage.UserStore.Moves.{Put, allocate-Put, release-Put, consume_liability-Put}
use lumendark.Models.User.{new_user}
use lumendark.Common.Int.{◌+ℤ◌ as plus, ◌-ℤ◌}
use lumendark.Storage.UserStore.Totals.{totals}
use lumendark.Storage.UserStore.OtherAsset.{deposit_other_asset}
use lumendark.Storage.OrderBook
use lumendark.Storage.OrderBook.{iter_matching_asks, iter_matching_bids}
use lumendark.Storage.OrderBook.Invariant.{IsBook, IsBook-mono}
use lumendark.Storage.OrderBook.Changes.{remove-IsBook}
use lumendark.Tests.{seller, resting_state, resting_state-IsSolvent, sell_order, stores_then}

abbrev users : UserStore
users = (1, seller) ∷ []

abbrev nothing : Demand
nothing v y = pos 0

users_cover : Covers users (λ v y. nothing v y +ℤ bump 1 Asset.a (pos 3) v y)
unfolding holding
users_cover = record { at = covered }
  where
    covered :
        (v : ℕ) (y : Asset)
        → (pos 0 ≤ℤ (holding users v y).available)
          × (nothing v y +ℤ bump 1 Asset.a (pos 3) v y ≤ℤ (holding users v y).liabilities)
    covered v Asset.a = grind int_laws
    covered v Asset.b = grind int_laws
    covered v (Asset.other t) = grind int_laws

allocate-Put_example :
    ((allocate 1 Asset.a (pos 4) users).0 ≡ ok tt)
    × Put users 1 Asset.a
        (record { available = pos 0; liabilities = pos 10 })
        (allocate 1 Asset.a (pos 4) users).1
unfolding holding plus ◌-ℤ◌
allocate-Put_example =
    (allocate-Put users 1 Asset.a refl {us = seller} refl (pos 4)).0 (omega arith)

release-Put_example :
    ((release 1 Asset.a (pos 2) users).0 ≡ ok tt)
    × Put users 1 Asset.a
        (record { available = pos 6; liabilities = pos 4 })
        (release 1 Asset.a (pos 2) users).1
unfolding holding plus ◌-ℤ◌
release-Put_example = (release-Put users 1 Asset.a refl {us = seller} refl (pos 2)).0 (omega arith)

consume_liability-Put_example :
    ((consume_liability 1 Asset.a (pos 7) users).0 ≡ err insufficient_liabilities)
    × Put users 1 Asset.a seller.balance_a (consume_liability 1 Asset.a (pos 7) users).1
unfolding holding plus ◌-ℤ◌
consume_liability-Put_example =
    (consume_liability-Put users 1 Asset.a refl {us = seller} refl (pos 7)).1 (omega arith)

withdraw-Covers_example :
    ((withdraw 1 Asset.a (pos 4) users).0 ≡ ok tt)
    × Covers (withdraw 1 Asset.a (pos 4) users).1 (λ v y. nothing v y +ℤ bump 1 Asset.a (pos 3) v y)
unfolding holding
withdraw-Covers_example =
    withdraw-Covers users 1 Asset.a refl (λ v y. nothing v y +ℤ bump 1 Asset.a (pos 3) v y) (pos 4)
      {us = seller} refl (omega arith) users_cover

deposit-Covers_example :
    ((deposit 3 Asset.b (pos 4) users).0 ≡ ok tt)
    × Covers (deposit 3 Asset.b (pos 4) users).1 (λ v y. nothing v y +ℤ bump 1 Asset.a (pos 3) v y)
deposit-Covers_example =
    deposit-Covers users 3 Asset.b refl (λ v y. nothing v y +ℤ bump 1 Asset.a (pos 3) v y) (pos 4)
      (omega arith) users_cover

deposit_other_asset_example :
    ((deposit 3 (Asset.other "c") (pos 4) users).0 ≡ err invalid_asset)
    × Covers
        (deposit 3 (Asset.other "c") (pos 4) users).1
        (λ v y. nothing v y +ℤ bump 1 Asset.a (pos 3) v y)
    × ((y : Asset) → supply (deposit 3 (Asset.other "c") (pos 4) users).1 y ≡ supply users y)
    × (totals (deposit 3 (Asset.other "c") (pos 4) users).1 ≡ totals users)
    × ((v : ℕ)
        → lookup v (deposit 3 (Asset.other "c") (pos 4) users).1
          ≡ (if v == 3 then some (new_user 3) else lookup v users))
deposit_other_asset_example =
    deposit_other_asset users 3 "c" (pos 4) (λ v y. nothing v y +ℤ bump 1 Asset.a (pos 3) v y)
      users_cover

abbrev later_order : Order
later_order = record sell_order { id = 5; price = pos 3 }

later_book : IsBook 6 resting_state.book
later_book = IsBook-mono (rw stores_then.4 (omega arith)) resting_state-IsSolvent.book

remove-IsBook_example : IsBook 6 (OrderBook.remove 0 resting_state.book).1
remove-IsBook_example = remove-IsBook 0 resting_state.book later_book
