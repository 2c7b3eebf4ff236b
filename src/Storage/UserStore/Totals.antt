-- ===== src/Storage/UserStore/Totals.antt =====
-- The total of each user in each asset under the store's methods, where they do not raise.
use lumendark.Common.{
  ℕ, ◌≡◌, ap, ◌∙◌, true, some, ℤ, pos, ◌+ℤ◌, ◌-ℤ◌, ◌≤ℤ◌, int_laws, Action, ⊤, Bool-cases, inl, inr,
  Decimal,
}
use lumendark.Common.Dict.{lookup}
use lumendark.Models.Order.{Asset}
use lumendark.Models.User
use lumendark.Models.User.Effects.{
  allocate_covered, release_covered, consume_liability_covered, withdraw_covered, deposit_eq,
}
use lumendark.Models.User.{User, UserBalance, on_balance}
use lumendark.Storage.UserStore.{
  UserStore, on_user, deposit, allocate, release, consume_liability, credit, withdraw,
}
use lumendark.Storage.UserStore.Holdings.{
  asset_eqb, concerns, holding, holding-on_user, lookup-get_or_create, holding-get_or_create,
}
use lumendark.Storage.UserStore.Cover.{
  Covers, Demand, bump, liabilities_enough, known, holding_same, with_user,
}

abbrev pub totals : UserStore → Demand
totals st v y = User.total (holding st v y)

totals-shift :
    (st : UserStore) (u : ℕ) (x : Asset) (m : Action UserBalance ⊤) {us : User}
    → lookup u st ≡ some us
    → (delta : ℤ)
    → ((v : ℕ) (y : Asset)
        → concerns u x v y ≡ true
        → User.total (m (holding st v y)).1 ≡ User.total (holding st v y) +ℤ delta)
    → (v : ℕ) (y : Asset)
    → totals (on_user u (on_balance x m) st).1 v y ≡ totals st v y +ℤ bump u x delta v y
totals-shift st u x m found delta moves v y =
    ap User.total (holding-on_user st u x m found v y) ∙ elim (Bool-cases (concerns u x v y)) [
      | inl t ↦ rw t (moves v y t)
      | inr f ↦ rw f (omega int_laws)
    ]

module _ (st : UserStore) (u : ℕ) (x : Asset) (d : Demand) (amount : Decimal)
    (positive : pos 1 ≤ℤ amount) (nonneg : (v : ℕ) (y : Asset) → pos 0 ≤ℤ d v y)
    (real : asset_eqb x x ≡ true) (c : Covers st (λ v y. d v y +ℤ bump u x amount v y)) where
  pub totals-consume_liability :
      (v : ℕ) (y : Asset)
      → totals (consume_liability u x amount st).1 v y
        ≡ totals st v y +ℤ bump u x (pos 0 -ℤ amount) v y
  unfolding consume_liability
  totals-consume_liability =
      totals-shift st u x (User.consume_liability amount)
        (known st u x real d amount positive nonneg c).1 (pos 0 -ℤ amount)
        (λ v y t.
          rw
            (consume_liability_covered amount (holding st v y)
              (liabilities_enough st u x real d amount positive nonneg c v y t))
            (omega int_laws))

  pub totals-release :
      (v : ℕ) (y : Asset)
      → totals (release u x amount st).1 v y ≡ totals st v y +ℤ bump u x (pos 0) v y
  unfolding release
  totals-release =
      totals-shift st u x (User.release amount) (known st u x real d amount positive nonneg c).1
        (pos 0)
        (λ v y t.
          rw
            (release_covered amount (holding st v y)
              (liabilities_enough st u x real d amount positive nonneg c v y t))
            (omega int_laws))

module _ (st : UserStore) (u : ℕ) (x : Asset) (amount : Decimal) where
  module _ {us : User} (found : lookup u st ≡ some us)
      (enough : amount ≤ℤ (holding st u x).available) where
    pub totals-allocate :
        (v : ℕ) (y : Asset)
        → totals (allocate u x amount st).1 v y ≡ totals st v y +ℤ bump u x (pos 0) v y
    unfolding allocate
    totals-allocate = totals-shift st u x (User.allocate amount) found (pos 0) (λ v y t.
        rw (allocate_covered amount (holding st v y) (rw (holding_same st u v x y t) enough))
          (omega int_laws))

    pub totals-withdraw :
        (v : ℕ) (y : Asset)
        → totals (withdraw u x amount st).1 v y ≡ totals st v y +ℤ bump u x (pos 0 -ℤ amount) v y
    unfolding withdraw
    totals-withdraw = totals-shift st u x (User.withdraw amount) found (pos 0 -ℤ amount) (λ v y t.
        rw (withdraw_covered amount (holding st v y) (rw (holding_same st u v x y t) enough))
          (omega int_laws))

  pub totals-deposit :
      (v : ℕ) (y : Asset)
      → totals (deposit u x amount st).1 v y ≡ totals st v y +ℤ bump u x amount v y
  unfolding deposit
  totals-deposit v y =
      totals-shift (with_user u st) u x (User.deposit amount) (lookup-get_or_create u st).1 amount
        (λ w z t. rw deposit_eq (omega int_laws)) v y
      ∙ ap (λ (b : UserBalance). User.total b +ℤ bump u x amount v y)
          (holding-get_or_create u st v y)

  pub totals-credit :
      (v : ℕ) (y : Asset)
      → totals (credit u x amount st).1 v y ≡ totals st v y +ℤ bump u x amount v y
  unfolding credit deposit
  totals-credit = totals-deposit
