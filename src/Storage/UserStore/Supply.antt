-- ===== src/Storage/UserStore/Supply.antt =====
-- The sum of the users' totals of an asset under the store's methods, where they do not raise.
use lumendark.Common.{
  ℕ, ◌≡◌, refl, ap, ◌∙◌, true, some, if◌then◌else◌, ℤ, pos, ◌+ℤ◌, ◌-ℤ◌, ◌≤ℤ◌, int_laws, Action, ⊤,
  Bool-cases, inl, inr, Decimal, eq→==,
}
use lumendark.Common.Dict.{lookup}
use lumendark.Models.Order.{Asset}
use lumendark.Models.User
use lumendark.Models.User.Effects.{
  allocate_covered, release_covered, consume_liability_covered, withdraw_covered, deposit_eq,
}
use lumendark.Models.User.{User, UserBalance, on_balance}
use lumendark.Storage.UserStore.{
  UserStore, on_user, deposit, allocate, release, consume_liability, credit, withdraw,
}
use lumendark.Storage.UserStore.Holdings.{
  asset_eqb, concerns, holding, supply, supply-on_user, lookup-get_or_create, supply-get_or_create,
}
use lumendark.Storage.UserStore.Cover.{
  Covers, Demand, bump, liabilities_enough, known, holding_same, with_user,
}

-- A change of the supply of one asset.
abbrev pub shift : Asset → ℤ → Asset → ℤ
shift x amount y = if asset_eqb y x then amount else pos 0

concerns_user : (u : ℕ) (x y : Asset) → asset_eqb y x ≡ true → concerns u x u y ≡ true
concerns_user u x y e = rw (eq→== u u refl) e

supply-shift :
    (st : UserStore) (u : ℕ) (x : Asset) (m : Action UserBalance ⊤) {us : User}
    → lookup u st ≡ some us
    → (delta : ℤ)
    → ((y : Asset)
        → asset_eqb y x ≡ true
        → User.total (m (holding st u y)).1 ≡ User.total (holding st u y) +ℤ delta)
    → (y : Asset) → supply (on_user u (on_balance x m) st).1 y ≡ supply st y +ℤ shift x delta y
supply-shift st u x m found delta moves y =
    supply-on_user st u x m found y ∙ elim (Bool-cases (asset_eqb y x)) [
      | inl t ↦ rw (t, moves y t) (omega int_laws)
      | inr f ↦ rw f (omega int_laws)
    ]

module _ (st : UserStore) (u : ℕ) (x : Asset) (d : Demand) (amount : Decimal)
    (positive : pos 1 ≤ℤ amount) (nonneg : (v : ℕ) (y : Asset) → pos 0 ≤ℤ d v y)
    (real : asset_eqb x x ≡ true) (c : Covers st (λ v y. d v y +ℤ bump u x amount v y)) where
  pub supply-consume_liability :
      (y : Asset)
      → supply (consume_liability u x amount st).1 y ≡ supply st y +ℤ shift x (pos 0 -ℤ amount) y
  unfolding consume_liability
  supply-consume_liability =
      supply-shift st u x (User.consume_liability amount)
        (known st u x real d amount positive nonneg c).1 (pos 0 -ℤ amount)
        (λ y t.
          rw
            (consume_liability_covered amount (holding st u y) (
              liabilities_enough st u x real d amount positive nonneg c u y
                (concerns_user u x y t)))
            (omega int_laws))

  pub supply-release :
      (y : Asset) → supply (release u x amount st).1 y ≡ supply st y +ℤ shift x (pos 0) y
  unfolding release
  supply-release =
      supply-shift st u x (User.release amount) (known st u x real d amount positive nonneg c).1
        (pos 0)
        (λ y t.
          rw
            (release_covered amount (holding st u y) (
              liabilities_enough st u x real d amount positive nonneg c u y
                (concerns_user u x y t)))
            (omega int_laws))

module _ (st : UserStore) (u : ℕ) (x : Asset) (amount : Decimal) where
  module _ {us : User} (found : lookup u st ≡ some us)
      (enough : amount ≤ℤ (holding st u x).available) where
    pub supply-allocate :
        (y : Asset) → supply (allocate u x amount st).1 y ≡ supply st y +ℤ shift x (pos 0) y
    unfolding allocate
    supply-allocate = supply-shift st u x (User.allocate amount) found (pos 0) (λ y t.
        rw
          (allocate_covered amount (holding st u y)
            (rw (holding_same st u u x y (concerns_user u x y t)) enough))
          (omega int_laws))

    pub supply-withdraw :
        (y : Asset)
        → supply (withdraw u x amount st).1 y ≡ supply st y +ℤ shift x (pos 0 -ℤ amount) y
    unfolding withdraw
    supply-withdraw = supply-shift st u x (User.withdraw amount) found (pos 0 -ℤ amount) (λ y t.
        rw
          (withdraw_covered amount (holding st u y)
            (rw (holding_same st u u x y (concerns_user u x y t)) enough))
          (omega int_laws))

  pub supply-deposit :
      (y : Asset) → supply (deposit u x amount st).1 y ≡ supply st y +ℤ shift x amount y
  unfolding deposit
  supply-deposit y =
      supply-shift (with_user u st) u x (User.deposit amount) (lookup-get_or_create u st).1 amount
        (λ z t. rw deposit_eq (omega int_laws)) y
      ∙ ap (λ s. s +ℤ shift x amount y) (supply-get_or_create u st y)

  pub supply-credit :
      (y : Asset) → supply (credit u x amount st).1 y ≡ supply st y +ℤ shift x amount y
  unfolding credit deposit
  supply-credit = supply-deposit
