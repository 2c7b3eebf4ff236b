-- ===== src/Storage/UserStore/Moves.antt =====
-- What the methods that move a balance leave, on both branches of their checks.
use lumendark.Common.{
  ℕ, ◌≡◌, ap, ◌∙◌, true, false, some, if◌then◌else◌, pos, ◌+ℤ◌, ◌-ℤ◌, ◌≤ℤ◌, leb_ℤ, ltb_ℤ, int_laws,
  Bool-cases, inl, inr, Action, Result, ok, err, insufficient_available, insufficient_liabilities,
  ⊤, Decimal,
}
use lumendark.Common.Dict.{lookup}
use lumendark.Models.Order.{Asset}
use lumendark.Models.User
use lumendark.Models.User.Effects.{allocate_covered, release_covered, consume_liability_covered}
use lumendark.Models.User.{User, UserBalance, on_balance}
use lumendark.Storage.UserStore.{UserStore, on_user, allocate, release, consume_liability}
use lumendark.Storage.UserStore.Holdings.{
  asset_eqb, concerns, holding, holding-on_user, result-on_user,
}
use lumendark.Storage.UserStore.Cover.{holding_same}

module _ (amount : Decimal) (s : UserBalance) where
  allocate_short :
      s.available +ℤ pos 1 ≤ℤ amount → User.allocate amount s ≡ (err insufficient_available, s)
  unfolding User.allocate
  allocate_short h = let f : leb_ℤ amount s.available ≡ false = grind int_laws in rw f

  release_short :
      s.liabilities +ℤ pos 1 ≤ℤ amount → User.release amount s ≡ (err insufficient_liabilities, s)
  unfolding User.release
  release_short h = let t : ltb_ℤ s.liabilities amount ≡ true = grind int_laws in rw t

  consume_liability_short :
      s.liabilities +ℤ pos 1 ≤ℤ amount
      → User.consume_liability amount s ≡ (err insufficient_liabilities, s)
  unfolding User.consume_liability
  consume_liability_short h = let t : ltb_ℤ s.liabilities amount ≡ true = grind int_laws in rw t

-- A store where one balance has become `b`, and every other is as before.
abbrev pub Put : UserStore → ℕ → Asset → UserBalance → UserStore → Type 0
Put st u x b st' =
    (v : ℕ) (y : Asset) → holding st' v y ≡ (if concerns u x v y then b else holding st v y)

module _ (st : UserStore) (u : ℕ) (x : Asset) (real : asset_eqb x x ≡ true) {us : User}
    (found : lookup u st ≡ some us) where
  abbrev held : UserBalance
  held = holding st u x

  on_user-Put :
      (m : Action UserBalance ⊤) (r : Result ⊤) (b : UserBalance)
      → m held ≡ (r, b)
      → ((on_user u (on_balance x m) st).0 ≡ r) × Put st u x b (on_user u (on_balance x m) st).1
  on_user-Put m r b e = (
    result-on_user st u x m found real ∙ ap (λ (p : Result ⊤ × UserBalance). p.0) e,
    λ v y. holding-on_user st u x m found v y ∙ elim (Bool-cases (concerns u x v y)) [
      | inl t ↦ rw t (
          ap (λ (h : UserBalance). (m h).1) (holding_same st u v x y t)
          ∙ ap (λ (p : Result ⊤ × UserBalance). p.1) e)
      | inr f ↦ rw f
    ],
  )

  -- For a stored user, an asset "a" or "b" and any amount: where the user's available balance is
  -- at least the amount, `allocate` returns, the available balance is less by the amount and the
  -- liabilities are more by it; where it is less, it raises for insufficient available balance
  -- and leaves that balance as it was. In both cases every other balance of the store is as
  -- before.
  pub allocate-Put :
      (amount : Decimal)
      → (amount ≤ℤ held.available
          → ((allocate u x amount st).0 ≡ ok tt)
            × Put st u x
                (record {
                  available = held.available -ℤ amount;
                  liabilities = held.liabilities +ℤ amount;
                })
                (allocate u x amount st).1)
        × (held.available +ℤ pos 1 ≤ℤ amount
            → ((allocate u x amount st).0 ≡ err insufficient_available)
              × Put st u x held (allocate u x amount st).1)
  unfolding allocate
  allocate-Put amount = (
    λ enough. on_user-Put (User.allocate amount) _ _ (allocate_covered amount held enough),
    λ short. on_user-Put (User.allocate amount) _ _ (allocate_short amount held short),
  )

  -- For a stored user, an asset "a" or "b" and any amount: where the user's liabilities are at
  -- least the amount, `release` returns, the available balance is more by the amount and the
  -- liabilities are less by it; where they are less, it raises for insufficient liabilities and
  -- leaves that balance as it was. In both cases every other balance of the store is as before.
  pub release-Put :
      (amount : Decimal)
      → (amount ≤ℤ held.liabilities
          → ((release u x amount st).0 ≡ ok tt)
            × Put st u x
                (record {
                  available = held.available +ℤ amount;
                  liabilities = held.liabilities -ℤ amount;
                })
                (release u x amount st).1)
        × (held.liabilities +ℤ pos 1 ≤ℤ amount
            → ((release u x amount st).0 ≡ err insufficient_liabilities)
              × Put st u x held (release u x amount st).1)
  unfolding release
  release-Put amount = (
    λ enough. on_user-Put (User.release amount) _ _ (release_covered amount held enough),
    λ short. on_user-Put (User.release amount) _ _ (release_short amount held short),
  )

  -- For a stored user, an asset "a" or "b" and any amount: where the user's liabilities are at
  -- least the amount, `consume_liability` returns, these liabilities are less by the amount and
  -- the available balance is as before; where they are less, it raises for insufficient
  -- liabilities and leaves that balance as it was. In both cases every other balance of the store
  -- is as before.
  pub consume_liability-Put :
      (amount : Decimal)
      → (amount ≤ℤ held.liabilities
          → ((consume_liability u x amount st).0 ≡ ok tt)
            × Put st u x
                (record { available = held.available; liabilities = held.liabilities -ℤ amount })
                (consume_liability u x amount st).1)
        × (held.liabilities +ℤ pos 1 ≤ℤ amount
            → ((consume_liability u x amount st).0 ≡ err insufficient_liabilities)
              × Put st u x held (consume_liability u x amount st).1)
  unfolding consume_liability
  consume_liability-Put amount = (
    λ enough.
        on_user-Put (User.consume_liability amount) _ _
          (consume_liability_covered amount held enough),
    λ short.
        on_user-Put (User.consume_liability amount) _ _ (consume_liability_short amount held short),
  )
