-- ===== src/Models/User/Effects.antt =====
-- Each method of a balance where its check passes.
use lumendark.Common.{◌≡◌, ◌+ℤ◌, ◌-ℤ◌, ◌≤ℤ◌, Decimal, arith, ok}
use lumendark.Models.User.{UserBalance, allocate, release, consume_liability, deposit, withdraw}

module _ (amount : Decimal) (s : UserBalance) where
  pub allocate_covered :
      amount ≤ℤ s.available
      → allocate amount s ≡ (
        ok tt,
        record s { available = s.available -ℤ amount; liabilities = s.liabilities +ℤ amount },
      )
  unfolding allocate
  allocate_covered h = ground arith

  pub release_covered :
      amount ≤ℤ s.liabilities
      → release amount s ≡ (
        ok tt,
        record s { liabilities = s.liabilities -ℤ amount; available = s.available +ℤ amount },
      )
  unfolding release
  release_covered h = ground arith

  pub consume_liability_covered :
      amount ≤ℤ s.liabilities
      → consume_liability amount s ≡ (ok tt, record s { liabilities = s.liabilities -ℤ amount })
  unfolding consume_liability
  consume_liability_covered h = ground arith

  pub withdraw_covered :
      amount ≤ℤ s.available
      → withdraw amount s ≡ (ok tt, record s { available = s.available -ℤ amount })
  unfolding withdraw
  withdraw_covered h = ground arith

  pub deposit_eq : deposit amount s ≡ (ok tt, record s { available = s.available +ℤ amount })
  unfolding deposit
  deposit_eq = ground arith
