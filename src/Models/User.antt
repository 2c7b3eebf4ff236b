-- ===== src/Models/User.antt =====
-- backend/lumendark/models/user.py: the balances of one user.
pub mod Effects
use lumendark.Common.{
  ℕ, Bool, Decimal, pos, ◌+ℤ◌, ◌-ℤ◌, ltb_ℤ, leb_ℤ, not, ⊤, Action, ◌>>=◌, ◌>>◌, gets, modify, raise,
  raise_if, insufficient_available, insufficient_liabilities, invalid_asset,
}
use lumendark.Models.Order.{Asset}

pub record UserBalance : Type 0 where
  pub available : Decimal
  pub liabilities : Decimal

abbrev pub zero_balance : UserBalance
zero_balance = record { available = pos 0; liabilities = pos 0 }

abbrev pub total : UserBalance → Decimal
total s = s.available +ℤ s.liabilities

abbrev pub can_allocate : Decimal → UserBalance → Bool
can_allocate amount s = leb_ℤ amount s.available

unfoldable pub allocate : Decimal → Action UserBalance ⊤
allocate amount = do
  raise_if (not (← gets (can_allocate amount))) insufficient_available
  modify λ s. record s { available = s.available -ℤ amount; liabilities = s.liabilities +ℤ amount }

unfoldable pub release : Decimal → Action UserBalance ⊤
release amount = do
  raise_if (← gets (λ s. ltb_ℤ s.liabilities amount)) insufficient_liabilities
  modify λ s. record s { liabilities = s.liabilities -ℤ amount; available = s.available +ℤ amount }

unfoldable pub consume_liability : Decimal → Action UserBalance ⊤
consume_liability amount = do
  raise_if (← gets (λ s. ltb_ℤ s.liabilities amount)) insufficient_liabilities
  modify (λ s. record s { liabilities = s.liabilities -ℤ amount })

-- `deposit`, and the `+=` on `available` by which `UserStore.credit` does the same
unfoldable pub deposit : Decimal → Action UserBalance ⊤
deposit amount = modify (λ s. record s { available = s.available +ℤ amount })

abbrev pub can_withdraw : Decimal → UserBalance → Bool
can_withdraw amount s = leb_ℤ amount s.available

unfoldable pub withdraw : Decimal → Action UserBalance ⊤
withdraw amount = do
  raise_if (not (← gets (can_withdraw amount))) insufficient_available
  modify (λ s. record s { available = s.available -ℤ amount })

pub record User : Type 0 where
  pub address : ℕ
  pub balance_a : UserBalance
  pub balance_b : UserBalance

abbrev pub new_user : ℕ → User
new_user address = record { address = address; balance_a = zero_balance; balance_b = zero_balance }

-- A call of a method on the balance that `get_balance` returns, a reference into the user.
abbrev pub on_balance : {A : Type 0} → Asset → Action UserBalance A → Action User A
on_balance Asset.a m u = let (r, s) = m u.balance_a in (r, record u { balance_a = s })
on_balance Asset.b m u = let (r, s) = m u.balance_b in (r, record u { balance_b = s })
on_balance (Asset.other _) m u = raise invalid_asset u
