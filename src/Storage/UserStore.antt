-- ===== src/Storage/UserStore.antt =====
-- backend/lumendark/storage/user_store.py: the users by address. The lock is not modelled: a call is
-- one step.
pub mod Holdings
pub mod Cover
pub mod Supply
pub mod Totals
pub mod OtherAsset
pub mod Readers
pub mod Moves
use lumendark.Common.{
  ℕ, Bool, false, Option, none, some, Decimal, pos, ⊤, Action, Result, ok, raise, if◌then◌else◌,
  user_not_found, ◌>>◌,
}
use lumendark.Common.Dict.{Dict, lookup, contains, insert}
use lumendark.Models.Order.{Asset}
use lumendark.Models.User
use lumendark.Models.User.{User, UserBalance, new_user, on_balance}

abbrev pub UserStore : Type 0
UserStore = Dict User

abbrev pub get : ℕ → UserStore → Option User
get address store = lookup address store

-- What `get_or_create` leaves in the store.
unfoldable pub get_or_create : ℕ → Action UserStore ⊤
get_or_create address store =
    (ok tt, if contains address store then store else insert address (new_user address) store)

-- A method call on a stored user, a reference into the store.
abbrev pub on_user : {A : Type 0} → ℕ → Action User A → Action UserStore A
on_user address m store = elim (get address store) [
  | none ↦ raise user_not_found store
  | some u ↦ let (r, u') = m u in (r, insert address u' store)
]

unfoldable pub deposit : ℕ → Asset → Decimal → Action UserStore ⊤
unfolding get_or_create
deposit address asset amount = do
  get_or_create address
  on_user address (on_balance asset (User.deposit amount))

unfoldable pub allocate : ℕ → Asset → Decimal → Action UserStore ⊤
allocate address asset amount = on_user address (on_balance asset (User.allocate amount))

unfoldable pub release : ℕ → Asset → Decimal → Action UserStore ⊤
release address asset amount = on_user address (on_balance asset (User.release amount))

unfoldable pub consume_liability : ℕ → Asset → Decimal → Action UserStore ⊤
consume_liability address asset amount =
    on_user address (on_balance asset (User.consume_liability amount))

unfoldable pub credit : ℕ → Asset → Decimal → Action UserStore ⊤
unfolding get_or_create
credit address asset amount = do
  get_or_create address
  on_user address (on_balance asset (User.deposit amount))

unfoldable pub withdraw : ℕ → Asset → Decimal → Action UserStore ⊤
withdraw address asset amount = on_user address (on_balance asset (User.withdraw amount))

-- A reader: `missing` for an unknown user, else what `read` finds in the balance.
abbrev pub reading : {A : Type 0} → ℕ → Asset → A → (UserBalance → A) → UserStore → Result A
reading address asset missing read store = elim (get address store) [
  | none ↦ ok missing
  | some u ↦ (on_balance asset (λ s. (ok (read s), s)) u).0
]

unfoldable pub can_allocate : ℕ → Asset → Decimal → UserStore → Result Bool
can_allocate address asset amount = reading address asset false (User.can_allocate amount)

unfoldable pub can_withdraw : ℕ → Asset → Decimal → UserStore → Result Bool
can_withdraw address asset amount = reading address asset false (User.can_withdraw amount)

unfoldable pub get_available : ℕ → Asset → UserStore → Result Decimal
get_available address asset = reading address asset (pos 0) (λ s. s.available)

unfoldable pub get_liabilities : ℕ → Asset → UserStore → Result Decimal
get_liabilities address asset = reading address asset (pos 0) (λ s. s.liabilities)

unfoldable pub get_total : ℕ → Asset → UserStore → Result Decimal
get_total address asset = reading address asset (pos 0) User.total
