-- ===== src/Storage/UserStore/Holdings.antt =====
-- What a user holds of an asset, and what a method call on one balance does to all holdings and to
-- the sum over the users.
use lumendark.Common.{
  ℕ, ◌≡◌, refl, ap, ◌∙◌, Bool, true, false, ◌&&◌, Option, none, some, ◌==◌, ==→eq, eq→==, pos,
  Option-cases, inl, inr, if◌then◌else◌, ℤ, ◌+ℤ◌, ◌-ℤ◌, int_laws, Action, ⊤,
}
use lumendark.Common.Dict.{lookup, contains, insert, lookup-insert}
use lumendark.Common.Dict.Sum.{sum, sum-insert}
use lumendark.Models.Order.{Asset}
use lumendark.Models.User
use lumendark.Models.User.{User, UserBalance, zero_balance, new_user, on_balance}
use lumendark.Storage.UserStore.{UserStore, on_user, get_or_create}

abbrev pub asset_eqb : Asset → Asset → Bool
asset_eqb Asset.a Asset.a = true
asset_eqb Asset.b Asset.b = true
asset_eqb _ _ = false

abbrev pub balance_of : Asset → User → UserBalance
balance_of Asset.a u = u.balance_a
balance_of Asset.b u = u.balance_b
balance_of (Asset.other _) u = zero_balance

abbrev pub balance_at : Asset → Option User → UserBalance
balance_at x none = zero_balance
balance_at x (some u) = balance_of x u

unfoldable pub holding : UserStore → ℕ → Asset → UserBalance
holding st v x = balance_at x (lookup v st)

-- The sum of the users' totals of an asset.
pub supply : UserStore → Asset → ℤ
supply st x = sum (λ u. User.total (balance_of x u)) st

-- Whether a balance is the one that a call for user `u` and asset `x` is about.
abbrev pub concerns : ℕ → Asset → ℕ → Asset → Bool
concerns u x v y = v == u && asset_eqb y x

balance_of-on_balance :
    (x y : Asset) (m : Action UserBalance ⊤) (u : User)
    → balance_of y (on_balance x m u).1
      ≡ (if asset_eqb y x then (m (balance_of y u)).1 else balance_of y u)
balance_of-on_balance Asset.a Asset.a m u = refl
balance_of-on_balance Asset.a Asset.b m u = refl
balance_of-on_balance Asset.a (Asset.other t) m u = refl
balance_of-on_balance Asset.b Asset.a m u = refl
balance_of-on_balance Asset.b Asset.b m u = refl
balance_of-on_balance Asset.b (Asset.other t) m u = refl
balance_of-on_balance (Asset.other t) Asset.a m u = refl
balance_of-on_balance (Asset.other t) Asset.b m u = refl
balance_of-on_balance (Asset.other t) (Asset.other s) m u = refl

supply_if :
    (x y : Asset) (m : Action UserBalance ⊤) (u : User) (s : ℤ)
    → s -ℤ User.total (balance_of y u) +ℤ User.total (balance_of y (on_balance x m u).1) ≡ (
        if asset_eqb y x
        then s -ℤ User.total (balance_of y u) +ℤ User.total (m (balance_of y u)).1
        else s)
supply_if Asset.a Asset.a m u s = refl
supply_if Asset.a Asset.b m u s = omega int_laws
supply_if Asset.a (Asset.other t) m u s = omega int_laws
supply_if Asset.b Asset.a m u s = omega int_laws
supply_if Asset.b Asset.b m u s = refl
supply_if Asset.b (Asset.other t) m u s = omega int_laws
supply_if (Asset.other t) Asset.a m u s = omega int_laws
supply_if (Asset.other t) Asset.b m u s = omega int_laws
supply_if (Asset.other t) (Asset.other t') m u s = omega int_laws

result-on_balance :
    (x : Asset) (m : Action UserBalance ⊤) (u : User)
    → asset_eqb x x ≡ true
    → (on_balance x m u).0 ≡ (m (balance_of x u)).0
result-on_balance Asset.a m u real = refl
result-on_balance Asset.b m u real = refl
result-on_balance (Asset.other t) m u real = cc

module _ (st : UserStore) (u : ℕ) (x : Asset) (m : Action UserBalance ⊤) {us : User}
    (known : lookup u st ≡ some us) where
  after : (on_user u (on_balance x m) st).1 ≡ insert u (on_balance x m us).1 st
  after = rw (on_user, known)

  replaced_if :
      (v : ℕ) (y : Asset) (t : Bool)
      → (t ≡ true → v ≡ u)
      → balance_at y (if t then some (on_balance x m us).1 else lookup v st) ≡ (
          if t && asset_eqb y x
          then (m (balance_at y (lookup v st))).1
          else balance_at y (lookup v st))
  replaced_if v y true e = rw (e refl, known) (balance_of-on_balance x y m us)
  replaced_if v y false e = refl

  pub holding-on_user :
      (v : ℕ) (y : Asset)
      → holding (on_user u (on_balance x m) st).1 v y
        ≡ (if concerns u x v y then (m (holding st v y)).1 else holding st v y)
  unfolding holding
  holding-on_user v y =
      ap (λ o. balance_at y (lookup v o)) after
      ∙ ap (balance_at y) (lookup-insert v u (on_balance x m us).1 st)
      ∙ replaced_if v y (v == u) (==→eq v u)

  pub supply-on_user :
      (y : Asset)
      → supply (on_user u (on_balance x m) st).1 y ≡ (
          if asset_eqb y x
          then supply st y -ℤ User.total (holding st u y) +ℤ User.total (m (holding st u y)).1
          else supply st y)
  unfolding holding supply
  supply-on_user y =
      ap (sum (λ w. User.total (balance_of y w))) after
      ∙ sum-insert (λ w. User.total (balance_of y w)) u (on_balance x m us).1 st
      ∙ rw known (supply_if x y m us (supply st y))

  pub result-on_user :
      asset_eqb x x ≡ true → (on_user u (on_balance x m) st).0 ≡ (m (holding st u x)).0
  unfolding holding result-on_balance
  result-on_user real = rw (on_user, known) (result-on_balance x m us real)

pub created :
    (u : ℕ) (st : UserStore)
    → lookup u st ≡ none
    → (get_or_create u st).1 ≡ insert u (new_user u) st
unfolding get_or_create
created u st unknown = rw (contains, unknown)

pub kept :
    (u : ℕ) (st : UserStore) {us : User} → lookup u st ≡ some us → (get_or_create u st).1 ≡ st
unfolding get_or_create
kept u st known = rw (contains, known)

-- A new user holds nothing.
pub lookup-get_or_create :
    (u : ℕ) (st : UserStore) → (us : User) × (lookup u (get_or_create u st).1 ≡ some us)
lookup-get_or_create u st = elim (Option-cases (lookup u st)) [
  | inl unknown ↦ (new_user u, rw (created u st unknown, lookup-insert, eq→== u u refl))
  | inr (us, known) ↦ (us, rw (kept u st known) known)
]

holding_new :
    (u v : ℕ) (y : Asset) (st : UserStore)
    → lookup u st ≡ none
    → (t : Bool) → (t ≡ true → v ≡ u)
    → balance_at y (if t then some (new_user u) else lookup v st) ≡ balance_at y (lookup v st)
holding_new u v y st unknown false e = refl
holding_new u v Asset.a st unknown true e = rw (e refl, unknown)
holding_new u v Asset.b st unknown true e = rw (e refl, unknown)
holding_new u v (Asset.other t) st unknown true e = rw (e refl, unknown)

pub holding-get_or_create :
    (u : ℕ) (st : UserStore) (v : ℕ) (y : Asset)
    → holding (get_or_create u st).1 v y ≡ holding st v y
unfolding holding
holding-get_or_create u st v y = elim (Option-cases (lookup u st)) [
  | inl unknown ↦
      rw (created u st unknown, lookup-insert) (holding_new u v y st unknown (v == u) (==→eq v u))
  | inr (us, known) ↦ rw (kept u st known)
]

supply_new : (u : ℕ) (y : Asset) (s : ℤ) → s -ℤ pos 0 +ℤ User.total (balance_of y (new_user u)) ≡ s
supply_new u Asset.a s = omega int_laws
supply_new u Asset.b s = omega int_laws
supply_new u (Asset.other t) s = omega int_laws

pub supply-get_or_create :
    (u : ℕ) (st : UserStore) (y : Asset) → supply (get_or_create u st).1 y ≡ supply st y
unfolding supply
supply-get_or_create u st y = elim (Option-cases (lookup u st)) [
  | inl unknown ↦ rw (created u st unknown, sum-insert, unknown) (supply_new u y _)
  | inr (us, known) ↦ rw (kept u st known)
]
