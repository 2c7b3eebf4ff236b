-- ===== src/Storage/UserStore/Readers.antt =====
-- What the readers find for a known user and for an unknown one.
use lumendark.Common.{ℕ, ◌≡◌, false, true, none, some, Decimal, leb_ℤ, ok, Option-cases, inl, inr}
use lumendark.Common.Dict.{lookup}
use lumendark.Models.Order.{Asset}
use lumendark.Models.User.{User}
use lumendark.Storage.UserStore.{UserStore, can_allocate, can_withdraw, get_available, reading}
use lumendark.Storage.UserStore.Holdings.{holding, asset_eqb}

module _ (st : UserStore) (u : ℕ) {us : User} (known : lookup u st ≡ some us) where
  pub can_allocate_known :
      (x : Asset) (amount : Decimal)
      → asset_eqb x x ≡ true
      → can_allocate u x amount st ≡ ok (leb_ℤ amount (holding st u x).available)
  unfolding can_allocate holding
  can_allocate_known Asset.a amount real = rw (reading, known)
  can_allocate_known Asset.b amount real = rw (reading, known)
  can_allocate_known (Asset.other t) amount real = cc

  pub can_withdraw_known :
      (x : Asset) (amount : Decimal)
      → asset_eqb x x ≡ true
      → can_withdraw u x amount st ≡ ok (leb_ℤ amount (holding st u x).available)
  unfolding can_withdraw holding
  can_withdraw_known Asset.a amount real = rw (reading, known)
  can_withdraw_known Asset.b amount real = rw (reading, known)
  can_withdraw_known (Asset.other t) amount real = cc

  get_available_known :
      (x : Asset) → asset_eqb x x ≡ true → get_available u x st ≡ ok (holding st u x).available
  unfolding get_available holding
  get_available_known Asset.a real = rw (reading, known)
  get_available_known Asset.b real = rw (reading, known)
  get_available_known (Asset.other t) real = cc

module _ (st : UserStore) (u : ℕ) (x : Asset) (unknown : lookup u st ≡ none) where
  pub can_withdraw_unknown : (amount : Decimal) → can_withdraw u x amount st ≡ ok false
  unfolding can_withdraw
  can_withdraw_unknown amount = rw (reading, unknown)

  get_available_unknown : get_available u x st ≡ ok (holding st u x).available
  unfolding get_available holding
  get_available_unknown = rw (reading, unknown)

-- The available balance is read as it is held, for every user.
pub get_available_lem :
    (st : UserStore) (u : ℕ) (x : Asset)
    → asset_eqb x x ≡ true
    → get_available u x st ≡ ok (holding st u x).available
get_available_lem st u x real = elim (Option-cases (lookup u st)) [
  | inl unknown ↦ get_available_unknown st u x unknown
  | inr (us, known) ↦ get_available_known st u known x real
]
