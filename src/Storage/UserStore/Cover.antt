-- ===== src/Storage/UserStore/Cover.antt =====
-- Liabilities that cover a demand, user by user and asset by asset, under the store's methods.
use lumendark.Common.{
  ℕ, ◌≡◌, refl, ap, ◌∙◌, true, false, none, some, arith, if◌then◌else◌, ℤ, pos, ◌+ℤ◌, ◌≤ℤ◌,
  int_laws, Action, Result, ok, ⊤, Option-cases, inl, inr, eq→==, ==→eq, Bool-cases, Decimal,
}
use lumendark.Common.Dict.{lookup}
use lumendark.Models.Order.{Asset}
use lumendark.Models.User
use lumendark.Models.User.Effects.{
  allocate_covered, release_covered, consume_liability_covered, withdraw_covered, deposit_eq,
}
use lumendark.Models.User.{User, UserBalance, zero_balance, on_balance}
use lumendark.Storage.UserStore.{
  UserStore, on_user, get_or_create, deposit, allocate, release, consume_liability, credit,
  withdraw,
}
use lumendark.Storage.UserStore.Holdings.{
  asset_eqb, concerns, holding, holding-on_user, result-on_user, lookup-get_or_create,
  holding-get_or_create,
}

abbrev pub Demand : Type 0
Demand = ℕ → Asset → ℤ

-- A demand on one balance.
abbrev pub bump : ℕ → Asset → ℤ → Demand
bump u x amount v y = if concerns u x v y then amount else pos 0

-- No available balance is negative, and the liabilities are at least what is asked of them.
pub record Covers (st : UserStore) (d : Demand) : Type 0 where
  pub at :
      (v : ℕ) (y : Asset)
      → (pos 0 ≤ℤ (holding st v y).available) × (d v y ≤ℤ (holding st v y).liabilities)

pub Covers-le :
    {st : UserStore} {d e : Demand}
    → ((v : ℕ) (y : Asset) → e v y ≤ℤ d v y)
    → Covers st d
    → Covers st e
Covers-le {st} {d} {e} h c = record {
  at = λ v y. let p = c.at v y in (p.0, omega (arith, h v y, p.1));
}

holding_unknown :
    (st : UserStore) (u : ℕ) (x : Asset) → lookup u st ≡ none → holding st u x ≡ zero_balance
unfolding holding
holding_unknown st u x e = rw e

-- A user with liabilities is in the store.
known_of_liabilities :
    (st : UserStore) (u : ℕ) (x : Asset)
    → pos 1 ≤ℤ (holding st u x).liabilities
    → (us : User) × (lookup u st ≡ some us)
known_of_liabilities st u x h = elim (Option-cases (lookup u st)) [
  | inl unknown ↦ absurd (omega (arith, rw (holding_unknown st u x unknown) at h))
  | inr known ↦ known
]

pub concerns_self : (u : ℕ) (x : Asset) → asset_eqb x x ≡ true → concerns u x u x ≡ true
concerns_self u x real = rw (eq→== u u refl) real

module _ (st : UserStore) (u : ℕ) (x : Asset) (m : Action UserBalance ⊤) {us : User}
    (known : lookup u st ≡ some us) (d e : Demand) where
  -- A call keeps what is covered, if it does on the balance that it is about.
  pub on_user-Covers :
      ((v : ℕ) (y : Asset)
        → concerns u x v y ≡ true
        → pos 0 ≤ℤ (holding st v y).available
        → d v y ≤ℤ (holding st v y).liabilities
        → (pos 0 ≤ℤ (m (holding st v y)).1.available)
          × (e v y ≤ℤ (m (holding st v y)).1.liabilities))
      → ((v : ℕ) (y : Asset) → concerns u x v y ≡ false → e v y ≤ℤ d v y)
      → Covers st d
      → Covers (on_user u (on_balance x m) st).1 e
  on_user-Covers here away c = record {
    at = λ v y.
        let p = c.at v y in
        elim (Bool-cases (concerns u x v y)) [
          | inl t ↦ rw (holding-on_user st u x m known v y, t) (here v y t p.0 p.1)
          | inr f ↦ rw (holding-on_user st u x m known v y, f) (p.0, omega (arith, away v y f, p.1))
        ];
  }

pub holding_same :
    (st : UserStore) (u v : ℕ) (x y : Asset)
    → concerns u x v y ≡ true
    → holding st v y ≡ holding st u x
holding_same st u v Asset.a Asset.a t = ap (λ w. holding st w Asset.a) (==→eq v u (ground arith))
holding_same st u v Asset.b Asset.b t = ap (λ w. holding st w Asset.b) (==→eq v u (ground arith))
holding_same st u v _ _ t = ground arith

module _ (st : UserStore) (u : ℕ) (x : Asset) (real : asset_eqb x x ≡ true) (d : Demand)
    (amount : Decimal) where
  abbrev more : Demand
  more v y = d v y +ℤ bump u x amount v y

  -- Of a demand that is covered, the part on one balance may be consumed or released.
  module _ (positive : pos 1 ≤ℤ amount) (nonneg : (v : ℕ) (y : Asset) → pos 0 ≤ℤ d v y)
      (c : Covers st (λ v y. d v y +ℤ bump u x amount v y)) where
    pub liabilities_enough :
        (v : ℕ) (y : Asset) → concerns u x v y ≡ true → amount ≤ℤ (holding st v y).liabilities
    liabilities_enough v y t = let h = (c.at v y).1 in omega (int_laws, nonneg v y, rw t at h)

    pub known : (us : User) × (lookup u st ≡ some us)
    known =
        known_of_liabilities st u x (omega (arith, liabilities_enough u x (concerns_self u x real)))

    -- For a positive amount on a balance of an asset "a" or "b", from liabilities that cover the
    -- amount beside a demand that is nowhere negative, `consume_liability` returns without a
    -- raise, no available balance is negative afterwards, and the demand is still covered.
    pub consume_liability-Covers :
        ((consume_liability u x amount st).0 ≡ ok tt) × Covers (consume_liability u x amount st).1 d
    unfolding consume_liability
    consume_liability-Covers = (
      result-on_user st u x (User.consume_liability amount) known.1 real
          ∙ ap (λ (r : Result ⊤ × UserBalance). r.0)
              (consume_liability_covered amount (holding st u x)
                (liabilities_enough u x (concerns_self u x real))),
      on_user-Covers st u x (User.consume_liability amount) known.1 more d
          (λ v y t p q.
            let q' = rw t at q in
            rw (consume_liability_covered amount (holding st v y) (liabilities_enough v y t))
              (p, omega (int_laws, q')))
          (λ v y f. rw f (omega int_laws)) c,
    )

    -- For a positive amount on a balance of an asset "a" or "b", from liabilities that cover the
    -- amount beside a demand that is nowhere negative, `release` returns without a raise, no
    -- available balance is negative afterwards, and the demand is still covered.
    pub release-Covers : ((release u x amount st).0 ≡ ok tt) × Covers (release u x amount st).1 d
    unfolding release
    release-Covers = (
      result-on_user st u x (User.release amount) known.1 real
          ∙ ap (λ (r : Result ⊤ × UserBalance). r.0)
              (release_covered amount (holding st u x)
                (liabilities_enough u x (concerns_self u x real))),
      on_user-Covers st u x (User.release amount) known.1 more d
          (λ v y t p q.
            let q' = rw t at q in
            rw (release_covered amount (holding st v y) (liabilities_enough v y t))
              (omega (int_laws, p, positive), omega (int_laws, q')))
          (λ v y f. rw f (omega int_laws)) c,
    )

  module _ {us : User} (known_user : lookup u st ≡ some us)
      (available : amount ≤ℤ (holding st u x).available) (c : Covers st d) where
    -- For a positive amount of at most a stored user's available balance of an asset "a" or "b",
    -- from a demand that is covered, `allocate` returns without a raise, no available balance is
    -- negative afterwards, and the demand and the amount on that balance are covered.
    pub allocate-Covers :
        ((allocate u x amount st).0 ≡ ok tt) × Covers (allocate u x amount st).1 more
    unfolding allocate
    allocate-Covers = (
      result-on_user st u x (User.allocate amount) known_user real
          ∙ ap (λ (r : Result ⊤ × UserBalance). r.0)
              (allocate_covered amount (holding st u x) available),
      on_user-Covers st u x (User.allocate amount) known_user d more
          (λ v y t p q.
            let enough : amount ≤ℤ (holding st v y).available =
              rw (holding_same st u v x y t) available in
            rw (allocate_covered amount (holding st v y) enough)
              (omega (int_laws, enough), rw t (omega (int_laws, q))))
          (λ v y f. rw f (omega int_laws)) c,
    )

    pub withdraw-Covers : ((withdraw u x amount st).0 ≡ ok tt) × Covers (withdraw u x amount st).1 d
    unfolding withdraw
    withdraw-Covers = (
      result-on_user st u x (User.withdraw amount) known_user real
          ∙ ap (λ (r : Result ⊤ × UserBalance). r.0)
              (withdraw_covered amount (holding st u x) available),
      on_user-Covers st u x (User.withdraw amount) known_user d d
          (λ v y t p q.
            let enough : amount ≤ℤ (holding st v y).available =
              rw (holding_same st u v x y t) available in
            rw (withdraw_covered amount (holding st v y) enough) (omega (int_laws, enough), q))
          (λ v y f. omega arith) c,
    )

-- The store after `get_or_create`.
abbrev pub with_user : ℕ → UserStore → UserStore
with_user u st = (get_or_create u st).1

pub with_user-Covers :
    (st : UserStore) (u : ℕ) (d : Demand) → Covers st d → Covers (with_user u st) d
with_user-Covers st u d c = record { at = λ v y. rw (holding-get_or_create u st v y) (c.at v y) }

module _ (st : UserStore) (u : ℕ) (x : Asset) (real : asset_eqb x x ≡ true) (d : Demand)
    (amount : Decimal) (positive : pos 1 ≤ℤ amount) (c : Covers st d) where
  -- A deposit creates the user where needed, and never raises for an asset that exists.
  pub deposit-Covers : ((deposit u x amount st).0 ≡ ok tt) × Covers (deposit u x amount st).1 d
  unfolding deposit
  deposit-Covers =
      let (us, known) = lookup-get_or_create u st in
      (
        result-on_user (with_user u st) u x (User.deposit amount) known real
            ∙ ap (λ (r : Result ⊤ × UserBalance). r.0) (deposit_eq amount _),
        on_user-Covers (with_user u st) u x (User.deposit amount) known d d
            (λ v y t p q. rw (deposit_eq amount _) (omega (int_laws, p, positive), q))
            (λ v y f. omega arith) (with_user-Covers st u d c),
      )

  pub credit-Covers : ((credit u x amount st).0 ≡ ok tt) × Covers (credit u x amount st).1 d
  unfolding credit deposit
  credit-Covers = deposit-Covers
