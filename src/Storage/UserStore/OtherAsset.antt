-- ===== src/Storage/UserStore/OtherAsset.antt =====
-- A deposit of an asset that is neither "a" nor "b": `get_or_create` runs before `get_balance` raises.
use Prim.Native.String.{String}
use lumendark.Common.{
  ℕ, ◌≡◌, refl, sym, ◌∙◌, true, false, Option, none, some, Option-cases, if◌then◌else◌, ◌==◌, ==→eq,
  eq→==, arith, Decimal, err, invalid_asset, ap, Bool-cases, inl, inr,
}
use lumendark.Common.Dict.{lookup, lookup-insert}
use lumendark.Models.Order.{Asset}
use lumendark.Models.User
use lumendark.Models.User.{User, new_user}
use lumendark.Storage.UserStore.{UserStore, on_user, deposit}
use lumendark.Storage.UserStore.Holdings.{
  asset_eqb, concerns, supply, supply-on_user, lookup-get_or_create, supply-get_or_create,
  holding-on_user, holding-get_or_create, created, kept,
}
use lumendark.Storage.UserStore.Totals.{totals}
use lumendark.Storage.UserStore.Cover.{Demand, Covers, on_user-Covers, with_user, with_user-Covers}

asset_eqb_other : (y : Asset) (t : String) → asset_eqb y (Asset.other t) ≡ false
asset_eqb_other Asset.a t = refl
asset_eqb_other Asset.b t = refl
asset_eqb_other (Asset.other s) t = refl

concerns_other : (u v : ℕ) (y : Asset) (t : String) → concerns u (Asset.other t) v y ≡ true → ⊥
concerns_other u v y t e = ground (arith, asset_eqb_other y t)

abbrev pub user_or_new : ℕ → Option User → User
user_or_new u none = new_user u
user_or_new u (some us) = us

-- The store of `get_or_create`, user by user.
lookup-with_user :
    (u : ℕ) (st : UserStore) (v : ℕ)
    → lookup v (with_user u st)
      ≡ (if v == u then some (user_or_new u (lookup u st)) else lookup v st)
lookup-with_user u st v = elim (Option-cases (lookup u st)) [
  | inl unknown ↦ rw (created u st unknown, unknown) (lookup-insert v u (new_user u) st)
  | inr (us, known) ↦ elim (Bool-cases (v == u)) [
    | inl t ↦ rw (kept u st known, t, known) (ap (λ (i : ℕ). lookup i st) (==→eq v u t) ∙ known)
    | inr f ↦ rw (kept u st known, f)
  ]
]

module _ (st : UserStore) (u : ℕ) (t : String) (amount : Decimal) (d : Demand)
    (c : Covers st d) where
  -- A deposit of an asset that is neither "a" nor "b" raises, and the store that it leaves holds
  -- the same users, with a new user of that address where there was none; it covers the same
  -- demand and has the same sums of the users' totals and the same totals of each user.
  pub deposit_other_asset :
      ((deposit u (Asset.other t) amount st).0 ≡ err invalid_asset)
      × Covers (deposit u (Asset.other t) amount st).1 d
      × ((y : Asset) → supply (deposit u (Asset.other t) amount st).1 y ≡ supply st y)
      × (totals (deposit u (Asset.other t) amount st).1 ≡ totals st)
      × ((v : ℕ)
          → lookup v (deposit u (Asset.other t) amount st).1
            ≡ (if v == u then some (user_or_new u (lookup u st)) else lookup v st))
  unfolding deposit
  deposit_other_asset =
      let (us, known) = lookup-get_or_create u st in
      let m = User.deposit amount in
      (
        raises us known,
        on_user-Covers (with_user u st) u (Asset.other t) m known d d
            (λ v y e. absurd (concerns_other u v y t e)) (λ v y f. omega arith)
            (with_user-Covers st u d c),
        λ y.
            supply-on_user (with_user u st) u (Asset.other t) m known y
            ∙ rw (asset_eqb_other y t) (supply-get_or_create u st y),
        λ i v y. totals_kept us known v y i,
        λ v. users_kept us known v,
      )
    where
      raises :
          (us : User)
          → lookup u (with_user u st) ≡ some us
          → (on_user u (User.on_balance (Asset.other t) (User.deposit amount)) (with_user u st)).0
            ≡ err invalid_asset
      raises us known = rw (on_user, known)

      totals_kept :
          (us : User)
          → lookup u (with_user u st) ≡ some us
          → (v : ℕ) (y : Asset)
          → totals
              (on_user u (User.on_balance (Asset.other t) (User.deposit amount)) (with_user u st)).1
              v
              y
            ≡ totals st v y
      totals_kept us known v y =
          ap User.total
            (holding-on_user (with_user u st) u (Asset.other t) (User.deposit amount) known v y)
          ∙ elim (Bool-cases (concerns u (Asset.other t) v y)) [
            | inl e ↦ absurd (concerns_other u v y t e)
            | inr f ↦ rw f (ap User.total (holding-get_or_create u st v y))
          ]

      users_kept :
          (us : User)
          → lookup u (with_user u st) ≡ some us
          → (v : ℕ)
          → lookup v
              (on_user u (User.on_balance (Asset.other t) (User.deposit amount)) (with_user u st)).1
            ≡ (if v == u then some (user_or_new u (lookup u st)) else lookup v st)
      users_kept us known v =
          rw (on_user, known)
            (lookup-insert v u us (with_user u st) ∙ elim (Bool-cases (v == u)) [
              | inl e ↦
                  let same : some us ≡ some (user_or_new u (lookup u st)) =
                    sym known ∙ rw (eq→== u u refl) at (lookup-with_user u st u) in
                  rw e same
              | inr f ↦
                  let same : lookup v (with_user u st) ≡ lookup v st =
                    rw f at (lookup-with_user u st v) in
                  rw f same
            ])
