-- ===== src/Contract/Ledger.antt =====
-- The contract's balances as the backend names them, and what one change of them is there.
use lumendark.Common.{
  ℕ, ◌≡◌, refl, true, false, ℤ, pos, ◌+ℤ◌, ◌-ℤ◌, ◌≤ℤ◌, ◌==◌, if◌then◌else◌, int_laws, Bool-cases,
  inl, inr,
}
use lumendark.Models.Order.{Asset}
use lumendark.Storage.UserStore.Cover.{Demand, bump}
use lumendark.Blockchain.Transaction.{ContractAsset, A, B}
use lumendark.Blockchain.Decoding.RoundTrip.{asset_of}
use lumendark.Contract.{Storage, i128_max, get_user_balance}
use lumendark.Contract.Returns.{Readings, moved}

-- The balances as the backend names them.
abbrev pub as_demand : Readings → Demand
as_demand l v Asset.a = l v A
as_demand l v Asset.b = l v B
as_demand l v (Asset.other t) = pos 0

abbrev pub ledger : Storage → Demand
ledger st = as_demand (λ v y. get_user_balance v y st)

pub as_demand-moved :
    (u : ℕ) (x : ContractAsset) (n : ℤ) (l : Readings) (v : ℕ) (y : Asset)
    → as_demand (moved u x n l) v y ≡ as_demand l v y +ℤ bump u (asset_of x) n v y
as_demand-moved u x n l v y = elim (Bool-cases (v == u)) [
  | inl t ↦ concerned x y t
  | inr f ↦ unconcerned x y f
]
  where
    concerned :
        (x : ContractAsset) (y : Asset)
        → v == u ≡ true
        → as_demand (moved u x n l) v y ≡ as_demand l v y +ℤ bump u (asset_of x) n v y
    concerned A Asset.a t = rw t refl
    concerned A Asset.b t = rw t (omega int_laws)
    concerned A (Asset.other s) t = rw t (omega int_laws)
    concerned B Asset.a t = rw t (omega int_laws)
    concerned B Asset.b t = rw t refl
    concerned B (Asset.other s) t = rw t (omega int_laws)

    unconcerned :
        (x : ContractAsset) (y : Asset)
        → v == u ≡ false
        → as_demand (moved u x n l) v y ≡ as_demand l v y +ℤ bump u (asset_of x) n v y
    unconcerned A Asset.a f = rw f (omega int_laws)
    unconcerned A Asset.b f = rw f (omega int_laws)
    unconcerned A (Asset.other s) f = rw f (omega int_laws)
    unconcerned B Asset.a f = rw f (omega int_laws)
    unconcerned B Asset.b f = rw f (omega int_laws)
    unconcerned B (Asset.other s) f = rw f (omega int_laws)

-- The buyer's balances in a settlement, also where the buyer is the seller.
pub received :
    (buyer seller : ℕ) (n l : ℤ)
    → (pos 0 ≤ℤ l) × (l ≤ℤ i128_max)
    → l +ℤ n ≤ℤ i128_max
    → (pos 1 ≤ℤ n)
    → (pos 0 ≤ℤ (if buyer == seller then l +ℤ (pos 0 -ℤ n) else l) +ℤ n)
      × ((if buyer == seller then l +ℤ (pos 0 -ℤ n) else l) +ℤ n ≤ℤ i128_max)
received buyer seller n l range room positive = elim (Bool-cases (buyer == seller)) [
  | inl t ↦ rw t (omega (int_laws, range), omega (int_laws, range))
  | inr f ↦ rw f (omega (int_laws, range, positive), room)
]

pub spent :
    (buyer seller : ℕ) (n l : ℤ)
    → (pos 0 ≤ℤ l) × (l ≤ℤ i128_max)
    → pos 1 ≤ℤ n
    → n ≤ℤ l
    → (n ≤ℤ (if buyer == seller then l +ℤ n else l))
      × ((if buyer == seller then l +ℤ n else l) -ℤ n ≤ℤ i128_max)
spent buyer seller n l range positive enough = elim (Bool-cases (buyer == seller)) [
  | inl t ↦ rw t (omega (int_laws, range), omega (int_laws, range))
  | inr f ↦ rw f (enough, omega (int_laws, range, positive))
]
