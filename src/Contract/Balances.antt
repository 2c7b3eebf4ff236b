-- ===== src/Contract/Balances.antt =====
-- The balances in the contract's storage: reading after a write, their sum, and their range.
use lumendark.Common.{
  ℕ, ◌≡◌, refl, Bool, true, false, Option, none, some, [], ◌∷◌, arith, ℤ, pos, ◌+ℤ◌, ◌-ℤ◌, ◌≤ℤ◌,
  ◌≤◌, ◌&&◌, ◌==◌, if◌then◌else◌, int_laws, Bool-cases, Option-cases, inl, inr,
}
use lumendark.Common.Dict.{Dict, lookup, lookup-insert}
use lumendark.Common.Dict.Sum.{sum, at_key, sum-insert, All, All-lookup, All-insert}
use lumendark.Blockchain.Transaction.{ContractAsset, A, B}
use lumendark.Contract.{
  Storage, i128_max, u64_max, same_asset, unwrap_or_zero, get_asset_address, get_user_balance,
  set_user_balance,
}

abbrev pub balance_sum : ContractAsset → Storage → ℤ
balance_sum y st = sum (λ n. n) (st.balances y)

unwrap-at_key : (o : Option ℤ) → unwrap_or_zero o ≡ at_key (λ n. n) o
unwrap-at_key none = refl
unwrap-at_key (some n) = refl

pub same_asset_eq : (x y : ContractAsset) → same_asset x y ≡ true → x ≡ y
same_asset_eq A A e = refl
same_asset_eq B B e = refl
same_asset_eq A B e = absurd (cc e)
same_asset_eq B A e = absurd (cc e)

module _ (u : ℕ) (x : ContractAsset) (n : ℤ) (st : Storage) where
  pub get-set_user_balance :
      (v : ℕ) (y : ContractAsset)
      → get_user_balance v y (set_user_balance u x n st)
        ≡ (if same_asset x y && v == u then n else get_user_balance v y st)
  unfolding set_user_balance
  get-set_user_balance v y = elim (Bool-cases (same_asset x y)) [
    | inl same ↦
        rw (same, lookup-insert v u n (st.balances y))
          (elim (Bool-cases (v == u)) [ inl t ↦ rw t refl | inr f ↦ rw f refl ])
    | inr other ↦ rw other refl
  ]

  pub balance_sum-set_user_balance :
      (y : ContractAsset)
      → balance_sum y (set_user_balance u x n st) ≡ (
          if same_asset x y
          then balance_sum y st -ℤ get_user_balance u x st +ℤ n
          else balance_sum y st)
  unfolding set_user_balance
  balance_sum-set_user_balance y = elim (Bool-cases (same_asset x y)) [
    | inl same ↦
        rw (same, same_asset_eq x y same, unwrap-at_key (lookup u (st.balances y)))
          (sum-insert (λ m. m) u n (st.balances y))
    | inr other ↦ rw other refl
  ]

-- A write keeps the tokens' addresses.
pub address-set_user_balance :
    (user : ℕ) (x : ContractAsset) (m : ℤ) (st : Storage) (y : ContractAsset)
    → get_asset_address y (set_user_balance user x m st) ≡ get_asset_address y st
unfolding set_user_balance
address-set_user_balance user x m st A = refl
address-set_user_balance user x m st B = refl

pub address_nonce :
    (nonce : ℕ) (st : Storage) (y : ContractAsset)
    → get_asset_address y (record st { nonce = nonce }) ≡ get_asset_address y st
address_nonce nonce st A = refl
address_nonce nonce st B = refl

pub both_of : (a b : Bool) → a && b ≡ true → (a ≡ true) × (b ≡ true)
both_of true b e = (refl, e)
both_of false b e = absurd (cc e)

abbrev InRange : ℕ → ℤ → Type 0
InRange user n = (pos 0 ≤ℤ n) × (n ≤ℤ i128_max)

-- Balances between 0 and the greatest i128, and a nonce that fits a u64.
pub record IsStorage (st : Storage) : Type 0 where
  pub balances : (y : ContractAsset) → All InRange (st.balances y)
  pub nonce : st.nonce ≤ u64_max

-- A missing balance is in range too.
pub get_user_balance-InRange :
    {st : Storage} (v : ℕ) (y : ContractAsset)
    → IsStorage st
    → (pos 0 ≤ℤ get_user_balance v y st) × (get_user_balance v y st ≤ℤ i128_max)
get_user_balance-InRange {st} v y h = elim (Option-cases (lookup v (st.balances y))) [
  | inl missing ↦ rw missing (omega arith, omega arith)
  | inr (n, found) ↦ rw found (All-lookup InRange v n (st.balances y) (h.balances y) found)
]

pub set_user_balance-IsStorage :
    (u : ℕ) (x : ContractAsset) (n : ℤ) {st : Storage}
    → IsStorage st
    → pos 0 ≤ℤ n
    → n ≤ℤ i128_max
    → IsStorage (set_user_balance u x n st)
unfolding set_user_balance
set_user_balance-IsStorage u x n {st} h low high = record {
  balances = λ y. elim (Bool-cases (same_asset x y)) [
    | inl same ↦ rw same (All-insert InRange u n (st.balances y) (h.balances y) (low, high))
    | inr other ↦ rw other (h.balances y)
  ];
  nonce = h.nonce;
}

-- A balance is at most the sum of all.
sum_nonneg : (d : Dict ℤ) → All InRange d → pos 0 ≤ℤ sum (λ n. n) d
unfolding sum
sum_nonneg [] h = omega arith
sum_nonneg ((k, n) ∷ d) h = omega (int_laws, h.0, sum_nonneg d h.1)

balance_le_sum :
    (v : ℕ) (d : Dict ℤ) → All InRange d → unwrap_or_zero (lookup v d) ≤ℤ sum (λ n. n) d
unfolding sum
balance_le_sum v [] h = omega arith
balance_le_sum v ((k, n) ∷ d) h = elim (Bool-cases (v == k)) [
  | inl t ↦ rw t (omega (int_laws, sum_nonneg d h.1))
  | inr f ↦ rw f (omega (int_laws, h.0, balance_le_sum v d h.1))
]

pub get_user_balance-balance_sum :
    {st : Storage} (v : ℕ) (y : ContractAsset)
    → IsStorage st
    → get_user_balance v y st ≤ℤ balance_sum y st
get_user_balance-balance_sum {st} v y h = balance_le_sum v (st.balances y) (h.balances y)
