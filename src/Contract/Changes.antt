-- ===== src/Contract/Changes.antt =====
-- What the parts of a call do to the storage where they return, and when they return.
use lumendark.Common.{
  ℕ, suc, ◌≡◌, ◌≤◌, refl, true, false, none, some, arith, ℤ, ◌+ℤ◌, ◌-ℤ◌, ◌≤ℤ◌, ltb_ℤ, leb_ℤ, leb,
  ◌&&◌, ◌==◌, ◌⊎◌, Bool-cases, inl, inr, ==→eq, eq→==,
}
use lumendark.Blockchain.Transaction.{ContractAsset}
use lumendark.Contract.{
  Storage, i128_max, i128_min, u64_max, get_user_balance, set_user_balance, checked_i128,
  checked_u64, increase_balance, decrease_balance, increment_nonce, require, validate_nonce,
}

abbrev pub Fits : ℤ → Type 0
Fits n = (i128_min ≤ℤ n) × (n ≤ℤ i128_max)

checked_i128-Fits : (n : ℤ) → Fits n → checked_i128 n ≡ some n
unfolding checked_i128
checked_i128-Fits n h = ground arith

checked_i128_cases : (n : ℤ) → (checked_i128 n ≡ none) ⊎ (Fits n × (checked_i128 n ≡ some n))
unfolding checked_i128
checked_i128_cases n = elim (Bool-cases (leb_ℤ i128_min n && leb_ℤ n i128_max)) [
  | inl t ↦ rw t (inr (ground arith, refl))
  | inr f ↦ rw f (inl refl)
]

module _ (user : ℕ) (asset : ContractAsset) (amount : ℤ) (st : Storage) where
  abbrev pub increased : ℤ
  increased = get_user_balance user asset st +ℤ amount

  abbrev pub decreased : ℤ
  decreased = get_user_balance user asset st -ℤ amount

  pub increase_balance-Fits :
      Fits increased
      → increase_balance user asset amount st ≡ some (set_user_balance user asset increased st)
  unfolding increase_balance
  increase_balance-Fits h = rw (checked_i128-Fits increased h)

  pub increase_balance-some :
      {st' : Storage}
      → increase_balance user asset amount st ≡ some st'
      → Fits increased × (st' ≡ set_user_balance user asset increased st)
  unfolding increase_balance
  increase_balance-some {st'} e = elim (checked_i128_cases increased) [
    | inl overflow ↦ let q : none ≡ some st' = rw overflow at e in absurd (cc q)
    | inr (fits, same) ↦
        let q : some (set_user_balance user asset increased st) ≡ some st' = rw same at e in
        (fits, cc q)
  ]

  pub decrease_balance-Fits :
      amount ≤ℤ get_user_balance user asset st
      → Fits decreased
      → decrease_balance user asset amount st ≡ some (set_user_balance user asset decreased st)
  unfolding decrease_balance
  decrease_balance-Fits enough h =
      let e : ltb_ℤ (get_user_balance user asset st) amount ≡ false = ground arith in
      rw (e, checked_i128-Fits decreased h)

  pub decrease_balance-some :
      {st' : Storage}
      → decrease_balance user asset amount st ≡ some st'
      → (amount ≤ℤ get_user_balance user asset st)
        × (st' ≡ set_user_balance user asset decreased st)
  unfolding decrease_balance
  decrease_balance-some {st'} e =
      elim (Bool-cases (ltb_ℤ (get_user_balance user asset st) amount)) [
        | inl less ↦ let q : none ≡ some st' = rw less at e in absurd (cc q)
        | inr enough ↦ elim (checked_i128_cases decreased) [
          | inl overflow ↦ let q : none ≡ some st' = rw (enough, overflow) at e in absurd (cc q)
          | inr (fits, same) ↦
              let q : some (set_user_balance user asset decreased st) ≡ some st' =
                rw (enough, same) at e in
              (ground arith, cc q)
        ]
      ]

module _ (st : Storage) where
  pub validate_nonce-some :
      (nonce : ℕ) {st' : Storage}
      → validate_nonce nonce st ≡ some st'
      → (nonce ≡ st.nonce) × (st' ≡ st)
  unfolding require
  validate_nonce-some nonce {st'} e = elim (Bool-cases (nonce == st.nonce)) [
    | inl t ↦ let q : some st ≡ some st' = rw t at e in (==→eq nonce st.nonce t, cc q)
    | inr f ↦ let q : none ≡ some st' = rw f at e in absurd (cc q)
  ]

  pub validate_nonce_same : (nonce : ℕ) → nonce ≡ st.nonce → validate_nonce nonce st ≡ some st
  unfolding require
  validate_nonce_same nonce e = rw (eq→== nonce st.nonce e)

  pub increment_nonce-some :
      {st' : Storage}
      → increment_nonce st ≡ some st'
      → (suc st.nonce ≤ u64_max) × (st' ≡ record st { nonce = suc st.nonce })
  unfolding increment_nonce checked_u64
  increment_nonce-some {st'} e = elim (Bool-cases (leb (suc st.nonce) u64_max)) [
    | inl t ↦
        let q : some (record st { nonce = suc st.nonce }) ≡ some st' = rw t at e in
        (ground arith, cc q)
    | inr f ↦ let q : none ≡ some st' = rw f at e in absurd (cc q)
  ]

  pub increment_nonce-Fits :
      suc st.nonce ≤ u64_max → increment_nonce st ≡ some (record st { nonce = suc st.nonce })
  unfolding increment_nonce checked_u64
  increment_nonce-Fits h = let e : leb (suc st.nonce) u64_max ≡ true = ground arith in rw e
