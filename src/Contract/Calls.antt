-- ===== src/Contract/Calls.antt =====
-- Whole calls, and any sequence of calls, on a contract that holds what it owes.
use lumendark.Common.{
  ℕ, ◌≡◌, ◌≢◌, ◌≤◌, refl, ap, subst, true, false, none, some, List, [], ◌∷◌, arith, ℤ, pos, ◌+ℤ◌,
  ◌≤ℤ◌, ltb_ℤ, ◌&&◌, int_laws, Bool-cases, Option-cases, inl, inr, ⊤,
}
use lumendark.Common.Dict.Sum.{sum}
use lumendark.Blockchain.Transaction.{ContractAsset, A, B, ContractCall}
use lumendark.Contract.{
  World, Chain, Part, Signers, Invocation, fund, act, i128_max, u64_max, same_asset,
  get_asset_address, get_user_balance, constructor_storage, deployed, require, require_admin,
  deposit, withdraw, settle, invoke, committed, transact,
}
use lumendark.Contract.Parts.{Ensures, Ensures-then, Ensures-require}
use lumendark.Contract.Balances.{both_of, balance_sum, get_user_balance-InRange}
use lumendark.Contract.Backing.{
  Amounts, no_amounts, shift, minus, Moves, Owes, Owes-le, increase_balance-Owes,
  decrease_balance-Owes, validate_nonce-Owes, increment_nonce-Owes, emit-Owes,
}
use lumendark.Contract.Transfers.{transfer_in-Owes, transfer_out-Owes}

-- What comes in and goes out again.
shift_back :
    (x : ContractAsset) (n : ℤ) (y : ContractAsset)
    → no_amounts y ≤ℤ shift x (minus n) (shift x n no_amounts) y
shift_back x n y = elim (Bool-cases (same_asset x y)) [
  | inl same ↦ rw same (omega int_laws)
  | inr other ↦ rw other (omega arith)
]

shifts_settled :
    (x z : ContractAsset) (n m : ℤ) (y : ContractAsset)
    → no_amounts y ≤ℤ shift z m (shift x (minus n) (shift z (minus m) (shift x n no_amounts))) y
shifts_settled x z n m y = elim (Bool-cases (same_asset x y)) [
  | inl same ↦ elim (Bool-cases (same_asset z y)) [
    | inl also ↦ rw (same, also) (omega int_laws)
    | inr other ↦ rw (same, other) (omega int_laws)
  ]
  | inr other ↦ elim (Bool-cases (same_asset z y)) [
    | inl same ↦ rw (other, same) (omega int_laws)
    | inr also ↦ rw (other, also) (omega arith)
  ]
]

positive_of : (n : ℤ) → ltb_ℤ (pos 0) n ≡ true → pos 1 ≤ℤ n
positive_of n e = ground arith

module _ {T : Type 0} (chain : Chain T) (held : ℕ → ℕ → T → ℤ) (moves : Moves chain held)
    (signers : Signers) where
  abbrev Safe : Part (World T) → Type 0
  Safe f = Ensures (Owes chain held no_amounts) f (Owes chain held no_amounts)

  deposit-Owes :
      (user : ℕ) (x : ContractAsset) (n : ℤ)
      → signers chain.contract_address ≡ false
      → Safe (deposit chain signers user x n)
  unfolding deposit
  deposit-Owes user x n unsigned = Ensures-require (signers user) _ λ signed.
      Ensures-require (ltb_ℤ (pos 0) n) _ λ positive.
        Ensures-then _ _
          (transfer_in-Owes chain held moves x user chain.contract_address n
            (positive_of n positive) no_amounts refl (λ e. cc (ap signers e, signed, unsigned)))
          (Ensures-then _ _ (increase_balance-Owes chain held user x n (positive_of n positive) _)
            (λ w w' h e. Owes-le chain held (shift_back x n) (emit-Owes chain held _ _ w w' h e)))

  require_admin-Owes :
      (d : Amounts) → Ensures (Owes chain held d) (require_admin chain signers) (Owes chain held d)
  unfolding require
  require_admin-Owes d w w' h e = elim (Bool-cases (signers w.storage.admin)) [
    | inl t ↦ let q : some w ≡ some w' = rw t at e in subst (Owes chain held d) (cc q) h
    | inr f ↦ let q : none ≡ some w' = rw f at e in absurd (cc q)
  ]

  withdraw-Owes :
      (nonce user : ℕ) (x : ContractAsset) (n : ℤ) → Safe (withdraw chain signers nonce user x n)
  unfolding withdraw
  withdraw-Owes nonce user x n = Ensures-then _ _ (require_admin-Owes _) (
      Ensures-require (ltb_ℤ (pos 0) n) _ λ positive.
        Ensures-then _ _ (validate_nonce-Owes chain held nonce _) (
          Ensures-then _ _ (decrease_balance-Owes chain held user x n (positive_of n positive) _) (
            Ensures-then _ _
              (transfer_out-Owes chain held moves x chain.contract_address user n
                (positive_of n positive) _ refl)
              (Ensures-then _ _ (increment_nonce-Owes chain held _) (λ w w' h e.
                Owes-le chain held (shift_back x n) (emit-Owes chain held _ _ w w' h e))))))

  settle-Owes :
      (nonce buyer seller : ℕ) (x : ContractAsset) (n : ℤ) (z : ContractAsset) (m : ℤ)
      → Safe (settle chain signers nonce buyer seller x n z m)
  unfolding settle
  settle-Owes nonce buyer seller x n z m = Ensures-then _ _ (require_admin-Owes _) (
      Ensures-require (ltb_ℤ (pos 0) n && ltb_ℤ (pos 0) m) _ λ both.
        let p = positive_of n (both_of _ _ both).0 in
        let q = positive_of m (both_of _ _ both).1 in
        Ensures-then _ _ (validate_nonce-Owes chain held nonce _) (
          Ensures-then _ _ (decrease_balance-Owes chain held seller x n p _) (
            Ensures-then _ _ (increase_balance-Owes chain held seller z m q _) (
              Ensures-then _ _ (increase_balance-Owes chain held buyer x n p _) (
                Ensures-then _ _ (decrease_balance-Owes chain held buyer z m q _) (
                  Ensures-then _ _ (increment_nonce-Owes chain held _) (λ w w' h e.
                    Owes-le chain held (shifts_settled x z n m)
                      (emit-Owes chain held _ _ w w' h e))))))))

  pub invoke-Owes :
      (call : Invocation)
      → signers chain.contract_address ≡ false
      → Safe (invoke chain signers call)
  invoke-Owes (fund user x n) unsigned = deposit-Owes user x n unsigned
  invoke-Owes (act (ContractCall.withdraw nonce user x n)) unsigned = withdraw-Owes nonce user x n
  invoke-Owes (act (ContractCall.settle nonce buyer seller x n z m)) unsigned =
      settle-Owes nonce buyer seller x n z m

-- The contract signs none of the calls.
abbrev pub Unsigned : ℕ → List (Signers × Invocation) → Type 0
Unsigned address [] = ⊤
Unsigned address ((signers, call) ∷ calls) = (signers address ≡ false) × Unsigned address calls

module _ {T : Type 0} (chain : Chain T) (held : ℕ → ℕ → T → ℤ) (moves : Moves chain held) where
  pub transact-Owes :
      (calls : List (Signers × Invocation)) (w : World T)
      → Unsigned chain.contract_address calls
      → Owes chain held no_amounts w
      → Owes chain held no_amounts (transact chain calls w)
  transact-Owes [] w u h = h
  transact-Owes ((signers, call) ∷ calls) w u h =
      transact-Owes calls (committed chain w (invoke chain signers call w)) u.1
        (elim (Option-cases (invoke chain signers call w)) [
          | inl panics ↦ rw panics h
          | inr (w', returns) ↦
              rw returns (invoke-Owes chain held moves signers call u.0 w w' h returns)
        ])

  backed_new :
      (admin asset_a asset_b : ℕ) (t : T)
      → pos 0 ≤ℤ held asset_a chain.contract_address t
      → pos 0 ≤ℤ held asset_b chain.contract_address t
      → (y : ContractAsset)
      → pos 0 +ℤ pos 0
        ≤ℤ held
            (get_asset_address y (constructor_storage admin asset_a asset_b))
            chain.contract_address
            t
  backed_new admin asset_a asset_b t hold_a hold_b A = omega (int_laws, hold_a)
  backed_new admin asset_a asset_b t hold_a hold_b B = omega (int_laws, hold_b)

  -- For a token whose transfers move what they say, two different tokens, and calls that the
  -- contract itself does not sign, any sequence of deposits, withdrawals and settlements, of
  -- which those that panic change nothing, on a new contract that holds nothing negative leaves
  -- every balance between 0 and the greatest i128 and the nonce a u64, and for each asset the sum
  -- of the balances is at most what the contract holds of its token.
  pub transact-backed :
      (calls : List (Signers × Invocation)) (admin asset_a asset_b : ℕ) (t : T)
      → Unsigned chain.contract_address calls
      → asset_a ≢ asset_b
      → pos 0 ≤ℤ held asset_a chain.contract_address t
      → pos 0 ≤ℤ held asset_b chain.contract_address t
      → (let w = transact chain calls (deployed admin asset_a asset_b t) in
          ((v : ℕ) (y : ContractAsset)
            → (pos 0 ≤ℤ get_user_balance v y w.storage)
              × (get_user_balance v y w.storage ≤ℤ i128_max))
          × (w.storage.nonce ≤ u64_max)
          × ((y : ContractAsset)
              → balance_sum y w.storage
                ≤ℤ held (get_asset_address y w.storage) chain.contract_address w.tokens))
  transact-backed calls admin asset_a asset_b t u apart hold_a hold_b =
      unfold sum in
      let h = transact-Owes calls (deployed admin asset_a asset_b t) u (record {
        storage = record { balances = λ y. tt; nonce = omega arith };
        two_tokens = apart;
        backed = backed_new admin asset_a asset_b t hold_a hold_b;
      }) in
      (
        λ v y. get_user_balance-InRange v y h.storage,
        h.storage.nonce,
        λ y. omega (int_laws, h.backed y),
      )
