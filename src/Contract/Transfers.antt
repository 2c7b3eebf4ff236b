-- ===== src/Contract/Transfers.antt =====
-- What a transfer of a token changes of what the contract holds beside the users' balances.
use lumendark.Common.{
  ℕ, ◌≡◌, ◌≢◌, refl, sym, subst, false, none, some, ℤ, pos, ◌+ℤ◌, ◌-ℤ◌, ◌≤ℤ◌, ◌==◌, if◌then◌else◌,
  int_laws, Bool-cases, Option-cases, inl, inr, eq→==, ==→eq,
}
use lumendark.Blockchain.Transaction.{ContractAsset, A, B}
use lumendark.Contract.{Storage, Chain, same_asset, get_asset_address, transfer_tokens}
use lumendark.Contract.Parts.{Ensures}
use lumendark.Contract.Backing.{Amounts, shift, minus, Moves, Owes}

module _ {T : Type 0} (chain : Chain T) (held : ℕ → ℕ → T → ℤ) where
  -- Different assets have different tokens.
  address_apart :
      (st : Storage)
      → st.asset_a ≢ st.asset_b
      → (x y : ContractAsset) → get_asset_address y st == get_asset_address x st ≡ same_asset x y
  address_apart st apart A A = eq→== st.asset_a st.asset_a refl
  address_apart st apart B B = eq→== st.asset_b st.asset_b refl
  address_apart st apart A B = elim (Bool-cases (st.asset_b == st.asset_a)) [
    | inl t ↦ absurd (apart (sym (==→eq st.asset_b st.asset_a t)))
    | inr f ↦ f
  ]
  address_apart st apart B A = elim (Bool-cases (st.asset_a == st.asset_b)) [
    | inl t ↦ absurd (apart (==→eq st.asset_a st.asset_b t))
    | inr f ↦ f
  ]

  module _ (moves : Moves chain held) (x : ContractAsset) (from to : ℕ) (n : ℤ)
      (positive : pos 1 ≤ℤ n) (d : Amounts) where
    -- What the contract holds after a transfer that returned, where `change` says what it means
    -- for the token of `x`.
    transferred :
        (change : ℤ)
        → ((l : ℤ)
            → l +ℤ change
              ≤ℤ l
                -ℤ (if chain.contract_address == from then n else pos 0)
                +ℤ (if chain.contract_address == to then n else pos 0))
        → Ensures
            (Owes chain held d)
            (transfer_tokens chain x from to n)
            (Owes chain held (shift x change d))
    transferred change least w w' h e =
        elim (Option-cases (chain.transfer (get_asset_address x w.storage) from to n w.tokens)) [
          | inl panics ↦ let q : none ≡ some w' = rw panics at e in absurd (cc q)
          | inr (t, returns) ↦
              let q : some (record w { tokens = t }) ≡ some w' = rw returns at e in
              let q' : record w { tokens = t } ≡ w' = cc q in
              subst (Owes chain held (shift x change d)) q' (record {
                storage = h.storage;
                two_tokens = h.two_tokens;
                backed = λ y.
                    rw
                      (
                        moves (get_asset_address x w.storage) from to n w.tokens t returns
                            (get_asset_address y w.storage) chain.contract_address,
                        address_apart w.storage h.two_tokens x y,
                      )
                      (elim (Bool-cases (same_asset x y)) [
                        | inl same ↦ rw same (
                            omega (
                              int_laws,
                              h.backed y,
                              least (
                                  held (get_asset_address y w.storage) chain.contract_address
                                    w.tokens),
                            ))
                        | inr other ↦ rw other (h.backed y)
                      ]);
              })
        ]

    -- Into the contract, from another address, and out of it, to any.
    pub transfer_in-Owes :
        to ≡ chain.contract_address
        → from ≢ chain.contract_address
        → Ensures
            (Owes chain held d)
            (transfer_tokens chain x from to n)
            (Owes chain held (shift x n d))
    transfer_in-Owes here other = transferred n λ l.
        let there : chain.contract_address == from ≡ false = differs _ _ other in
        rw (there, eq→== chain.contract_address to (sym here)) (omega int_laws)
      where
        differs : (a b : ℕ) → a ≢ b → b == a ≡ false
        differs a b ne = elim (Bool-cases (b == a)) [
          | inl t ↦ absurd (ne (sym (==→eq b a t)))
          | inr f ↦ f
        ]

    pub transfer_out-Owes :
        from ≡ chain.contract_address
        → Ensures
            (Owes chain held d)
            (transfer_tokens chain x from to n)
            (Owes chain held (shift x (minus n) d))
    transfer_out-Owes here = transferred (minus n) λ l.
        rw (eq→== chain.contract_address from (sym here))
          (elim (Bool-cases (chain.contract_address == to)) [
            | inl t ↦ rw t (omega (int_laws, positive))
            | inr f ↦ rw f (omega (int_laws, positive))
          ])
