-- ===== src/Contract/Funded.antt =====
-- What a deposit that returns does to the contract's balances.
use lumendark.Common.{
  ℕ, ◌≡◌, refl, sym, ap, ◌∙◌, none, some, [], ◌∷◌, ◌++◌, ℤ, pos, ◌+ℤ◌, ◌≤ℤ◌, ltb_ℤ, ◌&&◌, ◌==◌,
  ==→eq, Bool-cases, Option-cases, inl, inr, arith,
}
use lumendark.Models.Order.{Asset}
use lumendark.Storage.UserStore.Cover.{bump}
use lumendark.Blockchain.Transaction.{ContractAsset}
use lumendark.Blockchain.Decoding.RoundTrip.{asset_of}
use lumendark.Contract.{
  World, Chain, Storage, Signers, Event, same_asset, get_asset_address, get_user_balance,
  set_user_balance, increase_balance, on_storage, transfer_tokens, emit, deposit,
}
use lumendark.Contract.Parts.{Ensures, Ensures-then, Ensures-require}
use lumendark.Contract.Balances.{get-set_user_balance, same_asset_eq, both_of}
use lumendark.Contract.Changes.{increase_balance-some, increased}
use lumendark.Contract.Backing.{Ensures-on_storage}
use lumendark.Contract.Returns.{moved}
use lumendark.Contract.Ledger.{as_demand, ledger, as_demand-moved}

module _ {T : Type 0} (chain : Chain T) (held : ℕ → ℕ → T → ℤ) where
  -- A state with the given storage.
  abbrev Stored : Storage → World T → Type 0
  Stored st w = w.storage ≡ st

  transfer_tokens-Stored :
      (st : Storage) (x : ContractAsset) (from to : ℕ) (n : ℤ)
      → Ensures (Stored st) (transfer_tokens chain x from to n) (Stored st)
  transfer_tokens-Stored st x from to n w w' h e =
      elim (Option-cases (chain.transfer (get_asset_address x w.storage) from to n w.tokens)) [
        | inl panics ↦ let q : none ≡ some w' = rw panics at e in absurd (cc q)
        | inr (t, returns) ↦
            let q : some (record w { tokens = t }) ≡ some w' = rw returns at e in
            let q' : record w { tokens = t } ≡ w' = cc q in
            sym (ap (λ (v : World T). v.storage) q') ∙ h
      ]

  increase_balance-Stored :
      (st : Storage) (u : ℕ) (x : ContractAsset) (n : ℤ)
      → Ensures
          (Stored st)
          (on_storage chain (increase_balance u x n))
          (Stored (set_user_balance u x (increased u x n st) st))
  increase_balance-Stored st u x n =
      Ensures-on_storage chain held _ _ (increase_balance u x n) λ w st1 st2 h e.
        (increase_balance-some u x n st1 e).1
        ∙ ap (λ (s : Storage). set_user_balance u x (increased u x n s) s) h

  emit-Stored : (st : Storage) (event : Event) → Ensures (Stored st) (emit chain event) (Stored st)
  emit-Stored st event w w' h e =
      let q : record w { events = w.events ++ event ∷ [] } ≡ w' = cc e in
      sym (ap (λ (v : World T). v.storage) q) ∙ h

  module _ (signers : Signers) (u : ℕ) (x : ContractAsset) (n : ℤ) (w w' : World T)
      (returns : deposit chain signers u x n w ≡ some w') where
    abbrev Paid : World T → Type 0
    Paid v = (pos 1 ≤ℤ n) × (v.storage ≡ set_user_balance u x (increased u x n w.storage) w.storage)

    deposit-Stored : Paid w'
    unfolding deposit
    deposit-Stored =
        Ensures-require {P = Stored w.storage} {R = Paid} (signers u) _
          (λ signed. Ensures-require (ltb_ℤ (pos 0) n) _ λ positive.
            Ensures-then _ _ (transfer_tokens-Stored w.storage x u chain.contract_address n) (
              Ensures-then _ _ (increase_balance-Stored w.storage u x n)
                λ v v' h e. (ground arith, emit-Stored _ _ v v' h e)))
          w w' refl returns

    -- The amount is positive, the user's balance of the asset is more by it, and the nonce and the
    -- admin are kept.
    pub deposit-ledger :
        (pos 1 ≤ℤ n)
        × ((v : ℕ) (y : Asset)
            → ledger w'.storage v y ≡ ledger w.storage v y +ℤ bump u (asset_of x) n v y)
        × (w'.storage.nonce ≡ w.storage.nonce)
        × (w'.storage.admin ≡ w.storage.admin)
    deposit-ledger = (
      deposit-Stored.0,
      λ v y.
          ap (λ (s : Storage). ledger s v y) deposit-Stored.1
          ∙ reads v y
          ∙ as_demand-moved u x n (λ i z. get_user_balance i z w.storage) v y,
      ap (λ (s : Storage). s.nonce) deposit-Stored.1 ∙ (unfold set_user_balance in refl),
      ap (λ (s : Storage). s.admin) deposit-Stored.1 ∙ (unfold set_user_balance in refl),
    )
      where
        read :
            (v : ℕ) (y : ContractAsset)
            → get_user_balance v y (set_user_balance u x (increased u x n w.storage) w.storage)
              ≡ moved u x n (λ i z. get_user_balance i z w.storage) v y
        read v y =
            get-set_user_balance u x (increased u x n w.storage) w.storage v y
            ∙ elim (Bool-cases (same_asset x y && v == u)) [
              | inl t ↦
                  let b = both_of (same_asset x y) (v == u) t in
                  let same : get_user_balance u x w.storage ≡ get_user_balance v y w.storage =
                    ap (λ (z : ContractAsset). get_user_balance u z w.storage)
                      (same_asset_eq x y b.0)
                    ∙ ap (λ (i : ℕ). get_user_balance i y w.storage) (sym (==→eq v u b.1)) in
                  rw t (ap (λ (m : ℤ). m +ℤ n) same)
              | inr f ↦ rw f refl
            ]

        reads :
            (v : ℕ) (y : Asset)
            → ledger (set_user_balance u x (increased u x n w.storage) w.storage) v y
              ≡ as_demand (moved u x n (λ i z. get_user_balance i z w.storage)) v y
        reads v Asset.a = read v ContractAsset.A
        reads v Asset.b = read v ContractAsset.B
        reads v (Asset.other t) = refl
