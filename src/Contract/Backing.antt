-- ===== src/Contract/Backing.antt =====
-- What the contract holds of each token, beside the users' balances: what the parts of a call on the
-- storage change.
use lumendark.Common.{
  ℕ, suc, ◌≡◌, ◌≢◌, sym, subst, none, some, [], ◌∷◌, ◌++◌, ℤ, pos, ◌+ℤ◌, ◌-ℤ◌, ◌≤ℤ◌, ◌==◌,
  if◌then◌else◌, int_laws, Bool-cases, Option-cases, inl, inr,
}
use lumendark.Blockchain.Transaction.{ContractAsset}
use lumendark.Contract.{
  Storage, i128_max, World, Chain, Part, Event, same_asset, get_asset_address, get_user_balance,
  set_user_balance, increase_balance, decrease_balance, increment_nonce, validate_nonce, on_storage,
  emit,
}
use lumendark.Contract.Parts.{Ensures}
use lumendark.Contract.Balances.{
  IsStorage, balance_sum, balance_sum-set_user_balance, set_user_balance-IsStorage,
  address-set_user_balance, address_nonce, get_user_balance-InRange,
}
use lumendark.Contract.Changes.{
  increase_balance-some, decrease_balance-some, increment_nonce-some, validate_nonce-some,
}

-- Amounts of the two assets, and one of them changed.
abbrev pub Amounts : Type 0
Amounts = ContractAsset → ℤ

abbrev pub no_amounts : Amounts
no_amounts _ = pos 0

abbrev pub shift : ContractAsset → ℤ → Amounts → Amounts
shift x n d y = if same_asset x y then d y +ℤ n else d y

abbrev pub minus : ℤ → ℤ
minus n = pos 0 -ℤ n

module _ {T : Type 0} (chain : Chain T) (held : ℕ → ℕ → T → ℤ) where
  -- A transfer that returns moves the amount within that token, from the one address to the other.
  abbrev pub Moves : Type 0
  Moves =
      (token from to : ℕ) (n : ℤ) (t t' : T)
      → chain.transfer token from to n t ≡ some t'
      → (other address : ℕ)
      → held other address t' ≡ (
          if other == token
          then held other address t
            -ℤ (if address == from then n else pos 0)
            +ℤ (if address == to then n else pos 0)
          else held other address t)

  -- The balances and `d` are at most what the contract holds.
  pub record Owes (d : Amounts) (w : World T) : Type 0 where
    pub storage : IsStorage w.storage
    pub two_tokens : w.storage.asset_a ≢ w.storage.asset_b
    pub backed :
        (y : ContractAsset)
        → balance_sum y w.storage +ℤ d y
          ≤ℤ held (get_asset_address y w.storage) chain.contract_address w.tokens

  pub Owes-le :
      {d d' : Amounts} {w : World T} → ((y : ContractAsset) → d' y ≤ℤ d y) → Owes d w → Owes d' w
  Owes-le le h = record {
    storage = h.storage;
    two_tokens = h.two_tokens;
    backed = λ y. omega (int_laws, le y, h.backed y);
  }

  -- A part on the storage, for each state of the rest.
  pub Ensures-on_storage :
      (P Q : World T → Type 0) (f : Part Storage)
      → ((w : World T)
          → Ensures (λ st. P (record w { storage = st })) f (λ st. Q (record w { storage = st })))
      → Ensures P (on_storage chain f) Q
  Ensures-on_storage P Q f h w w' p e = elim (Option-cases (f w.storage)) [
    | inl panics ↦ let q : none ≡ some w' = rw panics at e in absurd (cc q)
    | inr (st, returns) ↦
        let q : some (record w { storage = st }) ≡ some w' = rw returns at e in
        let q' : record w { storage = st } ≡ w' = cc q in subst Q q' (h w w.storage st p returns)
  ]

  module _ (user : ℕ) (x : ContractAsset) (n : ℤ) (positive : pos 1 ≤ℤ n) (d : Amounts) where
    -- A balance that is written, by what it changes.
    written :
        (m k : ℤ) (w : World T)
        → Owes d w
        → pos 0 ≤ℤ m
        → m ≤ℤ i128_max
        → m +ℤ k ≡ get_user_balance user x w.storage
        → Owes (shift x k d) (record w { storage = set_user_balance user x m w.storage })
    written m k w h low high e = record {
      storage = set_user_balance-IsStorage user x m h.storage low high;
      two_tokens = unfold set_user_balance in h.two_tokens;
      backed = λ y.
          rw
            (
              balance_sum-set_user_balance user x m w.storage y,
              address-set_user_balance user x m w.storage y,
              ← e,
            )
            (elim (Bool-cases (same_asset x y)) [
              | inl same ↦ rw same (omega (int_laws, h.backed y))
              | inr other ↦ rw other (omega (int_laws, h.backed y))
            ]);
    }

    pub increase_balance-Owes :
        Ensures (Owes d) (on_storage chain (increase_balance user x n)) (Owes (shift x (minus n) d))
    increase_balance-Owes = Ensures-on_storage _ _ (increase_balance user x n) λ w st st' h e.
        let v = record w { storage = st } in
        let c = increase_balance-some user x n st e in
        let r = get_user_balance-InRange user x h.storage in
        subst (λ (s : Storage). Owes (shift x (minus n) d) (record w { storage = s })) (sym c.1)
          (written (get_user_balance user x st +ℤ n) (minus n) v h (omega (int_laws, positive, r.0))
            c.0.1 (omega int_laws))

    pub decrease_balance-Owes :
        Ensures (Owes d) (on_storage chain (decrease_balance user x n)) (Owes (shift x n d))
    decrease_balance-Owes = Ensures-on_storage _ _ (decrease_balance user x n) λ w st st' h e.
        let v = record w { storage = st } in
        let c = decrease_balance-some user x n st e in
        let r = get_user_balance-InRange user x h.storage in
        subst (λ (s : Storage). Owes (shift x n d) (record w { storage = s })) (sym c.1)
          (written (get_user_balance user x st -ℤ n) n v h (omega (int_laws, c.0))
            (omega (int_laws, positive, r.1)) (omega int_laws))

  pub validate_nonce-Owes :
      (nonce : ℕ) (d : Amounts)
      → Ensures (Owes d) (on_storage chain (validate_nonce nonce)) (Owes d)
  validate_nonce-Owes nonce d = Ensures-on_storage _ _ (validate_nonce nonce) λ w st st' h e.
      subst (λ (s : Storage). Owes d (record w { storage = s }))
        (sym (validate_nonce-some st nonce e).1) h

  pub increment_nonce-Owes :
      (d : Amounts) → Ensures (Owes d) (on_storage chain increment_nonce) (Owes d)
  increment_nonce-Owes d = Ensures-on_storage _ _ increment_nonce λ w st st' h e.
      let c = increment_nonce-some st e in
      subst (λ (s : Storage). Owes d (record w { storage = s })) (sym c.1)
        (record {
          storage = record { balances = h.storage.balances; nonce = c.0 };
          two_tokens = h.two_tokens;
          backed = λ y. rw (address_nonce (suc st.nonce) st y) (h.backed y);
        })

  pub emit-Owes : (e : Event) (d : Amounts) → Ensures (Owes d) (emit chain e) (Owes d)
  emit-Owes e d w w' h returns =
      let q : record w { events = w.events ++ e ∷ [] } ≡ w' = cc returns in
      subst (Owes d) q
        (record { storage = h.storage; two_tokens = h.two_tokens; backed = h.backed })
