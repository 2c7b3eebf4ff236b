-- ===== src/Contract/Returns.antt =====
-- When the parts of a call return, in terms of the balances that are read.
use lumendark.Common.{
  ℕ, suc, ◌≡◌, ◌≤◌, refl, sym, ap, ◌∙◌, true, [], ◌∷◌, ◌++◌, ℤ, pos, ◌+ℤ◌, ◌-ℤ◌, ◌≤ℤ◌, ◌&&◌, ◌==◌,
  if◌then◌else◌, int_laws, Bool-cases, inl, inr, ==→eq,
}
use lumendark.Blockchain.Transaction.{ContractAsset}
use lumendark.Contract.{
  World, Chain, Event, Signers, same_asset, i128_max, u64_max, get_asset_address, get_user_balance,
  set_user_balance, increase_balance, decrease_balance, increment_nonce, validate_nonce, on_storage,
  emit, require, require_admin,
}
use lumendark.Contract.Parts.{Returns}
use lumendark.Contract.Balances.{
  get-set_user_balance, same_asset_eq, both_of, address-set_user_balance, address_nonce,
}
use lumendark.Contract.Changes.{
  increase_balance-Fits, decrease_balance-Fits, increment_nonce-Fits, validate_nonce_same,
}

-- The balances that the contract reads.
abbrev pub Readings : Type 0
Readings = ℕ → ContractAsset → ℤ

abbrev pub moved : ℕ → ContractAsset → ℤ → Readings → Readings
moved u x n l v y = if same_asset x y && v == u then l v y +ℤ n else l v y

module _ {T : Type 0} (chain : Chain T) where
  -- A state with given balances and nonce, and the rest of the storage and the tokens as they were.
  pub record At (w0 : World T) (l : Readings) (nonce : ℕ) (w : World T) : Type 0 where
    pub reads : (v : ℕ) (y : ContractAsset) → get_user_balance v y w.storage ≡ l v y
    pub nonce_is : w.storage.nonce ≡ nonce
    pub admin_kept : w.storage.admin ≡ w0.storage.admin
    pub address_kept :
        (y : ContractAsset) → get_asset_address y w.storage ≡ get_asset_address y w0.storage
    pub tokens_kept : w.tokens ≡ w0.tokens

  module _ (w0 w : World T) (l : Readings) (nonce : ℕ) (h : At w0 l nonce w) (u : ℕ)
      (x : ContractAsset) (n : ℤ) where
    written :
        (m k : ℤ)
        → m ≡ l u x +ℤ k
        → At w0 (moved u x k l) nonce (record w { storage = set_user_balance u x m w.storage })
    written m k e = record {
      reads = λ v y.
          get-set_user_balance u x m w.storage v y ∙ elim (Bool-cases (same_asset x y && v == u)) [
            | inl t ↦ rw t (e ∙ ap (λ (b : ℤ). b +ℤ k) (here v y t))
            | inr f ↦ rw f (h.reads v y)
          ];
      nonce_is = unfold set_user_balance in h.nonce_is;
      admin_kept = unfold set_user_balance in h.admin_kept;
      address_kept = λ y. address-set_user_balance u x m w.storage y ∙ h.address_kept y;
      tokens_kept = h.tokens_kept;
    }
      where
        here : (v : ℕ) (y : ContractAsset) → same_asset x y && v == u ≡ true → l u x ≡ l v y
        here v y t =
            let b = both_of (same_asset x y) (v == u) t in
            ap (λ (a : ContractAsset). l u a) (same_asset_eq x y b.0)
            ∙ ap (λ (i : ℕ). l i y) (sym (==→eq v u b.1))

    pub increase_balance-Returns :
        pos 0 ≤ℤ l u x +ℤ n
        → l u x +ℤ n ≤ℤ i128_max
        → Returns (on_storage chain (increase_balance u x n)) w (At w0 (moved u x n l) nonce)
    increase_balance-Returns low high =
        let e = h.reads u x in
        record {
          after = record w {
            storage = set_user_balance u x (get_user_balance u x w.storage +ℤ n) w.storage;
          };
          returns =
              rw (increase_balance-Fits u x n w.storage (rw e (omega (int_laws, low), high))) refl;
          holds = written (get_user_balance u x w.storage +ℤ n) n (ap (λ (b : ℤ). b +ℤ n) e);
        }

    pub decrease_balance-Returns :
        n ≤ℤ l u x
        → l u x -ℤ n ≤ℤ i128_max
        → Returns
            (on_storage chain (decrease_balance u x n))
            w
            (At w0 (moved u x (pos 0 -ℤ n) l) nonce)
    decrease_balance-Returns enough high =
        let e = h.reads u x in
        record {
          after = record w {
            storage = set_user_balance u x (get_user_balance u x w.storage -ℤ n) w.storage;
          };
          returns =
              rw
                (decrease_balance-Fits u x n w.storage (rw e enough)
                  (rw e (omega (int_laws, enough), high)))
                refl;
          holds =
              written (get_user_balance u x w.storage -ℤ n) (pos 0 -ℤ n)
                (ap (λ (b : ℤ). b -ℤ n) e ∙ omega int_laws);
        }

  module _ (w0 w : World T) (l : Readings) (nonce : ℕ) (h : At w0 l nonce w) where
    pub validate_nonce-Returns :
        (given : ℕ)
        → given ≡ nonce
        → Returns (on_storage chain (validate_nonce given)) w (At w0 l nonce)
    validate_nonce-Returns given e = record {
      after = w;
      returns = rw (validate_nonce_same w.storage given (e ∙ sym h.nonce_is)) refl;
      holds = h;
    }

    pub increment_nonce-Returns :
        suc nonce ≤ u64_max → Returns (on_storage chain increment_nonce) w (At w0 l (suc nonce))
    increment_nonce-Returns fits = record {
      after = record w { storage = record w.storage { nonce = suc w.storage.nonce } };
      returns = rw (increment_nonce-Fits w.storage (rw h.nonce_is fits)) refl;
      holds = record {
        reads = h.reads;
        nonce_is = ap suc h.nonce_is;
        admin_kept = h.admin_kept;
        address_kept = λ y. address_nonce (suc w.storage.nonce) w.storage y ∙ h.address_kept y;
        tokens_kept = h.tokens_kept;
      };
    }

    pub emit-Returns : (e : Event) → Returns (emit chain e) w (At w0 l nonce)
    emit-Returns e = record {
      after = record w { events = w.events ++ e ∷ [] };
      returns = refl;
      holds = record {
        reads = h.reads;
        nonce_is = h.nonce_is;
        admin_kept = h.admin_kept;
        address_kept = h.address_kept;
        tokens_kept = h.tokens_kept;
      };
    }

    pub require_admin-Returns :
        (signers : Signers)
        → signers w0.storage.admin ≡ true
        → Returns (require_admin chain signers) w (At w0 l nonce)
    unfolding require
    require_admin-Returns signers e = record {
      after = w;
      returns = rw (h.admin_kept, e) refl;
      holds = h;
    }
