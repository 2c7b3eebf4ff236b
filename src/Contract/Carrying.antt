-- ===== src/Contract/Carrying.antt =====
-- The contract carries out the backend's actions: an action that Executor/MessageHandler/Chain allows
-- returns on the contract, and does to its balances what `effect` says.
use lumendark.Contract.Ledger.{as_demand, ledger, as_demand-moved, received, spent}
use lumendark.Common.{
  ℕ, suc, ◌≡◌, ◌≢◌, ◌≤◌, refl, ◌∙◌, true, none, arith, ℤ, pos, ◌+ℤ◌, ◌-ℤ◌, ◌≤ℤ◌, int_laws,
  Option-cases, inl, inr, ltb_ℤ,
}
use lumendark.Models.Order.{Asset}
use lumendark.Models.Message.{withdrawal, settlement}
use lumendark.Storage.UserStore.Cover.{Demand, bump}
use lumendark.Executor.MessageHandler.Chain.{Allowed, effect, bump_neg, ledger_eq}
use lumendark.Blockchain.Transaction.{ContractAsset, A, B}
use lumendark.Blockchain.Decoding.RoundTrip.{asset_of}
use lumendark.Contract.{
  World, Chain, Signers, i128_max, u64_max, get_asset_address, get_user_balance, transfer_tokens,
  withdraw, settle,
}
use lumendark.Contract.Parts.{Returns, Returns-then, Returns-require}
use lumendark.Contract.Balances.{get_user_balance-InRange, get_user_balance-balance_sum}
use lumendark.Contract.Backing.{no_amounts, Owes}
use lumendark.Contract.Returns.{
  Readings, moved, At, increase_balance-Returns, decrease_balance-Returns, validate_nonce-Returns,
  increment_nonce-Returns, emit-Returns, require_admin-Returns,
}

positive_test : (n : ℤ) → pos 1 ≤ℤ n → ltb_ℤ (pos 0) n ≡ true
positive_test n h = ground arith

module _ {T : Type 0} (chain : Chain T) (held : ℕ → ℕ → T → ℤ) where
  -- The token pays out what the contract holds of it.
  abbrev pub Pays : Type 0
  Pays =
      (token to : ℕ) (n : ℤ) (t : T)
      → pos 1 ≤ℤ n
      → n ≤ℤ held token chain.contract_address t
      → chain.transfer token chain.contract_address to n t ≢ none

  -- The state after an action: new balances, the next nonce, and the same admin.
  pub record Carried (w0 : World T) (l : Demand) (w : World T) : Type 0 where
    pub balances : ledger w.storage ≡ l
    pub nonce : w.storage.nonce ≡ suc w0.storage.nonce
    pub admin : w.storage.admin ≡ w0.storage.admin

  ledger-At :
      {w0 w : World T} {l : Readings} {nonce : ℕ}
      → At chain w0 l nonce w
      → (v : ℕ) (y : Asset) → ledger w.storage v y ≡ as_demand l v y
  ledger-At h v Asset.a = h.reads v A
  ledger-At h v Asset.b = h.reads v B
  ledger-At h v (Asset.other t) = refl

  module _ (w : World T) (signers : Signers) (h : Owes chain held no_amounts w)
      (signed : signers w.storage.admin ≡ true) (room : suc w.storage.nonce ≤ u64_max) where
    abbrev now : Readings
    now v y = get_user_balance v y w.storage

    At-start : At chain w now w.storage.nonce w
    At-start = record {
      reads = λ v y. refl;
      nonce_is = refl;
      admin_kept = refl;
      address_kept = λ y. refl;
      tokens_kept = refl;
    }

    settled :
        (buyer seller : ℕ) (sold paid : ℤ) (v : ℕ) (y : Asset)
        → as_demand
            (moved buyer B
              (pos 0 -ℤ paid)
              (moved buyer A sold (moved seller B paid (moved seller A (pos 0 -ℤ sold) now))))
            v
            y
          ≡ as_demand now v y
            -ℤ bump seller Asset.a sold v y
            +ℤ bump seller Asset.b paid v y
            +ℤ bump buyer Asset.a sold v y
            -ℤ bump buyer Asset.b paid v y
    settled buyer seller sold paid v y =
        rw
          (
            as_demand-moved buyer B (pos 0 -ℤ paid) _ v y,
            as_demand-moved buyer A sold _ v y,
            as_demand-moved seller B paid _ v y,
            as_demand-moved seller A (pos 0 -ℤ sold) _ v y,
            bump_neg buyer Asset.b paid v y,
            bump_neg seller Asset.a sold v y,
          )
          (omega int_laws)

    pub settle-Returns :
        (trade buyer seller : ℕ) (sold paid : ℤ)
        → Allowed (settlement trade buyer seller sold paid) (ledger w.storage)
        → now seller B +ℤ paid ≤ℤ i128_max
        → now buyer A +ℤ sold ≤ℤ i128_max
        → Returns
            (settle chain signers w.storage.nonce buyer seller A sold B paid)
            w
            (Carried w (effect (settlement trade buyer seller sold paid) (ledger w.storage)))
    unfolding settle
    settle-Returns trade buyer seller sold paid allowed room_b room_a =
        let n = w.storage.nonce in
        Returns-then _ _ w (require_admin-Returns chain w w now n At-start signers signed) λ w1 h1.
          Returns-require _ _ w1
            (rw (positive_test sold allowed.0, positive_test paid allowed.1) refl)
            (Returns-then _ _ w1 (validate_nonce-Returns chain w w1 now n h1 n refl) λ w2 h2.
              Returns-then _ _ w2
                (decrease_balance-Returns chain w w2 now n h2 seller A sold allowed.2
                  (omega (int_laws, get_user_balance-InRange seller A h.storage, allowed.0)))
                λ w3 h3.
                  Returns-then _ _ w3
                    (increase_balance-Returns chain w w3 _ n h3 seller B paid
                      (omega (int_laws, get_user_balance-InRange seller B h.storage, allowed.1))
                      room_b)
                    λ w4 h4.
                      Returns-then _ _ w4
                        (increase_balance-Returns chain w w4 _ n h4 buyer A sold
                          (received buyer seller sold (now buyer A)
                            (get_user_balance-InRange buyer A h.storage) room_a allowed.0).0
                          (received buyer seller sold (now buyer A)
                            (get_user_balance-InRange buyer A h.storage) room_a allowed.0).1)
                        λ w5 h5.
                          Returns-then _ _ w5
                            (decrease_balance-Returns chain w w5 _ n h5 buyer B paid
                              (spent buyer seller paid (now buyer B)
                                (get_user_balance-InRange buyer B h.storage) allowed.1 allowed.3).0
                              (spent buyer seller paid (now buyer B)
                                (get_user_balance-InRange buyer B h.storage) allowed.1 allowed.3).1)
                            λ w6 h6.
                              Returns-then _ _ w6 (increment_nonce-Returns chain w w6 _ n h6 room)
                                λ w7 h7.
                                  let e = emit-Returns chain w w7 _ (suc n) h7 _ in
                                  record {
                                    after = e.after;
                                    returns = e.returns;
                                    holds = record {
                                      balances = ledger_eq λ v y.
                                          ledger-At e.holds v y
                                          ∙ settled buyer seller sold paid v y;
                                      nonce = e.holds.nonce_is;
                                      admin = e.holds.admin_kept;
                                    };
                                  })

    transfer-Returns :
        (w1 : World T) (l : Readings) (nonce : ℕ) (x : ContractAsset) (user : ℕ) (n : ℤ)
        → Pays
        → pos 1 ≤ℤ n
        → n ≤ℤ now user x
        → At chain w l nonce w1
        → Returns
            (transfer_tokens chain x chain.contract_address user n)
            w1
            (λ w2. At chain w2 l nonce w2 × (w2.storage.admin ≡ w.storage.admin))
    transfer-Returns w1 l nonce x user n pays positive enough h1 =
        elim (Option-cases (
          chain.transfer (get_asset_address x w1.storage) chain.contract_address user n
            w1.tokens)) [
              | inl panics ↦ absurd (
                  pays (get_asset_address x w1.storage) user n w1.tokens positive
                    (rw (h1.address_kept x, h1.tokens_kept)
                      (omega (
                        int_laws,
                        enough,
                        h.backed x,
                        get_user_balance-balance_sum user x h.storage,
                      )))
                    panics)
              | inr (t, returns) ↦ record {
                after = record w1 { tokens = t };
                returns = rw returns refl;
                holds = (
                  record {
                    reads = h1.reads;
                    nonce_is = h1.nonce_is;
                    admin_kept = refl;
                    address_kept = λ y. refl;
                    tokens_kept = refl;
                  },
                  h1.admin_kept,
                );
              }
            ]

    pub withdraw-Returns :
        (x : ContractAsset) (user : ℕ) (n : ℤ)
        → Pays
        → pos 1 ≤ℤ n
        → n ≤ℤ now user x
        → Returns
            (withdraw chain signers w.storage.nonce user x n)
            w
            (Carried w (effect (withdrawal user (asset_of x) n) (ledger w.storage)))
    unfolding withdraw
    withdraw-Returns x user n pays positive enough =
        let k = w.storage.nonce in
        Returns-then _ _ w (require_admin-Returns chain w w now k At-start signers signed) λ w1 h1.
          Returns-require _ _ w1 (positive_test n positive) (
            Returns-then _ _ w1 (validate_nonce-Returns chain w w1 now k h1 k refl) λ w2 h2.
              Returns-then _ _ w2
                (decrease_balance-Returns chain w w2 now k h2 user x n enough
                  (omega (int_laws, get_user_balance-InRange user x h.storage, positive)))
                λ w3 h3.
                  Returns-then _ _ w3 (transfer-Returns w3 _ k x user n pays positive enough h3)
                    λ w4 h4.
                      Returns-then _ _ w4 (increment_nonce-Returns chain w4 w4 _ k h4.0 room)
                        λ w5 h5.
                          let e = emit-Returns chain w4 w5 _ (suc k) h5 _ in
                          record {
                            after = e.after;
                            returns = e.returns;
                            holds = record {
                              balances = ledger_eq λ v y.
                                  ledger-At e.holds v y
                                  ∙ as_demand-moved user x (pos 0 -ℤ n) now v y
                                  ∙ rw (bump_neg user (asset_of x) n v y) (omega int_laws);
                              nonce = e.holds.nonce_is;
                              admin = e.holds.admin_kept ∙ h4.1;
                            };
                          })
