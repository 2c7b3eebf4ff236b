-- ===== src/Blockchain/Transaction/Confirmed.antt =====
-- When a submission returns a hash.
use lumendark.Common.{
  ℕ, zero, suc, ◌+◌, ◌≤◌, ◌<◌, ◌≡◌, refl, true, Option, none, some, arith, Bool-cases, inl, inr,
  ◌⊎◌, ap, sym, ◌∙◌,
}
use native.Mathlib.Decide.{dec_lt}
use lumendark.Models.Message.{ActionPayload}
use lumendark.Blockchain.Client.{
  TransactionStatus, success, failed, not_found, Confirmation, confirmed, transaction_failed,
  timed_out, await_transaction,
}
use lumendark.Blockchain.Transaction.{
  ContractCall, SorobanServer, Conversions, call_of, conclude, await_sent, submit_call,
  submit_action,
}

-- The first round, from `k` on, in which the status is not waited out, and it is a success.
pub record Succeeds (status : ℕ → TransactionStatus) (rounds k : ℕ) : Type 0 where
  pub final : ℕ
  pub from : k ≤ final
  pub before : final < k + rounds
  pub succeeds : status final ≡ success
  pub waits : (j : ℕ) → k ≤ j → j < final → status j ≡ not_found

status-cases : (o : TransactionStatus) → (o ≡ success) ⊎ (o ≡ failed) ⊎ (o ≡ not_found)
status-cases success = inl refl
status-cases failed = inr (inl refl)
status-cases not_found = inr (inr refl)

module _ (status : ℕ → TransactionStatus) where
  Succeeds-now : (rounds k : ℕ) → status k ≡ success → Succeeds status (suc rounds) k
  Succeeds-now rounds k e = record {
    final = k;
    from = omega arith;
    before = omega arith;
    succeeds = e;
    waits = λ j p q. absurd (omega (arith, p, q));
  }

  Succeeds-later :
      (rounds k : ℕ)
      → status k ≡ not_found
      → Succeeds status rounds (suc k)
      → Succeeds status (suc rounds) k
  Succeeds-later rounds k e r = record {
    final = r.final;
    from = omega (arith, r.from);
    before = omega (arith, r.before);
    succeeds = r.succeeds;
    waits = λ j p q. elim (dec_lt k j) [
      | yes later ↦ r.waits j later q
      | no now ↦ let same : j ≡ k = omega (arith, p) in rw same e
    ];
  }

  await_transaction_sound :
      (rounds k : ℕ) → await_transaction status rounds k ≡ confirmed → Succeeds status rounds k
  unfolding await_transaction
  await_transaction_sound zero k h = cc
  await_transaction_sound (suc rounds) k h = elim (status-cases (status k)) [
    | inl e ↦ Succeeds-now rounds k e
    | inr (inl e) ↦ cc (rw (await_transaction, e) at h)
    | inr (inr e) ↦
        Succeeds-later rounds k e
          (await_transaction_sound rounds (suc k) (rw (await_transaction, e) at h))
  ]

  await_transaction_complete :
      (rounds k : ℕ) → Succeeds status rounds k → await_transaction status rounds k ≡ confirmed
  unfolding await_transaction
  await_transaction_complete zero k r = absurd (omega (arith, r.from, r.before))
  await_transaction_complete (suc rounds) k r = elim (dec_lt k r.final) [
    | yes later ↦
        rw (await_transaction, r.waits k (omega arith) later)
          (await_transaction_complete rounds (suc k) (record {
            final = r.final;
            from = later;
            before = omega (arith, r.before);
            succeeds = r.succeeds;
            waits = λ j p q. r.waits j (omega (arith, p)) q;
          }))
    | no now ↦
        let same : k ≡ r.final = omega (arith, r.from) in
        let e : status k ≡ success = ap status same ∙ r.succeeds in rw (await_transaction, e) refl
  ]

module _ {S : Type 0} (conv : Conversions) (server : SorobanServer S) where
  -- The call that a payload stands for went through, and its transaction was confirmed in time.
  pub record Confirms (nonce : ℕ) (payload : ActionPayload) (s : S) (tx_hash : ℕ) : Type 0 where
    pub call : ContractCall
    pub loaded : server.load_account s ≡ true
    pub made : call_of conv nonce payload ≡ some call
    pub simulated : server.simulate_transaction call s ≡ true
    pub prepared : server.prepare_transaction call s ≡ true
    pub sent : (server.send_transaction call s).0 ≡ some tx_hash
    pub confirmed_at :
        Succeeds (server.get_transaction tx_hash (server.send_transaction call s).1) 60 0

  conclude-some :
      (tx_hash other : ℕ) (c : Confirmation)
      → conclude conv server tx_hash c ≡ some other
      → (tx_hash ≡ other) × (c ≡ confirmed)
  conclude-some tx_hash other confirmed h = (cc h, refl)
  conclude-some tx_hash other transaction_failed h = cc h
  conclude-some tx_hash other timed_out h = cc h

  await_sent-some :
      (sent : Option ℕ × S) (tx_hash : ℕ)
      → (await_sent conv server sent).0 ≡ some tx_hash
      → (sent.0 ≡ some tx_hash) × Succeeds (server.get_transaction tx_hash sent.1) 60 0
  await_sent-some (none, t) tx_hash h = cc h
  await_sent-some (some other, t) tx_hash h =
      let (same, c) = conclude-some other tx_hash _ h in
      (
        ap some same,
        await_transaction_sound (server.get_transaction tx_hash t) 60 0
            (ap (λ (n : ℕ). await_transaction (server.get_transaction n t) 60 0) (sym same) ∙ c),
      )

  await_sent_lem :
      (sent : Option ℕ × S) (tx_hash : ℕ)
      → sent.0 ≡ some tx_hash
      → Succeeds (server.get_transaction tx_hash sent.1) 60 0
      → (await_sent conv server sent).0 ≡ some tx_hash
  await_sent_lem (none, t) tx_hash e r = cc e
  await_sent_lem (some other, t) tx_hash e r =
      let same : other ≡ tx_hash = cc e in
      rw (same, await_transaction_complete (server.get_transaction tx_hash t) 60 0 r) refl

  module _ (nonce : ℕ) (payload : ActionPayload) (s : S) (tx_hash : ℕ) where
    submit_call_sound :
        (call : Option ContractCall)
        → server.load_account s ≡ true
        → call_of conv nonce payload ≡ call
        → (submit_call conv server call s).0 ≡ some tx_hash
        → Confirms nonce payload s tx_hash
    unfolding submit_call
    submit_call_sound none loaded made h = cc h
    submit_call_sound (some call) loaded made h =
        elim (Bool-cases (server.simulate_transaction call s)) [
          | inr failing ↦ cc (rw failing at h)
          | inl simulated ↦ elim (Bool-cases (server.prepare_transaction call s)) [
            | inr failing ↦ cc (rw (simulated, failing) at h)
            | inl prepared ↦
                let (sent, r) =
                  await_sent-some (server.send_transaction call s) tx_hash
                    (rw (simulated, prepared) at h) in
                record {
                  call = call;
                  loaded = loaded;
                  made = made;
                  simulated = simulated;
                  prepared = prepared;
                  sent = sent;
                  confirmed_at = r;
                }
          ]
        ]

    -- A submission returns a hash exactly when the account loads, the action becomes a call (its
    -- asset, nonce, addresses and amounts are taken), the simulation and the preparation go
    -- through, the transaction is sent with that hash, and the first of at most 60 rounds that is
    -- not waited out shows a success.
    pub submit_action-exact :
        ((submit_action conv server nonce payload s).0 ≡ some tx_hash
          → Confirms nonce payload s tx_hash)
        × (Confirms nonce payload s tx_hash
            → (submit_action conv server nonce payload s).0 ≡ some tx_hash)
    unfolding submit_action submit_call
    submit_action-exact = (
      (λ h. elim (Bool-cases (server.load_account s)) [
        | inl loaded ↦ submit_call_sound (call_of conv nonce payload) loaded refl (rw loaded at h)
        | inr missing ↦ cc (rw missing at h)
      ]),
      (λ c.
          rw (c.loaded, c.made, c.simulated, c.prepared)
            (await_sent_lem (server.send_transaction c.call s) tx_hash c.sent c.confirmed_at)),
    )
