-- ===== src/Client/Polling/Returns.antt =====
-- `wait_for_acceptance` ends, by the first poll that decides.
use lumendark.Common.{
  ℕ, zero, suc, ◌+◌, ◌≤◌, ◌<◌, ◌≡◌, refl, true, none, some, arith, ltb, Option-cases, inl, inr,
  Bool-cases,
}
use native.Mathlib.Decide.{dec_lt}
use lumendark.Client.Polling.{
  order_rejected_error, timeout_error, reason_of, HttpAnswer, StatusResponse, Outcome, returned,
  raised, request, is_accepted, is_rejected, decide, round, polling, wait_for_acceptance,
}

module _ (message_id timeout : ℕ) (answers : ℕ → HttpAnswer StatusResponse) (elapsed : ℕ → ℕ) where
  -- The poll `k` is the first that decides, from the poll `from` on.
  pub record Decides (from : ℕ) (outcome : Outcome StatusResponse) (k : ℕ) : Type 0 where
    pub later : from ≤ k
    pub decides : round message_id timeout answers elapsed k ≡ some outcome
    pub first : (j : ℕ) → from ≤ j → j < k → round message_id timeout answers elapsed j ≡ none

  -- After the timeout a poll decides.
  round_late :
      (k : ℕ)
      → timeout < elapsed k
      → (outcome : Outcome StatusResponse) × (round message_id timeout answers elapsed k
          ≡ some outcome)
  round_late k late = decide_late (request (answers k))
    where
      decide_late :
          (o : Outcome StatusResponse)
          → (outcome : Outcome StatusResponse) × (decide message_id timeout o (elapsed k)
              ≡ some outcome)
      decide_late (raised e) = unfold decide in (raised e, refl)
      decide_late (returned r) =
          unfold decide in
          elim (Bool-cases (is_accepted r)) [
            | inl yea ↦ (returned r, rw yea)
            | inr nay ↦ elim (Bool-cases (is_rejected r)) [
              | inl refused ↦ (
                raised (order_rejected_error message_id (reason_of r.rejection_reason)),
                rw (nay, refused),
              )
              | inr open_still ↦
                  let t : ltb timeout (elapsed k) ≡ true = ground arith in
                  (raised (timeout_error message_id), rw (nay, open_still, t))
            ]
          ]

  polling-Decides :
      (fuel from k : ℕ)
      → timeout < elapsed k
      → from ≤ k
      → k < from + fuel
      → (outcome : Outcome StatusResponse) × (j : ℕ) × (polling message_id timeout answers elapsed
            fuel from
          ≡ some outcome)
        × Decides from outcome j
        × (j ≤ k)
  unfolding polling
  polling-Decides zero from k late le lt = absurd (omega arith)
  polling-Decides (suc fuel) from k late le lt =
      elim (Option-cases (round message_id timeout answers elapsed from)) [
        | inr (outcome, now) ↦ (
          outcome,
          from,
          rw (polling, now),
          record {
            later = omega arith;
            decides = now;
            first = λ j p q. absurd (omega (arith, p, q));
          },
          le,
        )
        | inl open_still ↦
            let (outcome, j, e, d, below) =
              polling-Decides fuel (suc from) k late (later_than from k late le open_still)
                (omega arith) in
            (
              outcome,
              j,
              rw (polling, open_still) e,
              record {
                later = omega (arith, d.later);
                decides = d.decides;
                first = λ i p q. elim (dec_lt from i) [
                  | yes above ↦ d.first i (omega arith) q
                  | no same ↦ let e : i ≡ from = omega (arith, p) in rw e open_still
                ];
              },
              below,
            )
      ]
    where
      later_than :
          (from k : ℕ)
          → timeout < elapsed k
          → from ≤ k
          → round message_id timeout answers elapsed from ≡ none
          → suc from ≤ k
      later_than from k late le open_still = elim (dec_lt from k) [
        | yes lt ↦ omega arith
        | no same ↦
            let e : from ≡ k = omega arith in
            let (o, d) = round_late k late in absurd (cc (e, open_still, d))
      ]

  -- Whatever the server answers, if the clock is past the timeout after the poll number `k`, then
  -- `wait_for_acceptance` ends within `k + 1` polls, by the first poll that decides.
  pub wait_for_acceptance-returns :
      (k : ℕ)
      → timeout < elapsed k
      → (outcome : Outcome StatusResponse) × (j : ℕ) × (wait_for_acceptance message_id timeout
            answers elapsed
            (suc k)
          ≡ some outcome)
        × Decides 0 outcome j
        × (j ≤ k)
  unfolding wait_for_acceptance
  wait_for_acceptance-returns k late = polling-Decides (suc k) 0 k late (omega arith) (omega arith)
