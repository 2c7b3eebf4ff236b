-- ===== src/Executor/ActionHandler.antt =====
-- backend/lumendark/executor/action_handler.py: actions go to the contract under consecutive nonces. The
-- `TransactionSubmitter` is a protocol, so it is a parameter: a call gets the nonce and the payload, and
-- returns a transaction's hash or raises (`none`), over a state of its own. Logging is left out.
pub mod Nonces
use lumendark.Common.{ℕ, suc, Option, none, some, List, [], ◌∷◌}
use lumendark.Models.Message.{ChainAction, ActionPayload, accepted, rejected}

abbrev pub Submit : Type 0 → Type 0
Submit S = ℕ → ActionPayload → S → Option ℕ × S

pub record Handler (S : Type 0) : Type 0 where
  pub nonce : ℕ
  pub submitter : S

module _ {S : Type 0} (submit : Submit S) where
  -- What `_process_action` does with what the submitter returned or raised.
  abbrev pub conclude : ChainAction → ℕ → Option ℕ × S → ChainAction × Handler S
  conclude action nonce (some tx_hash, t) = (
    record action { status = accepted; tx_hash = some tx_hash },
    record { nonce = suc nonce; submitter = t },
  )
  conclude action nonce (none, t) =
      (record action { status = rejected }, record { nonce = nonce; submitter = t })

  -- The type of an action is one of the two, so that the branch for others is never taken.
  unfoldable pub process_action : ChainAction → Handler S → ChainAction × Handler S
  process_action action h = conclude action h.nonce (submit h.nonce action.payload h.submitter)

  -- The loop of `start` on the actions that are queued: the actions as they are left, in their order.
  unfoldable pub start : List ChainAction → Handler S → List ChainAction × Handler S
  start [] h = ([], h)
  start (action ∷ queue) h =
      let (done, h1) = process_action action h in
      let (rest, h2) = start queue h1 in (done ∷ rest, h2)

-- `MockTransactionSubmitter`: a call counts up, and returns the hash of that count.
unfoldable pub mock_submit : Submit ℕ
mock_submit nonce payload tx_count = (some (suc tx_count), suc tx_count)
