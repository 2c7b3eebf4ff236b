-- ===== src/Tests/Submissions.antt =====
-- The theorem on submissions, at a server that confirms in its third round.
use lumendark.Common.{ℕ, suc, ◌≡◌, true, some, pos, ◌==◌, if◌then◌else◌}
use lumendark.Models.Message.{ActionPayload, settlement}
use lumendark.Blockchain.Client.{success, not_found}
use lumendark.Blockchain.Transaction.{SorobanServer, Conversions, submit_action}
use lumendark.Blockchain.Transaction.Confirmed.{Confirms, submit_action-exact}

abbrev conversions : Conversions
conversions = record {
  int_text = λ d. some d;
  int_float = λ d. some d;
  is_uint64 = λ n. true;
  is_int128 = λ n. true;
  is_address = λ n. true;
}

-- The state counts the transactions, and a hash is a count.
abbrev soroban : SorobanServer ℕ
soroban = record {
  load_account = λ s. true;
  simulate_transaction = λ call s. true;
  prepare_transaction = λ call s. true;
  send_transaction = λ call s. (some s, suc s);
  get_transaction = λ tx_hash s k. if k == 2 then success else not_found;
}

abbrev trade_payload : ActionPayload
trade_payload = settlement 1 2 3 (pos 4) (pos 5)

submit_action-exact_example :
    ((submit_action conversions soroban 7 trade_payload 11).0 ≡ some 11
      → Confirms conversions soroban 7 trade_payload 11 11)
    × (Confirms conversions soroban 7 trade_payload 11 11
        → (submit_action conversions soroban 7 trade_payload 11).0 ≡ some 11)
submit_action-exact_example = submit_action-exact conversions soroban 7 trade_payload 11 11
