-- ===== src/Tests/Polls.antt =====
-- The theorems on polls, at sample answers of the server.
use lumendark.Common.{
  ℕ, Each, Distinct, map, ◌++◌, sym, ◌∙◌, leb, Bool-cases, inl, inr, ◌+◌, ◌≡◌, refl, ◌≤◌, ◌==◌,
  if◌then◌else◌, some, none, List, [], ◌∷◌, arith, pos, negsuc,
}
use lumendark.Models.Order.{Asset}
use lumendark.Blockchain.Client.{Event, RpcServer, get_events}
use lumendark.Blockchain.Decoding.{decode_deposit_event}
use lumendark.Blockchain.Transaction.{A}
use lumendark.Blockchain.Decoding.RoundTrip.{
  asset_of, emitted_topics, emitted_value, decode_deposit_event-emitted,
}
use lumendark.Blockchain.EventListener.{
  ListenerState, Page, handle_events, finish_poll, poll_from, poll_events, polls,
}
use lumendark.Blockchain.EventListener.Delivery.{
  Deposit, requests, request_of, Delivered, handle_events-Delivered,
}
use lumendark.Blockchain.EventListener.Once.{IsDeposit, IsHonest, id_of, polls-delivers_once}
use lumendark.Blockchain.EventListener.Cursor.{polls-passes}
use lumendark.Client.Polling.{
  HttpAnswer, StatusResponse, Outcome, response, request_error, wait_for_acceptance,
}
use lumendark.Client.Polling.Returns.{Decides, wait_for_acceptance-returns}
use lumendark.Tests.Requests.{server}

abbrev pending : StatusResponse
pending = record {
  message_id = 7;
  status = "pending";
  rejection_reason = none;
  order_id = none;
  trades_count = none;
}

abbrev answers : ℕ → HttpAnswer StatusResponse
answers k = if k == 2 then request_error else response 200 pending

wait_for_acceptance-returns_example :
    (outcome : Outcome StatusResponse) × (j : ℕ) × (wait_for_acceptance 7 5 answers (λ k. k + k) 4
      ≡ some outcome)
    × Decides 7 5 answers (λ k. k + k) 0 outcome j
    × (j ≤ 3)
wait_for_acceptance-returns_example =
    wait_for_acceptance-returns 7 5 answers (λ k. k + k) 3 (omega arith)

decode_deposit_event-emitted_example :
    decode_deposit_event (emitted_topics 7) (emitted_value A (negsuc 4))
    ≡ some (record { user_address = 7; asset = asset_of A; amount = negsuc 4 })
decode_deposit_event-emitted_example = decode_deposit_event-emitted 7 A (negsuc 4)

abbrev per_one : Asset → ℕ
per_one x = 100

abbrev event : ℕ → ℕ → Event
event id ledger = record {
  id = id;
  contract_id = 3;
  ledger = ledger;
  topic = emitted_topics 7;
  value = emitted_value A (pos 5);
  tx_hash = 11;
}

-- The first event was handled before, and the last one stands in the page twice.
abbrev page : Page
page = record { processed = 1 ∷ []; current = 10; server = server }

abbrev events : List Event
events = event 1 10 ∷ event 2 11 ∷ event 2 11 ∷ []

handle_events-Delivered_example : Delivered per_one events page (handle_events per_one events page)
handle_events-Delivered_example = handle_events-Delivered per_one events page (tt, tt)

abbrev rpc : ℕ → RpcServer
rpc latest = record {
  get_events = λ contract_id start_ledger limit. some [];
  get_latest_ledger = some latest;
}

abbrev state : ListenerState
state = record {
  listener = record { processed_events = []; current_ledger = some 10 };
  server = server;
}

polls-passes_example :
    (next : ℕ) × ((polls per_one (some 3) (rpc 50 ∷ rpc 40 ∷ []) state).listener.current_ledger
      ≡ some next)
    × (10 ≤ next)
    × (50 ≤ next)
unfolding poll_events poll_from finish_poll get_events
polls-passes_example =
    polls-passes per_one (some 3) (rpc 50) (rpc 40 ∷ []) state 10 50 refl refl refl

-- A chain with one event, which the server sends until it is passed.
abbrev IsEmitted : Event → Type 0
IsEmitted e = e ≡ event 2 11

abbrev sender : RpcServer
sender = record {
  get_events = λ contract_id start_ledger limit.
      if leb start_ledger 11 then some (event 2 11 ∷ []) else some [];
  get_latest_ledger = none;
}

sender-IsHonest : IsHonest per_one (some 3) IsEmitted (λ e e' p q same. p ∙ sym q) sender
unfolding get_events
sender-IsHonest start events got = elim (Bool-cases (leb start 11)) [
  | inl before ↦
      let sent : event 2 11 ∷ [] ≡ events = cc (rw before at got) in
      rw⁻¹ sent ((ground arith, refl), tt)
  | inr after ↦ let sent : ◌≡◌ {A = List Event} [] events = cc (rw after at got) in rw⁻¹ sent tt
]

polls-delivers_once_example :
    (ds : List Deposit) × (requests
        (polls per_one (some 3) (sender ∷ sender ∷ []) state).server.queue
      ≡ requests server.queue ++ map (request_of per_one) ds)
    × Each (IsDeposit per_one (some 3) IsEmitted (λ e e' p q same. p ∙ sym q)) ds
    × Distinct id_of ds
polls-delivers_once_example =
    polls-delivers_once per_one (some 3) IsEmitted (λ e e' p q same. p ∙ sym q)
      (sender ∷ sender ∷ []) state 10 refl (sender-IsHonest, (sender-IsHonest, tt))
