-- ===== src/Blockchain/EventListener.antt =====
-- backend/lumendark/blockchain/event_listener.py, `DepositEventListener`, with `on_deposit` of
-- backend/lumendark/api/app.py. One poll is one step: sleeping and logging are left out.
pub mod Delivery
pub mod Cursor
pub mod Once
use lumendark.Common.{
  ℕ, zero, suc, ◌+◌, ◌-◌, Bool, true, false, Option, none, some, List, [], ◌∷◌, ltb, leb, ◌==◌,
  if◌then◌else◌, length, ℤ, pos, ◌*ℤ◌,
}
use lumendark.Models.Order.{Asset}
use lumendark.Models.Message.{Payload, NumberText, decimal, finite}
use lumendark.Api.Routes
use lumendark.Api.Routes.{submit}
use lumendark.Blockchain.Client.{Event, RpcServer, get_events}
use lumendark.Blockchain.Decoding.{DepositData, decode_deposit_event}

pub record Listener : Type 0 where
  pub processed_events : List ℕ
  pub current_ledger : Option ℕ

-- The listener, and what its callback changes: the message store and the queue.
pub record ListenerState : Type 0 where
  pub listener : Listener
  pub server : Routes.Server

abbrev pub member : ℕ → List ℕ → Bool
member id [] = false
member id (other ∷ ids) = if id == other then true else member id ids

-- `set.add`
abbrev pub add : ℕ → List ℕ → List ℕ
add id ids = if member id ids then ids else id ∷ ids

insert_sorted : ℕ → List ℕ → List ℕ
insert_sorted id [] = id ∷ []
insert_sorted id (other ∷ ids) =
    if ltb id other then id ∷ other ∷ ids else other ∷ insert_sorted id ids

unfoldable pub sorted : List ℕ → List ℕ
unfolding insert_sorted
sorted [] = []
sorted (id ∷ ids) = insert_sorted id (sorted ids)

abbrev pub drop : ℕ → List ℕ → List ℕ
drop zero ids = ids
drop (suc n) [] = []
drop (suc n) (id ∷ ids) = drop n ids

-- "keep last 10000", by `sorted_events[-5000:]`
unfoldable pub prune : List ℕ → List ℕ
unfolding sorted
prune ids = if ltb 10000 (length ids) then drop (length ids - 5000) (sorted ids) else ids

-- `if event["ledger"] >= self._current_ledger: self._current_ledger = event["ledger"] + 1`
abbrev pub past_event : ℕ → ℕ → ℕ
past_event ledger current = if leb current ledger then suc ledger else current

-- The state while the events of a page are handled, where the current ledger is known.
pub record Page : Type 0 where
  pub processed : List ℕ
  pub current : ℕ
  pub server : Routes.Server

-- The number of a deposit's text in the units of `Decimal` of its asset, of which 1 has `per_one`.
abbrev pub amount_text : ℕ → ℤ → NumberText
amount_text per_one amount = decimal (finite (amount *ℤ pos per_one))

abbrev pub deposit_payload : (Asset → ℕ) → Event → DepositData → Payload
deposit_payload per_one event d =
    Payload.deposit d.asset (amount_text (per_one d.asset) d.amount) event.ledger event.tx_hash

-- What `Message.create_deposit` and `on_deposit` do: the message is made, stored and queued.
abbrev pub deliver : (Asset → ℕ) → Event → DepositData → Routes.Server → Routes.Server
deliver per_one event d srv = (submit d.user_address (deposit_payload per_one event d) srv).1

-- The rest of the loop's body, behind `decode_deposit_event`.
abbrev pub handle_decoded : (Asset → ℕ) → Event → Option DepositData → Page → Page
handle_decoded per_one event none page = page
handle_decoded per_one event (some d) page = record {
  processed = add event.id page.processed;
  current = past_event event.ledger page.current;
  server = deliver per_one event d page.server;
}

unfoldable pub handle_event : (Asset → ℕ) → Event → Page → Page
handle_event per_one event page =
    if member event.id page.processed
    then page
    else handle_decoded per_one event (decode_deposit_event event.topic event.value) page

unfoldable pub handle_events : (Asset → ℕ) → List Event → Page → Page
unfolding handle_event
handle_events per_one [] page = page
handle_events per_one (event ∷ events) page =
    handle_events per_one events (handle_event per_one event page)

abbrev pub to_latest : ℕ → ℕ → ℕ
to_latest latest current = if ltb current latest then latest else current

-- Behind the loop: the latest ledger, whose look-up may raise, and the pruning. `true` is a return.
unfoldable pub finish_poll : Page → Option ℕ → Bool × ListenerState
finish_poll page none = (
  false,
  record {
    listener = record { processed_events = page.processed; current_ledger = some page.current };
    server = page.server;
  },
)
finish_poll page (some latest) = (
  true,
  record {
    listener = record {
      processed_events = prune page.processed;
      current_ledger = some (to_latest latest page.current);
    };
    server = page.server;
  },
)

unfoldable pub poll_from :
    (Asset → ℕ) → RpcServer → Option (List Event) → ℕ → ListenerState → Bool × ListenerState
poll_from per_one rpc none current s = (false, s)
poll_from per_one rpc (some events) current s =
    finish_poll
      (handle_events per_one events
        (record { processed = s.listener.processed_events; current = current; server = s.server }))
      rpc.get_latest_ledger

-- `_poll_events`, of a client for the contract; `start` catches what it raises, and goes on.
unfoldable pub poll_events :
    (Asset → ℕ) → Option ℕ → RpcServer → ListenerState → Bool × ListenerState
unfolding poll_from finish_poll
poll_events per_one contract_id rpc s = elim s.listener.current_ledger [
  | none ↦ (true, s)
  | some current ↦ poll_from per_one rpc (get_events rpc contract_id current 100) current s
]

-- The polls of `start`, one after another.
unfoldable pub polls : (Asset → ℕ) → Option ℕ → List RpcServer → ListenerState → ListenerState
polls per_one contract_id [] s = s
polls per_one contract_id (rpc ∷ rpcs) s =
    polls per_one contract_id rpcs (poll_events per_one contract_id rpc s).1
