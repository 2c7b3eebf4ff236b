-- ===== src/Blockchain/EventListener/Cursor.antt =====
-- How far the ledger to ask from moves in a poll.
use lumendark.Common.{
  ℕ, ◌≡◌, refl, ◌≤◌, true, Option, none, some, List, [], ◌∷◌, arith, Bool-cases, Option-cases, inl,
  inr,
}
use lumendark.Models.Order.{Asset}
use lumendark.Blockchain.Client.{Event, RpcServer, get_events}
use lumendark.Blockchain.Decoding.{decode_deposit_event}
use lumendark.Blockchain.EventListener.{
  ListenerState, Page, member, handle_event, handle_events, finish_poll, poll_from, poll_events,
  polls, to_latest,
}

module _ (per_one : Asset → ℕ) where
  pub current-handle_event :
      (e : Event) (page : Page) → page.current ≤ (handle_event per_one e page).current
  unfolding handle_event
  current-handle_event e page = elim (Bool-cases (member e.id page.processed)) [
    | inl seen ↦ rw seen (omega arith)
    | inr fresh ↦ elim (Option-cases (decode_deposit_event e.topic e.value)) [
      | inl no_deposit ↦ rw (fresh, no_deposit) (omega arith)
      | inr (d, is_deposit) ↦ rw (fresh, is_deposit) (ground arith)
    ]
  ]

  current-handle_events :
      (events : List Event) (page : Page)
      → page.current ≤ (handle_events per_one events page).current
  unfolding handle_events
  current-handle_events [] page = omega arith
  current-handle_events (e ∷ events) page = omega (
    arith,
    current-handle_event e page,
    current-handle_events events (handle_event per_one e page),
  )

  -- What the ledger of the listener becomes.
  pub current-finish_poll :
      (page : Page) (latest : Option ℕ)
      → (next : ℕ) × ((finish_poll page latest).1.listener.current_ledger ≡ some next)
        × (page.current ≤ next)
        × ((n : ℕ) → latest ≡ some n → n ≤ next)
  unfolding finish_poll
  current-finish_poll page none = (page.current, refl, omega arith, λ n p. ground arith)
  current-finish_poll page (some latest) =
      (to_latest latest page.current, refl, ground arith, λ n p. ground arith)

  current-poll_events :
      (contract_id : Option ℕ) (rpc : RpcServer) (s : ListenerState) (current : ℕ)
      → s.listener.current_ledger ≡ some current
      → (next : ℕ) × ((poll_events per_one contract_id rpc s).1.listener.current_ledger ≡ some next)
        × (current ≤ next)
        × ((poll_events per_one contract_id rpc s).0 ≡ true
            → (n : ℕ) → rpc.get_latest_ledger ≡ some n
            → n ≤ next)
  unfolding poll_events poll_from
  current-poll_events contract_id rpc s current at_current =
      elim (Option-cases (get_events rpc contract_id current 100)) [
        | inl raised ↦ rw (at_current, raised) (current, refl, omega arith, λ returned. cc)
        | inr (events, got) ↦
            let page : Page = record {
              processed = s.listener.processed_events;
              current = current;
              server = s.server;
            } in
            let (next, becomes, onward, up_to_latest) =
              current-finish_poll (handle_events per_one events page) rpc.get_latest_ledger in
            rw (at_current, got)
              (
                next,
                becomes,
                omega (arith, current-handle_events events page),
                λ returned. up_to_latest,
              )
      ]

  pub current-polls :
      (contract_id : Option ℕ) (rpcs : List RpcServer) (s : ListenerState) (current : ℕ)
      → s.listener.current_ledger ≡ some current
      → (next : ℕ) × ((polls per_one contract_id rpcs s).listener.current_ledger ≡ some next)
        × (current ≤ next)
  unfolding polls
  current-polls contract_id [] s current at_current = (current, at_current, omega arith)
  current-polls contract_id (rpc ∷ rpcs) s current at_current =
      let (middle, at_middle, onward, _) =
        current-poll_events contract_id rpc s current at_current in
      let (next, at_next, further) = current-polls contract_id rpcs _ middle at_middle in
      (next, at_next, omega arith)

  -- After a poll that returned, and after any further polls, the ledger to ask from is at least
  -- the latest ledger that the server named in that poll, and at least the one before it.
  pub polls-passes :
      (contract_id : Option ℕ) (rpc : RpcServer) (rpcs : List RpcServer) (s : ListenerState)
      (current latest : ℕ)
      → s.listener.current_ledger ≡ some current
      → rpc.get_latest_ledger ≡ some latest
      → (poll_events per_one contract_id rpc s).0 ≡ true
      → (next : ℕ) × ((polls per_one contract_id (rpc ∷ rpcs) s).listener.current_ledger
          ≡ some next)
        × (current ≤ next)
        × (latest ≤ next)
  unfolding polls
  polls-passes contract_id rpc rpcs s current latest at_current at_latest returned =
      let (middle, at_middle, onward, up_to_latest) =
        current-poll_events contract_id rpc s current at_current in
      let (next, at_next, further) = current-polls contract_id rpcs _ middle at_middle in
      (next, at_next, omega arith, omega (arith, up_to_latest returned latest at_latest))
