-- ===== src/Blockchain/EventListener/Once.antt =====
-- No deposit is delivered twice by a run of polls, also where ids were pruned.
use mathlib.Core.List.{append-nil, append_assoc, map-append}
use lumendark.Common.{
  ℕ, ◌≡◌, ◌≢◌, refl, sym, ap, subst, ◌∙◌, ◌≤◌, ◌<◌, true, false, Option, none, some, List, [], ◌∷◌,
  ◌++◌, map, arith, Each, Each-map, Each-append, Distinct, Bool-cases, Option-cases, ◌⊎◌, inl, inr,
}
use lumendark.Models.Message.{Payload}
use lumendark.Api.Routes.{Server}
use lumendark.Models.Order.{Asset}
use lumendark.Blockchain.Client.{Event, RpcServer, get_events}
use lumendark.Blockchain.Decoding.{DepositData, decode_deposit_event}
use lumendark.Blockchain.EventListener.{
  ListenerState, Page, member, handle_event, handle_events, finish_poll, poll_from, poll_events,
  polls,
}
use lumendark.Blockchain.EventListener.Delivery.{
  Deposit, requests, request_of, member-handle_event, handle_event_seen, handle_event_no_deposit,
  handle_event_deposit,
}
use lumendark.Blockchain.EventListener.Cursor.{current-handle_event, current-finish_poll}

abbrev pub id_of : Deposit → ℕ
id_of d = d.event.id

Distinct-snoc :
    (ds : List Deposit) (d : Deposit)
    → Distinct id_of ds
    → Each (λ other. id_of other ≢ id_of d) ds
    → Distinct id_of (ds ++ d ∷ [])
Distinct-snoc [] d distinct fresh = (tt, tt)
Distinct-snoc (x ∷ ds) d distinct fresh = (
  Each-append (λ other. id_of other ≢ id_of x) ds (d ∷ []) distinct.0 ((λ e. fresh.0 (sym e)), tt),
  Distinct-snoc ds d distinct.1 fresh.1,
)

queue-finish_poll :
    (page : Page) (latest : Option ℕ) → (finish_poll page latest).1.server ≡ page.server
unfolding finish_poll
queue-finish_poll page none = refl
queue-finish_poll page (some latest) = refl

-- The events on the chain, of which none shares its id with another.
module _ (per_one : Asset → ℕ) (contract_id : Option ℕ) (IsEmitted : Event → Type 0)
    (ids : (e e' : Event) → IsEmitted e → IsEmitted e' → e.id ≡ e'.id → e ≡ e') where
  -- A page holds emitted events, from the ledger on that was asked for.
  abbrev pub IsHonest : RpcServer → Type 0
  IsHonest rpc =
      (start : ℕ) (events : List Event)
      → get_events rpc contract_id start 100 ≡ some events
      → Each (λ e. (start ≤ e.ledger) × IsEmitted e) events

  -- A delivered deposit is behind the ledger, and is known as processed in the page from `start` on.
  abbrev pub IsDeposit : Deposit → Type 0
  IsDeposit d =
      IsEmitted d.event × (decode_deposit_event d.event.topic d.event.value ≡ some d.details)

  abbrev IsPast : ℕ → Page → Deposit → Type 0
  IsPast start page d =
      IsDeposit d
      × (d.event.ledger < page.current)
      × ((d.event.ledger < start) ⊎ (member (id_of d) page.processed ≡ true))

  -- The deposits that were queued behind the requests `earlier`.
  record Once (earlier : List (ℕ × Payload)) (start : ℕ) (ds : List Deposit) (page : Page)
      : Type 0 where
    queued : requests page.server.queue ≡ earlier ++ map (request_of per_one) ds
    distinct : Distinct id_of ds
    past : Each (IsPast start page) ds

  IsPast-handle_event :
      (start : ℕ) (e : Event) (page : Page) (d : Deposit)
      → IsPast start page d
      → IsPast start (handle_event per_one e page) d
  IsPast-handle_event start e page d (told, behind, inl before) =
      (told, omega (arith, current-handle_event per_one e page), inl before)
  IsPast-handle_event start e page d (told, behind, inr known) = (
    told,
    omega (arith, current-handle_event per_one e page),
    inr (member-handle_event per_one (id_of d) e page known),
  )

  current-handle_event_deposit :
      (e : Event) (d : DepositData) (page : Page)
      → member e.id page.processed ≡ false
      → decode_deposit_event e.topic e.value ≡ some d
      → e.ledger < (handle_event per_one e page).current
  unfolding handle_event
  current-handle_event_deposit e d page fresh is_deposit = rw (fresh, is_deposit) (ground arith)

  other_id :
      (start : ℕ) (e : Event) (page : Page) (d : Deposit)
      → start ≤ e.ledger
      → IsEmitted e
      → member e.id page.processed ≡ false
      → IsPast start page d
      → id_of d ≢ e.id
  other_id start e page d from told fresh (told_d, behind, inl before) same =
      let l : d.event.ledger ≡ e.ledger =
        ap (λ (x : Event). x.ledger) (ids d.event e told_d.0 told same) in
      omega arith
  other_id start e page d from told fresh (told_d, behind, inr known) same =
      cc (ap (λ (n : ℕ). member n page.processed) same)

  handle_event-Once :
      {earlier : List (ℕ × Payload)} {start : ℕ} {ds : List Deposit} (e : Event) (page : Page)
      → start ≤ e.ledger
      → IsEmitted e
      → Once earlier start ds page
      → (more : List Deposit) × Once earlier start more (handle_event per_one e page)
  handle_event-Once {earlier} {start} {ds} e page from told once =
      elim (Bool-cases (member e.id page.processed)) [
        | inl seen ↦ rw (handle_event_seen per_one e page seen) (ds, once)
        | inr fresh ↦ elim (Option-cases (decode_deposit_event e.topic e.value)) [
          | inl no_deposit ↦ rw (handle_event_no_deposit per_one e page no_deposit) (ds, once)
          | inr (d, is_deposit) ↦
              let (processed, queued) = handle_event_deposit per_one e d page fresh is_deposit in
              let new : Deposit = record { event = e; details = d } in
              (
                ds ++ new ∷ [],
                record {
                  queued =
                      queued
                      ∙ ap (λ (q : List (ℕ × Payload)). q ++ request_of per_one new ∷ [])
                          once.queued
                      ∙ append_assoc earlier _ _
                      ∙ ap (λ (q : List (ℕ × Payload)). earlier ++ q) (sym (map-append _ ds _));
                  distinct = Distinct-snoc ds new once.distinct (
                      Each-map _ _ (λ other p. other_id start e page other from told fresh p) ds
                        once.past);
                  past =
                      Each-append _ ds (new ∷ [])
                        (Each-map _ _ (λ other p. IsPast-handle_event start e page other p) ds
                          once.past)
                        (
                          (
                            (told, is_deposit),
                            current-handle_event_deposit e d page fresh is_deposit,
                            inr (rw processed (ground arith)),
                          ),
                          tt,
                        );
                },
              )
        ]
      ]

  handle_events-Once :
      {earlier : List (ℕ × Payload)} {start : ℕ} (events : List Event) (page : Page)
      {ds : List Deposit}
      → Each (λ e. (start ≤ e.ledger) × IsEmitted e) events
      → Once earlier start ds page
      → (more : List Deposit) × Once earlier start more (handle_events per_one events page)
  unfolding handle_events
  handle_events-Once [] page {ds} honest once = (ds, once)
  handle_events-Once (e ∷ events) page honest once =
      let (more, next) = handle_event-Once e page honest.0.0 honest.0.1 once in
      handle_events-Once events _ honest.1 next

  poll_events_raised :
      (rpc : RpcServer) (s : ListenerState) (current : ℕ)
      → s.listener.current_ledger ≡ some current
      → get_events rpc contract_id current 100 ≡ none
      → (poll_events per_one contract_id rpc s).1 ≡ s
  unfolding poll_events poll_from
  poll_events_raised rpc s current at_current raised = rw (at_current, raised) refl

  -- Between two polls.
  record Between (earlier : List (ℕ × Payload)) (ds : List Deposit) (s : ListenerState)
      : Type 0 where
    current : ℕ
    at_current : s.listener.current_ledger ≡ some current
    queued : requests s.server.queue ≡ earlier ++ map (request_of per_one) ds
    distinct : Distinct id_of ds
    behind : Each (λ d. IsDeposit d × (d.event.ledger < current)) ds

  finish_poll-Between :
      {earlier : List (ℕ × Payload)} {start : ℕ} (ds : List Deposit) (page : Page)
      (latest : Option ℕ)
      → Once earlier start ds page
      → Between earlier ds (finish_poll page latest).1
  unfolding finish_poll
  finish_poll-Between ds page latest once =
      let (next, becomes, onward, _) = current-finish_poll per_one page latest in
      record {
        current = next;
        at_current = becomes;
        queued =
            ap (λ (srv : Server). requests srv.queue) (queue-finish_poll page latest) ∙ once.queued;
        distinct = once.distinct;
        behind = Each-map _ _ (λ d p. (p.0, omega (arith, p.1, onward))) ds once.past;
      }

  poll_events-Between :
      {earlier : List (ℕ × Payload)} (ds : List Deposit) (rpc : RpcServer) (s : ListenerState)
      → IsHonest rpc
      → Between earlier ds s
      → (more : List Deposit) × Between earlier more (poll_events per_one contract_id rpc s).1
  unfolding poll_events poll_from
  poll_events-Between {earlier} ds rpc s honest b =
      elim (Option-cases (get_events rpc contract_id b.current 100)) [
        | inl raised ↦ (
          ds,
          subst (Between earlier ds) (sym (poll_events_raised rpc s b.current b.at_current raised))
              b,
        )
        | inr (events, got) ↦
            let page : Page = record {
              processed = s.listener.processed_events;
              current = b.current;
              server = s.server;
            } in
            let (more, once) =
              handle_events-Once events page (honest b.current events got) (record {
                queued = b.queued;
                distinct = b.distinct;
                past = Each-map _ _ (λ d p. (p.0, p.1, inl p.1)) ds b.behind;
              }) in
            rw (b.at_current, got) (more, finish_poll-Between more _ rpc.get_latest_ledger once)
      ]

  polls-Between :
      {earlier : List (ℕ × Payload)} (rpcs : List RpcServer) (s : ListenerState) (ds : List Deposit)
      → Each IsHonest rpcs
      → Between earlier ds s
      → (more : List Deposit) × Between earlier more (polls per_one contract_id rpcs s)
  unfolding polls
  polls-Between [] s ds honest b = (ds, b)
  polls-Between (rpc ∷ rpcs) s ds honest b =
      let (more, next) = poll_events-Between ds rpc s honest.0 b in
      polls-Between rpcs _ more honest.1 next

  -- For emitted events of which equal ids mean equal events, and a server whose pages hold
  -- emitted events from the asked ledger on, any run of polls from a known ledger queues, behind
  -- the earlier messages, the messages of emitted events that decode to deposits, no two with the
  -- same id, also where processed ids were pruned.
  pub polls-delivers_once :
      (rpcs : List RpcServer) (s : ListenerState) (current : ℕ)
      → s.listener.current_ledger ≡ some current
      → Each IsHonest rpcs
      → (ds : List Deposit) × (requests (polls per_one contract_id rpcs s).server.queue
          ≡ requests s.server.queue ++ map (request_of per_one) ds)
        × Each IsDeposit ds
        × Distinct id_of ds
  polls-delivers_once rpcs s current at_current honest =
      let start : Between (requests s.server.queue) [] s = record {
        current = current;
        at_current = at_current;
        queued = sym (append-nil (requests s.server.queue));
        distinct = tt;
        behind = tt;
      } in
      let (ds, b) = polls-Between rpcs s [] honest start in
      (ds, b.queued, Each-map _ _ (λ d p. p.0) ds b.behind, b.distinct)
