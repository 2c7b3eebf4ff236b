-- ===== src/Blockchain/EventListener/Delivery.antt =====
-- Which deposits a page of events delivers.
use mathlib.Core.List.{append-nil, append_assoc, map-append}
use lumendark.Common.{
  ℕ, ◌≡◌, ◌≢◌, refl, sym, ap, ◌∙◌, true, false, none, some, List, [], ◌∷◌, ◌++◌, map, arith, Each,
  Distinct, Bool-cases, Option-cases, ◌⊎◌, inl, inr,
}
use lumendark.Models.Message.{Message, Payload, create_message}
use lumendark.Api.Routes.{submit}
use lumendark.Models.Order.{Asset}
use lumendark.Blockchain.Client.{Event}
use lumendark.Blockchain.Decoding.{DepositData, decode_deposit_event}
use lumendark.Blockchain.EventListener.{Page, member, handle_event, handle_events, deposit_payload}

-- An event with what it was decoded to.
pub record Deposit : Type 0 where
  pub event : Event
  pub details : DepositData

abbrev pub requests : List Message → List (ℕ × Payload)
requests = map (λ (m : Message). (m.user_address, m.payload))

abbrev pub request_of : (Asset → ℕ) → Deposit → ℕ × Payload
request_of per_one d = (d.details.user_address, deposit_payload per_one d.event d.details)

-- The ids of the deposits, the last one first, before the earlier ones.
abbrev pub ids_onto : List Deposit → List ℕ → List ℕ
ids_onto [] ids = ids
ids_onto (d ∷ ds) ids = ids_onto ds (d.event.id ∷ ids)

-- An event is no deposit, or its id is among the processed ones.
abbrev pub IsDone : List ℕ → Event → Type 0
IsDone ids e = (decode_deposit_event e.topic e.value ≡ none) ⊎ (member e.id ids ≡ true)

-- The deposits come from events of the list, in its order.
pub data Chosen : List Deposit → List Event → Type 0 where
  nothing : Chosen [] []
  pass : {ds : List Deposit} {es : List Event} (e : Event) → Chosen ds es → Chosen ds (e ∷ es)
  choose :
      {ds : List Deposit} {es : List Event} (d : Deposit)
      → Chosen ds es
      → Chosen (d ∷ ds) (d.event ∷ es)

pub record Delivered (per_one : Asset → ℕ) (events : List Event) (before after : Page)
    : Type 0 where
  pub deposits : List Deposit
  pub chosen : Chosen deposits events
  pub decoded :
      Each (λ d. decode_deposit_event d.event.topic d.event.value ≡ some d.details) deposits
  pub queued :
      requests after.server.queue
      ≡ requests before.server.queue ++ map (request_of per_one) deposits
  pub processed : after.processed ≡ ids_onto deposits before.processed
  pub distinct : Distinct (λ id. id) after.processed
  pub complete : Each (IsDone after.processed) events

pub not-member : (id : ℕ) (ids : List ℕ) → member id ids ≡ false → Each (λ other. other ≢ id) ids
not-member id [] h = tt
not-member id (other ∷ ids) h = ground (arith, not-member id ids)

module _ (per_one : Asset → ℕ) where
  pub member-handle_event :
      (id : ℕ) (e : Event) (page : Page)
      → member id page.processed ≡ true
      → member id (handle_event per_one e page).processed ≡ true
  unfolding handle_event
  member-handle_event id e page h = elim (Bool-cases (member e.id page.processed)) [
    | inl seen ↦ rw seen h
    | inr fresh ↦ elim (Option-cases (decode_deposit_event e.topic e.value)) [
      | inl no_deposit ↦ rw (fresh, no_deposit) h
      | inr (d, is_deposit) ↦ rw (fresh, is_deposit) (ground arith)
    ]
  ]

  member-handle_events :
      (id : ℕ) (events : List Event) (page : Page)
      → member id page.processed ≡ true
      → member id (handle_events per_one events page).processed ≡ true
  unfolding handle_events
  member-handle_events id [] page h = h
  member-handle_events id (e ∷ events) page h =
      member-handle_events id events (handle_event per_one e page) (member-handle_event id e page h)

  pub handle_event_seen :
      (e : Event) (page : Page)
      → member e.id page.processed ≡ true
      → handle_event per_one e page ≡ page
  unfolding handle_event
  handle_event_seen e page seen = rw seen

  pub handle_event_no_deposit :
      (e : Event) (page : Page)
      → decode_deposit_event e.topic e.value ≡ none
      → handle_event per_one e page ≡ page
  unfolding handle_event
  handle_event_no_deposit e page h = elim (Bool-cases (member e.id page.processed)) [
    | inl seen ↦ rw seen
    | inr fresh ↦ rw (fresh, h)
  ]

  pub handle_event_deposit :
      (e : Event) (d : DepositData) (page : Page)
      → member e.id page.processed ≡ false
      → decode_deposit_event e.topic e.value ≡ some d
      → ((handle_event per_one e page).processed ≡ e.id ∷ page.processed)
        × (requests (handle_event per_one e page).server.queue
            ≡ requests page.server.queue
              ++ request_of per_one (record { event = e; details = d }) ∷ [])
  unfolding handle_event submit create_message
  handle_event_deposit e d page fresh is_deposit =
      rw (fresh, is_deposit) (rw fresh refl, map-append _ page.server.queue _)

  skipped :
      {e : Event} {events : List Event} {page after : Page}
      → IsDone after.processed e
      → Delivered per_one events page after
      → Delivered per_one (e ∷ events) page after
  skipped {e} done d = record {
    deposits = d.deposits;
    chosen = pass e d.chosen;
    decoded = d.decoded;
    queued = d.queued;
    processed = d.processed;
    distinct = d.distinct;
    complete = (done, d.complete);
  }

  delivered :
      {e : Event} {d : DepositData} {events : List Event} {page next after : Page}
      → decode_deposit_event e.topic e.value ≡ some d
      → next.processed ≡ e.id ∷ page.processed
      → requests next.server.queue
        ≡ requests page.server.queue ++ request_of per_one (record { event = e; details = d }) ∷ []
      → member e.id after.processed ≡ true
      → Delivered per_one events next after
      → Delivered per_one (e ∷ events) page after
  delivered {e} {d} {page = page} is_deposit processed queued kept rest = record {
    deposits = record { event = e; details = d } ∷ rest.deposits;
    chosen = choose _ rest.chosen;
    decoded = (is_deposit, rest.decoded);
    queued = rest.queued ∙ rw queued (append_assoc (requests page.server.queue) _ _);
    processed = rest.processed ∙ ap (ids_onto rest.deposits) processed;
    distinct = rest.distinct;
    complete = (inr kept, rest.complete);
  }

  -- From processed ids that are distinct, the handling of a page queues, behind the earlier
  -- messages and in the order of the page, the deposit messages of some of its events that decode
  -- to deposits; their ids are added to the processed ones, which stay distinct, and each event
  -- of the page then is no deposit or has a processed id.
  pub handle_events-Delivered :
      (events : List Event) (page : Page)
      → Distinct (λ id. id) page.processed
      → Delivered per_one events page (handle_events per_one events page)
  unfolding handle_events
  handle_events-Delivered [] page distinct = record {
    deposits = [];
    chosen = nothing;
    decoded = tt;
    queued = sym (append-nil (requests page.server.queue));
    processed = refl;
    distinct = distinct;
    complete = tt;
  }
  handle_events-Delivered (e ∷ events) page distinct =
      elim (Bool-cases (member e.id page.processed)) [
        | inl seen ↦ rw (handle_event_seen e page seen) (
            skipped (inr (member-handle_events e.id events page seen))
              (handle_events-Delivered events page distinct))
        | inr fresh ↦ elim (Option-cases (decode_deposit_event e.topic e.value)) [
          | inl no_deposit ↦
              rw (handle_event_no_deposit e page no_deposit)
                (skipped (inl no_deposit) (handle_events-Delivered events page distinct))
          | inr (d, is_deposit) ↦
              let (processed, queued) = handle_event_deposit e d page fresh is_deposit in
              delivered is_deposit processed queued
                (member-handle_events e.id events _ (rw processed (ground arith)))
                (handle_events-Delivered events _
                  (rw processed (not-member e.id page.processed fresh, distinct)))
        ]
      ]
