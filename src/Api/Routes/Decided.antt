-- ===== src/Api/Routes/Decided.antt =====
-- The life of a message: what the status route answers once the handler has worked off the queue.
use lumendark.Common.{
  ℕ, ◌≡◌, ◌≢◌, refl, sym, ap, ◌∙◌, ◌⊎◌, inl, inr, some, List, [], ◌∷◌, Each, Distinct,
}
use lumendark.Common.Dict.{lookup, lookup-insert_self, lookup-insert_ne}
use lumendark.Models.Message.{Message, processing, accepted, rejected}
use lumendark.Storage.MessageStore.{MessageStore, update}
use lumendark.Executor.MessageHandler.{State, dispatch, process_message}
use lumendark.Executor.MessageHandler.Solvency.{IsSolvent}
use lumendark.Executor.MessageHandler.Keeping.{Same}
use lumendark.Executor.MessageHandler.Identity.{Keeps-dispatch, Same-catching}
use lumendark.Executor.MessageHandler.Processing.{process_all, process_message-Handled}
use lumendark.Api.Routes.{MessageStatusResponse, get_message_status, response_of}
use lumendark.Api.Routes.Replies.{found_status, status_of_lookup}

-- The route answers for the message, and the answer is final.
pub record Decided (store : MessageStore) (now : ℕ) (m : Message) : Type 0 where
  pub response : MessageStatusResponse
  pub found : get_message_status m.id store ≡ some response
  pub message_id : response.message_id ≡ m.id
  pub payload : response.payload ≡ m.payload
  pub created_at : response.created_at ≡ m.created_at
  pub final : (response.status ≡ accepted) ⊎ (response.status ≡ rejected)
  pub processed_at : response.processed_at ≡ some now

stamp :
    (m : Message) {now : ℕ}
    → (m.status ≡ processing) ⊎ (m.processed_at ≡ some now)
    → (m.status ≡ accepted) ⊎ (m.status ≡ rejected)
    → m.processed_at ≡ some now
stamp m (inl going) (inl yea) = absurd (cc (going, yea))
stamp m (inl going) (inr nay) = absurd (cc (going, nay))
stamp m (inr done) final = done

module _ (store : MessageStore) (s : State) where
  process_message-Same :
      Same
        (record s { message = record s.message { status = processing } })
        (process_message store s).1
  unfolding process_message
  process_message-Same =
      let t = record s { message = record s.message { status = processing } } in
      Same-catching t (dispatch s.message.payload t) (
        (Keeps-dispatch s.message.payload).keeps t t (record {
          id = refl;
          user_address = refl;
          payload = refl;
          created_at = refl;
          now = refl;
          stamped = inl refl;
        }))

  updated : (m m' : Message) (i : ℕ) → m'.id ≡ i → lookup i (update m' (update m store)) ≡ some m'
  updated m m' i e =
      ap (λ j. lookup j (update m' (update m store))) (sym e)
      ∙ lookup-insert_self m'.id m' (update m store)

  untouched :
      (m m' : Message) (i : ℕ)
      → i ≢ m'.id
      → i ≢ m.id
      → lookup i (update m' (update m store)) ≡ lookup i store
  untouched m m' i ne' ne =
      lookup-insert_ne i m'.id m' (update m store) ne' ∙ lookup-insert_ne i m.id m store ne

  -- The message is stored as it is left, and no other message is touched.
  process_message-stored :
      lookup s.message.id (process_message store s).0 ≡ some (process_message store s).1.message
  unfolding process_message
  process_message-stored =
      updated (record s.message { status = processing }) _ s.message.id process_message-Same.id

  process_message-others :
      (id : ℕ) → id ≢ s.message.id → lookup id (process_message store s).0 ≡ lookup id store
  unfolding process_message
  process_message-others id ne =
      untouched (record s.message { status = processing }) _ id
        (λ e. ne (e ∙ process_message-Same.id)) ne

  process_message-Decided : IsSolvent s → Decided (process_message store s).0 s.now s.message
  process_message-Decided h =
      let a = process_message-Same in
      let m' = (process_message store s).1.message in
      let decided : (m'.status ≡ accepted) ⊎ (m'.status ≡ rejected) =
        elim (process_message-Handled store s h).outcome [
          | inl yea ↦ inl yea.0
          | inr nay ↦ inr nay.0
        ] in
      record {
        response = response_of m';
        found = found_status (process_message store s).0 m' s.message.id process_message-stored;
        message_id = a.id;
        payload = a.payload;
        created_at = a.created_at;
        final = decided;
        processed_at = stamp m' a.stamped decided ∙ ap (λ (t : ℕ). some t) a.now;
      }

process_all-others :
    (ms : List (ℕ × Message)) (store : MessageStore) (s : State) (id : ℕ)
    → Each (λ (timed : ℕ × Message). timed.1.id ≢ id) ms
    → lookup id (process_all ms store s).0 ≡ lookup id store
process_all-others [] store s id h = refl
process_all-others ((now, m) ∷ ms) store s id h =
    let t = record s { message = m; now = now } in
    process_all-others ms (process_message store t).0 (process_message store t).1 id h.1
    ∙ process_message-others store t id (λ e. h.0 (sym e))

later :
    {store store' : MessageStore} {now : ℕ} (m : Message)
    → lookup m.id store' ≡ lookup m.id store
    → Decided store now m
    → Decided store' now m
later {store} {store'} m e d = record {
  response = d.response;
  found = status_of_lookup store' store m.id m.id e ∙ d.found;
  message_id = d.message_id;
  payload = d.payload;
  created_at = d.created_at;
  final = d.final;
  processed_at = d.processed_at;
}

-- Once the handler has worked off a queue of messages with different ids, each at its reading of
-- the clock, from a solvent state, the status route answers, for every message of the queue, with
-- its id, payload and creation time, a final status, accepted or rejected, and that reading as
-- the time of its processing; and for every id that is not in the queue it answers as before.
pub process_all-decides :
    (ms : List (ℕ × Message)) (store : MessageStore) (s : State)
    → IsSolvent s
    → Distinct (λ (timed : ℕ × Message). timed.1.id) ms
    → Each (λ (timed : ℕ × Message). Decided (process_all ms store s).0 timed.0 timed.1) ms
      × ((id : ℕ)
          → Each (λ (timed : ℕ × Message). timed.1.id ≢ id) ms
          → get_message_status id (process_all ms store s).0 ≡ get_message_status id store)
process_all-decides ms store s h d = (
  decides ms store s h d,
  λ id others. status_of_lookup _ store id id (process_all-others ms store s id others),
)
  where
    decides :
        (ms : List (ℕ × Message)) (store : MessageStore) (s : State)
        → IsSolvent s
        → Distinct (λ (timed : ℕ × Message). timed.1.id) ms
        → Each (λ (timed : ℕ × Message). Decided (process_all ms store s).0 timed.0 timed.1) ms
    decides [] store s h d = tt
    decides ((now, m) ∷ ms) store s h d =
        let t = record s { message = m; now = now } in
        let f = process_message-Handled store t (record { book = h.book; covers = h.covers }) in
        let store' = (process_message store t).0 in
        let s' = (process_message store t).1 in
        (
          later m (process_all-others ms store' s' m.id d.0)
              (process_message-Decided store t (record { book = h.book; covers = h.covers })),
          decides ms store' s' f.solvent d.1,
        )
