-- ===== src/Api/Routes/Replies.antt =====
-- What the routes answer and leave behind.
use lumendark.Common.{
  ℕ, ◌≡◌, ◌≢◌, refl, true, false, Option, none, some, [], ◌∷◌, ◌++◌, ok, is_some, inl, inr,
  Option-cases,
}
use lumendark.Common.Dict.{lookup, lookup-insert_self, lookup-insert_ne}
use lumendark.Models.Order.{Asset, parse_side}
use lumendark.Models.Message.{Message, Payload, create_message}
use lumendark.Storage.UserStore.{UserStore, get_available, get_liabilities, reading}
use lumendark.Storage.UserStore.Holdings.{holding}
use lumendark.Storage.MessageStore.{MessageStore}
use lumendark.Api.Routes.{
  Server, OrderRequest, CancelRequest, submit, submit_order, cancel_order, get_message_status,
  get_user_balance, response_of,
}

-- After a request is taken: its id is new, the status of that id is the pending message, the message is
-- the last of the queue, and the status of any other id is as before.
pub record Submitted (srv : Server) (user_address : ℕ) (payload : Payload)
    (result : Option ℕ × Server) : Type 0 where
  pub reply : result.0 ≡ some srv.next
  pub found :
      get_message_status srv.next result.1.messages
      ≡ some (response_of (create_message srv.next srv.now user_address payload))
  pub queued :
      result.1.queue ≡ srv.queue ++ create_message srv.next srv.now user_address payload ∷ []
  pub others :
      (id : ℕ)
      → id ≢ srv.next
      → get_message_status id result.1.messages ≡ get_message_status id srv.messages

pub status_of_lookup :
    (store store' : MessageStore) (i j : ℕ)
    → lookup i store ≡ lookup j store'
    → get_message_status i store ≡ get_message_status j store'
unfolding get_message_status
status_of_lookup store store' i j e = rw (get_message_status, e)

pub found_status :
    (store : MessageStore) (m : Message) (i : ℕ)
    → lookup i store ≡ some m
    → get_message_status i store ≡ some (response_of m)
unfolding get_message_status
found_status store m i e = rw (get_message_status, e)

pub submit-Submitted :
    (srv : Server) (user_address : ℕ) (payload : Payload)
    → Submitted srv user_address payload (submit user_address payload srv)
unfolding submit create_message
submit-Submitted srv user_address payload = record {
  reply = refl;
  found = found_status _ _ srv.next (lookup-insert_self srv.next _ srv.messages);
  queued = refl;
  others = λ id ne.
      status_of_lookup _ srv.messages id id (lookup-insert_ne id srv.next _ srv.messages ne);
}

-- For a side "buy" or "sell", the route for a new order answers with a fresh id, the status under
-- that id is the pending message of the request, the message is queued behind the earlier ones,
-- and the status under any other id is as before; for any other side it is refused and nothing
-- changes.
pub submit_order-Submitted :
    (srv : Server) (user_address : ℕ) (order : OrderRequest)
    → (is_some (parse_side order.side) ≡ true
        → Submitted srv user_address
            (Payload.order order.side order.price order.quantity)
            (submit_order order user_address srv))
      × (is_some (parse_side order.side) ≡ false
          → submit_order order user_address srv ≡ (none, srv))
unfolding submit_order
submit_order-Submitted srv user_address order = (
  (λ taken.
      rw taken
        (submit-Submitted srv user_address (Payload.order order.side order.price order.quantity))),
  (λ refused. rw refused refl),
)

pub cancel_order-Submitted :
    (srv : Server) (user_address : ℕ) (cancel : CancelRequest)
    → Submitted srv user_address
        (Payload.cancel cancel.order_id)
        (cancel_order cancel user_address srv)
unfolding cancel_order
cancel_order-Submitted srv user_address cancel =
    submit-Submitted srv user_address (Payload.cancel cancel.order_id)

-- The route for balances answers, for a stored user and for an unknown one, with the available
-- balance and the liabilities that the user store holds for each of the two assets, and no reader
-- raises.
pub get_user_balance-holding :
    (users : UserStore) (user_address : ℕ)
    → get_user_balance user_address users ≡ record {
      user_address = user_address;
      asset_a_available = ok (holding users user_address Asset.a).available;
      asset_a_liabilities = ok (holding users user_address Asset.a).liabilities;
      asset_b_available = ok (holding users user_address Asset.b).available;
      asset_b_liabilities = ok (holding users user_address Asset.b).liabilities;
    }
unfolding get_user_balance get_available get_liabilities holding
get_user_balance-holding users user_address = elim (Option-cases (lookup user_address users)) [
  | inl unknown ↦ rw (reading, unknown) refl
  | inr (us, known) ↦ rw (reading, known) refl
]
