-- ===== src/Client/Requests/Served.antt =====
-- The server takes what the client sends.
use Prim.Native.String.{String}
use lumendark.Common.{ℕ, ℤ, ◌≡◌, ◌≤◌, ◌-ℤ◌, ap, ◌∙◌, true, Option, some, is_some, ◌⊎◌, inl, inr}
use lumendark.Models.Order.{Asset, parse_side}
use lumendark.Models.Message.{Payload}
use lumendark.Texts.{Text}
use lumendark.Api.Auth.{Crypto, abs, signature_validity_seconds}
use lumendark.Api.Routes
use lumendark.Api.Routes.{Server, OrderRequest, CancelRequest, WithdrawalRequest}
use lumendark.Api.Routes.Replies.{Submitted, submit-Submitted}
use lumendark.Client.Signing.{Keypair}
use lumendark.Client.Signing.Accepted.{IsKeypair, sign_request-verified}
use lumendark.Client.Requests.{
  order_json, cancel_json, withdrawal_json, Json, Reader, signed, post, submit_order, cancel_order,
  request_withdrawal, orders_path, cancel_path, withdrawals_path, order_body, cancel_body,
  withdrawal_body, serve, routed, authorized, loaded,
}

-- A body is read back as it was written.
abbrev pub Reads : (Json → Text) → Reader → Json → Type 0
Reads dumps reader json = reader.loads (dumps json) ≡ some json

module _ {Key : Type 0} (crypto : Crypto Key) (keypair : Keypair) (pair : IsKeypair crypto keypair)
    (signed_at now : ℤ) (fresh : abs (now -ℤ signed_at) ≤ signature_validity_seconds)
    (dumps : Json → Text) (reader : Reader) (srv : Server) where
  -- A route is called with the client's user and the body that was sent.
  serve-signed :
      {B : Type 0} (body_of : Json → Option B) (route : B → ℕ → Server → Option ℕ × Server)
      (path : Text) (json : Json)
      → reader.loads (dumps json) ≡ some json
      → serve reader body_of route crypto now
          (signed dumps crypto.sha256 keypair signed_at post path (some json))
          srv
        ≡ routed reader body_of route (reader.user keypair.public_key) srv (body_of json)
  unfolding serve
  serve-signed body_of route path json loads =
      ap (authorized reader body_of route srv (dumps json)) (
        sign_request-verified crypto keypair pair
          (record { method = post; path = path; body = dumps json }) signed_at now fresh)
      ∙ ap (loaded reader body_of route (reader.user keypair.public_key) srv) loads

  -- For a keypair whose public key is read back and whose signatures are bytes that verify under
  -- it, clocks at most 300 seconds apart, and bodies that are read back as they were written: the
  -- server takes the client's order with a side "buy" or "sell", its cancellation, and its
  -- withdrawal of the asset "a" or "b"; for each it answers with a new id, under which it stores
  -- a pending message of the client's user with the request's content, it queues that message
  -- behind the earlier ones, and the status of any other id is as before.
  pub requests-Submitted :
      (side price quantity order_id asset amount : String)
      → is_some (parse_side side) ≡ true
      → (reader.asset asset ≡ Asset.a) ⊎ (reader.asset asset ≡ Asset.b)
      → Reads dumps reader (order_json side price quantity)
      → Reads dumps reader (cancel_json order_id)
      → Reads dumps reader (withdrawal_json asset amount)
      → Submitted srv
          (reader.user keypair.public_key)
          (Payload.order side (reader.number price) (reader.number quantity))
          (serve reader
            (order_body reader)
            Routes.submit_order
            crypto
            now
            (submit_order dumps crypto.sha256 keypair signed_at side price quantity)
            srv)
        × Submitted srv
            (reader.user keypair.public_key)
            (Payload.cancel (reader.order_id order_id))
            (serve reader
              (cancel_body reader)
              Routes.cancel_order
              crypto
              now
              (cancel_order dumps crypto.sha256 keypair signed_at order_id)
              srv)
        × Submitted srv
            (reader.user keypair.public_key)
            (Payload.withdraw (reader.asset asset) (reader.number amount))
            (serve reader
              (withdrawal_body reader)
              Routes.request_withdrawal
              crypto
              now
              (request_withdrawal dumps crypto.sha256 keypair signed_at asset amount)
              srv)
  unfolding submit_order cancel_order request_withdrawal order_body cancel_body withdrawal_body
      Routes.submit_order Routes.cancel_order Routes.request_withdrawal
  requests-Submitted side price quantity order_id asset amount taken real reads_order reads_cancel
        reads_withdrawal =
      (
        rw (serve-signed (order_body reader) Routes.submit_order orders_path _ reads_order, taken)
            (submit-Submitted srv _ _),
        rw (serve-signed (cancel_body reader) Routes.cancel_order cancel_path _ reads_cancel)
            (submit-Submitted srv _ _),
        rw
            (serve-signed (withdrawal_body reader) Routes.request_withdrawal withdrawals_path _
              reads_withdrawal)
            (elim real [
              | inl e ↦ rw e (submit-Submitted srv _ _)
              | inr e ↦ rw e (submit-Submitted srv _ _)
            ]),
      )
