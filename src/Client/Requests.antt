-- ===== src/Client/Requests.antt =====
-- client/lumendark_client/client.py, `_request` up to the sending, and the three calls that make a message;
-- and how the routes of backend/lumendark/api/routes read such a request. `json.dumps` and what FastAPI and
-- pydantic do with a body are parameters.
pub mod Served
use Prim.Native.String.{String}
use text.Mathlib.Text.{◌==◌ as str_eq}
use lumendark.Common.{ℕ, ℤ, Option, none, some, List, [], ◌∷◌, if◌then◌else◌}
use lumendark.Models.Order.{Asset}
use lumendark.Models.Message.{NumberText}
use lumendark.Texts.{Text}
use lumendark.Api.Auth.{
  Crypto, Request, Headers, Verdict, verified, unauthorized, verify_request_signature,
}
use lumendark.Api.Routes
use lumendark.Api.Routes.{Server, OrderRequest, CancelRequest, WithdrawalRequest}
use lumendark.Client.Signing.{Keypair, sign_request}

-- A JSON object whose values are texts.
abbrev pub Json : Type 0
Json = List (String × String)

pub record HttpRequest : Type 0 where
  pub request : Request
  pub headers : Headers

abbrev pub post : Text
post = b'P' ∷ b'O' ∷ b'S' ∷ b'T' ∷ []

abbrev pub orders_path : Text
orders_path = b'/' ∷ b'o' ∷ b'r' ∷ b'd' ∷ b'e' ∷ b'r' ∷ b's' ∷ []

abbrev pub cancel_path : Text
cancel_path =
    b'/' ∷ b'o' ∷ b'r' ∷ b'd' ∷ b'e' ∷ b'r' ∷ b's' ∷ b'/' ∷ b'c' ∷ b'a' ∷ b'n' ∷ b'c' ∷ b'e' ∷ b'l'
    ∷ []

abbrev pub withdrawals_path : Text
withdrawals_path =
    b'/' ∷ b'w' ∷ b'i' ∷ b't' ∷ b'h' ∷ b'd' ∷ b'r' ∷ b'a' ∷ b'w' ∷ b'a' ∷ b'l' ∷ b's' ∷ []

abbrev pub order_json : String → String → String → Json
order_json side price quantity = ("side", side) ∷ ("price", price) ∷ ("quantity", quantity) ∷ []

abbrev pub cancel_json : String → Json
cancel_json order_id = ("order_id", order_id) ∷ []

abbrev pub withdrawal_json : String → String → Json
withdrawal_json asset amount = ("asset", asset) ∷ ("amount", amount) ∷ []

-- The client, at a reading of the clock.
module _ (dumps : Json → Text) (sha256 : Text → Text) (keypair : Keypair) (timestamp : ℤ) where
  -- What `_request` sends: the body and the signed headers.
  abbrev pub body_of : Option Json → Text
  body_of none = []
  body_of (some json) = dumps json

  abbrev pub signed : Text → Text → Option Json → HttpRequest
  signed method path json = record {
    request = record { method = method; path = path; body = body_of json };
    headers = sign_request sha256 keypair timestamp method path (body_of json);
  }

  unfoldable pub submit_order : String → String → String → HttpRequest
  submit_order side price quantity = signed post orders_path (some (order_json side price quantity))

  unfoldable pub cancel_order : String → HttpRequest
  cancel_order order_id = signed post cancel_path (some (cancel_json order_id))

  unfoldable pub request_withdrawal : String → String → HttpRequest
  request_withdrawal asset amount =
      signed post withdrawals_path (some (withdrawal_json asset amount))

-- What the server's libraries make of texts: a body as a JSON object, a decimal's text, an asset's
-- name, the id of an order, and the user of an address.
pub record Reader : Type 0 where
  pub loads : Text → Option Json
  pub number : String → NumberText
  pub asset : String → Asset
  pub order_id : String → Option ℕ
  pub user : Text → ℕ

abbrev pub field : String → Json → Option String
field name [] = none
field name ((key, value) ∷ json) = if str_eq key name then some value else field name json

module _ (reader : Reader) where
  abbrev order_of : Option String → Option String → Option String → Option OrderRequest
  order_of (some side) (some price) (some quantity) =
      some (record { side = side; price = reader.number price; quantity = reader.number quantity })
  order_of _ _ _ = none

  abbrev cancel_of : Option String → Option CancelRequest
  cancel_of (some order_id) = some (record { order_id = reader.order_id order_id })
  cancel_of none = none

  abbrev withdrawal_of : Option String → Option String → Option WithdrawalRequest
  withdrawal_of (some asset) (some amount) =
      some (record { asset = reader.asset asset; amount = reader.number amount })
  withdrawal_of _ _ = none

  unfoldable pub order_body : Json → Option OrderRequest
  order_body json = order_of (field "side" json) (field "price" json) (field "quantity" json)

  unfoldable pub cancel_body : Json → Option CancelRequest
  cancel_body json = cancel_of (field "order_id" json)

  unfoldable pub withdrawal_body : Json → Option WithdrawalRequest
  withdrawal_body json = withdrawal_of (field "asset" json) (field "amount" json)

  module _ {B : Type 0} (body_of : Json → Option B)
      (route : B → ℕ → Server → Option ℕ × Server) where
    abbrev routed : ℕ → Server → Option B → Option ℕ × Server
    routed user_address srv none = (none, srv)
    routed user_address srv (some body) = route body user_address srv

    abbrev loaded : ℕ → Server → Option Json → Option ℕ × Server
    loaded user_address srv none = (none, srv)
    loaded user_address srv (some json) = routed user_address srv (body_of json)

    abbrev authorized : Server → Text → Verdict → Option ℕ × Server
    authorized srv body (unauthorized refusal) = (none, srv)
    authorized srv body (verified address) = loaded (reader.user address) srv (reader.loads body)

    -- A route behind its `Depends(verify_request_signature)` and its body's model: `none` is any
    -- refusal.
    unfoldable pub serve :
        {Key : Type 0} → Crypto Key → ℤ → HttpRequest → Server → Option ℕ × Server
    serve crypto now http srv =
        authorized srv http.request.body
          (verify_request_signature crypto now http.request http.headers)
