-- ===== src/Tests/Sent.antt =====
-- The client's requests, at a toy encoding of three bodies.
use lumendark.Common.{refl, Option, some, none, [], ◌∷◌, arith, pos, inl}
use lumendark.Common.Int.{◌-ℤ◌}
use lumendark.Models.Order.{Asset, parse_side}
use lumendark.Models.Message.{Payload, decimal, finite}
use lumendark.Texts.{Text}
use lumendark.Api.Routes
use lumendark.Api.Routes.Replies.{Submitted}
use lumendark.Client.Requests
use lumendark.Client.Requests.{
  Json, Reader, order_json, cancel_json, withdrawal_json, serve, order_body, cancel_body,
  withdrawal_body,
}
use lumendark.Client.Requests.Served.{requests-Submitted}
use lumendark.Tests.Requests.{server}
use lumendark.Tests.Signatures.{crypto, keypair, keypair-IsKeypair}

-- A body is told by the count of its fields.
abbrev dumps : Json → Text
dumps [] = []
dumps (entry ∷ json) = b'x' ∷ dumps json

abbrev loads : Text → Option Json
loads (_ ∷ []) = some (cancel_json "0")
loads (_ ∷ _ ∷ []) = some (withdrawal_json "a" "2")
loads (_ ∷ _ ∷ _ ∷ []) = some (order_json "buy" "5" "3")
loads _ = none

abbrev reader : Reader
reader = record {
  loads = loads;
  number = λ text. decimal (finite (pos 5));
  asset = λ text. Asset.a;
  order_id = λ text. some 0;
  user = λ address. 1;
}

requests-Submitted_example :
    Submitted server 1 (Payload.order "buy" (decimal (finite (pos 5))) (decimal (finite (pos 5)))) (
      serve reader
        (order_body reader)
        Routes.submit_order
        crypto
        (pos 1100)
        (Requests.submit_order dumps crypto.sha256 keypair (pos 1000) "buy" "5" "3")
        server)
    × Submitted server 1 (Payload.cancel (some 0)) (
        serve reader
          (cancel_body reader)
          Routes.cancel_order
          crypto
          (pos 1100)
          (Requests.cancel_order dumps crypto.sha256 keypair (pos 1000) "0")
          server)
    × Submitted server 1 (Payload.withdraw Asset.a (decimal (finite (pos 5)))) (
        serve reader
          (withdrawal_body reader)
          Routes.request_withdrawal
          crypto
          (pos 1100)
          (Requests.request_withdrawal dumps crypto.sha256 keypair (pos 1000) "a" "2")
          server)
unfolding ◌-ℤ◌ parse_side
requests-Submitted_example =
    requests-Submitted crypto keypair keypair-IsKeypair (pos 1000) (pos 1100) (omega arith) dumps
      reader server "buy" "5" "3" "0" "a" "2" refl (inl refl) refl refl refl
