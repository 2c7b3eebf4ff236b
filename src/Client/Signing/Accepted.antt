-- ===== src/Client/Signing/Accepted.antt =====
-- The server verifies what the client signs.
use lumendark.Common.{ℕ, List, ◌≤◌, ◌≡◌, true, some, ℤ, ◌-ℤ◌}
use lumendark.Texts.{Text, parse_int-str}
use lumendark.Texts.Hex.{IsBytes, from_hex, from_hex-hex}
use lumendark.Api.Auth.{
  Crypto, Request, verified, verify_request_signature, verify_stellar_signature,
  create_sign_message, abs, signature_validity_seconds,
}
use lumendark.Api.Auth.Verified.{verify_request_signature-exact}
use lumendark.Client.Signing.{Keypair, sign_request}

-- What the SDK documents of a keypair: its public key is read back, its signatures are bytes, and each
-- verifies under that key.
pub record IsKeypair {Key : Type 0} (crypto : Crypto Key) (keypair : Keypair) : Type 0 where
  pub key : Key
  pub public : crypto.from_public_key keypair.public_key ≡ some key
  pub bytes : (message : Text) → IsBytes (keypair.sign message)
  pub verifies : (message : Text) → crypto.verify key message (keypair.sign message) ≡ true

verifies_of_parts :
    {Key : Type 0} (crypto : Crypto Key) (public_key message signature : Text) (key : Key)
    (bytes : List ℕ)
    → crypto.from_public_key public_key ≡ some key
    → from_hex signature ≡ some bytes
    → crypto.verify key message bytes ≡ true
    → verify_stellar_signature crypto public_key message signature ≡ true
unfolding verify_stellar_signature
verifies_of_parts crypto public_key message signature key bytes e f g =
    rw (verify_stellar_signature, e, f, g)

module _ {Key : Type 0} (crypto : Crypto Key) (keypair : Keypair) (pair : IsKeypair crypto keypair)
    (request : Request) (signed_at now : ℤ) where
  signature_verifies :
      verify_stellar_signature crypto keypair.public_key
        (create_sign_message crypto request.method request.path request.body signed_at)
        (sign_request crypto.sha256 keypair signed_at request.method request.path
          request.body).signature
      ≡ true
  unfolding create_sign_message sign_request
  signature_verifies =
      verifies_of_parts crypto keypair.public_key _ _ pair.key _ pair.public
        (from_hex-hex _ (pair.bytes _)) (pair.verifies _)

  -- For a keypair whose public key is read back and whose signatures are bytes that verify under
  -- it, what the client signs at one clock reading is verified by the server, with the keypair's
  -- address, at any clock reading at most 300 seconds away.
  pub sign_request-verified :
      abs (now -ℤ signed_at) ≤ signature_validity_seconds
      → verify_request_signature crypto now request
          (sign_request crypto.sha256 keypair signed_at request.method request.path request.body)
        ≡ verified keypair.public_key
  unfolding sign_request
  sign_request-verified fresh =
      (verify_request_signature-exact crypto now request
          (sign_request crypto.sha256 keypair signed_at request.method request.path request.body)).1
        (record {
          timestamp = signed_at;
          parsed = parse_int-str signed_at;
          fresh = fresh;
          signed = signature_verifies;
        })
