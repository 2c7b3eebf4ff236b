-- ===== src/Tests/Signatures.antt =====
-- The theorems on signed requests, at a toy signature: the sum of the bytes.
use Prim.Native.Nat.{◌%◌}
use lumendark.Common.{
  ℕ, ◌+◌, ◌≡◌, refl, Bool, false, some, List, [], ◌∷◌, ◌==◌, eq→==, arith, ℤ, pos,
}
use lumendark.Common.Int.{◌-ℤ◌}
use lumendark.Texts.{Text}
use lumendark.Texts.Hex.{IsBytes}
use lumendark.Texts.Fields.{Avoids}
use lumendark.Api.Auth.{
  Crypto, Request, Headers, verified, verify_request_signature, create_sign_message,
}
use lumendark.Api.Auth.Verified.{IsAuthentic, verify_request_signature-exact}
use lumendark.Api.Auth.Distinct.{create_sign_message-injective}
use lumendark.Client.Signing.{Keypair, sign_request}
use lumendark.Client.Signing.Accepted.{IsKeypair, sign_request-verified}

abbrev byte_sum : Text → ℕ
byte_sum [] = 0
byte_sum (c ∷ text) = c + byte_sum text

abbrev tag : Text → ℕ
tag message = byte_sum message % 256

abbrev is_tag : ℕ → List ℕ → Bool
is_tag n (byte ∷ []) = n == byte
is_tag n _ = false

-- A digest that is the same for all texts, and a key that is its own text.
abbrev pub crypto : Crypto Text
crypto = record {
  sha256 = λ text. b'0' ∷ b'f' ∷ [];
  from_public_key = λ text. some text;
  verify = λ key message bytes. is_tag (tag message) bytes;
}

abbrev pub keypair : Keypair
keypair = record { public_key = b'G' ∷ []; sign = λ message. tag message ∷ [] }

tag-IsBytes : (message : Text) → IsBytes (keypair.sign message)
tag-IsBytes message = (omega arith, tt)

pub keypair-IsKeypair : IsKeypair crypto keypair
keypair-IsKeypair = record {
  key = b'G' ∷ [];
  public = refl;
  bytes = tag-IsBytes;
  verifies = λ message. eq→== (tag message) (tag message) refl;
}

abbrev request : Request
request = record { method = b'G' ∷ b'E' ∷ b'T' ∷ []; path = b'/' ∷ []; body = [] }

abbrev headers : Headers
headers = sign_request crypto.sha256 keypair (pos 1000) request.method request.path request.body

verify_request_signature-exact_example :
    ((address : Text)
      → verify_request_signature crypto (pos 1100) request headers ≡ verified address
      → (address ≡ headers.address) × IsAuthentic crypto (pos 1100) request headers)
    × (IsAuthentic crypto (pos 1100) request headers
        → verify_request_signature crypto (pos 1100) request headers ≡ verified headers.address)
verify_request_signature-exact_example =
    verify_request_signature-exact crypto (pos 1100) request headers

sign_request-verified_example :
    verify_request_signature crypto (pos 1100) request headers ≡ verified keypair.public_key
unfolding ◌-ℤ◌
sign_request-verified_example =
    sign_request-verified crypto keypair keypair-IsKeypair request (pos 1000) (pos 1100)
      (omega arith)

digest-Avoids : (text : Text) → Avoids b'|' (crypto.sha256 text)
digest-Avoids text = ground arith

method-Avoids : Avoids b'|' request.method
method-Avoids = ground arith

create_sign_message-injective_example :
    (request.method ≡ request.method)
    × (request.path ≡ request.path)
    × (crypto.sha256 [] ≡ crypto.sha256 (b'x' ∷ []))
    × (◌≡◌ {A = ℤ} (pos 1000) (pos 1000))
unfolding create_sign_message
create_sign_message-injective_example =
    create_sign_message-injective crypto request.method request.path [] request.method request.path
      (b'x' ∷ []) (pos 1000) (pos 1000) digest-Avoids method-Avoids method-Avoids refl
