-- ===== src/Client/Signing.antt =====
-- client/lumendark_client/client.py, `_sign_request`: the headers of a request. The keypair of the
-- Stellar SDK is a parameter, and so is SHA-256.
pub mod Accepted
use lumendark.Common.{List, ◌∷◌, ◌++◌, ℕ, ℤ}
use lumendark.Texts.{Text, str}
use lumendark.Texts.Hex.{hex}
use lumendark.Api.Auth.{Headers}

pub record Keypair : Type 0 where
  pub public_key : Text
  pub sign : Text → List ℕ

-- `_sign_request`, at a reading of the clock
unfoldable pub sign_request : (Text → Text) → Keypair → ℤ → Text → Text → Text → Headers
sign_request sha256 keypair timestamp method path body =
    let message = method ++ b'|' ∷ (path ++ b'|' ∷ (sha256 body ++ b'|' ∷ str timestamp)) in
    record {
      address = keypair.public_key;
      signature = hex (keypair.sign message);
      timestamp = str timestamp;
    }
