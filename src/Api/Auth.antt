-- ===== src/Api/Auth.antt =====
-- backend/lumendark/api/auth.py: signed requests. Texts are the lists of their bytes, which for the
-- characters of a request line are their UTF-8. SHA-256 and the calls of the Stellar SDK are parameters.
pub mod Verified
pub mod Distinct
use lumendark.Common.{
  ℕ, ◌+◌, Bool, true, false, Option, none, some, List, [], ◌∷◌, ◌++◌, ltb, if◌then◌else◌, ℤ,
  pos_part, neg_part, ◌-ℤ◌,
}
use lumendark.Texts.{Text, str, parse_int}
use lumendark.Texts.Hex.{from_hex}

-- `from_public_key` is `none` where it raises, and `verify` is `false` where it raises.
pub record Crypto (Key : Type 0) : Type 0 where
  pub sha256 : Text → Text
  pub from_public_key : Text → Option Key
  pub verify : Key → Text → List ℕ → Bool

abbrev pub signature_validity_seconds : ℕ
signature_validity_seconds = 300

abbrev pub abs : ℤ → ℕ
abs n = pos_part n + neg_part n

module _ {Key : Type 0} (crypto : Crypto Key) where
  unfoldable pub verify_stellar_signature : Text → Text → Text → Bool
  verify_stellar_signature public_key message signature = elim (crypto.from_public_key public_key) [
    | none ↦ false
    | some key ↦ elim (from_hex signature) [
      | none ↦ false
      | some bytes ↦ crypto.verify key message bytes
    ]
  ]

  unfoldable pub create_sign_message : Text → Text → Text → ℤ → Text
  create_sign_message method path body timestamp =
      method ++ b'|' ∷ (path ++ b'|' ∷ (crypto.sha256 body ++ b'|' ∷ str timestamp))

-- What `verify_request_signature` reads of the request, and its result: the address, or the
-- `HTTPException` with status 401.
pub record Request : Type 0 where
  pub method : Text
  pub path : Text
  pub body : Text

pub record Headers : Type 0 where
  pub address : Text
  pub signature : Text
  pub timestamp : Text

pub data Refusal : Type 0 where
  invalid_timestamp expired_timestamp invalid_signature : Refusal

pub data Verdict : Type 0 where
  verified : Text → Verdict
  unauthorized : Refusal → Verdict

module _ {Key : Type 0} (crypto : Crypto Key) where
  unfoldable pub verify_at : ℤ → Request → Headers → Option ℤ → Verdict
  verify_at current_time request headers none = unauthorized invalid_timestamp
  verify_at current_time request headers (some timestamp) =
      if ltb signature_validity_seconds (abs (current_time -ℤ timestamp))
      then unauthorized expired_timestamp
      else if verify_stellar_signature crypto headers.address
          (create_sign_message crypto request.method request.path request.body timestamp)
          headers.signature
      then verified headers.address
      else unauthorized invalid_signature

  -- `verify_request_signature`, at a reading of the clock
  unfoldable pub verify_request_signature : ℤ → Request → Headers → Verdict
  unfolding verify_at
  verify_request_signature current_time request headers =
      verify_at current_time request headers (parse_int headers.timestamp)
