-- ===== src/Api/Auth/Verified.antt =====
-- Which requests are verified.
use lumendark.Common.{
  ◌≤◌, ◌≡◌, refl, true, false, Option, none, some, arith, ltb, ℤ, ◌-ℤ◌, Bool-cases, inl, inr,
}
use lumendark.Texts.{Text, parse_int}
use lumendark.Api.Auth.{
  Crypto, Request, Headers, verified, verify_at, verify_request_signature, verify_stellar_signature,
  create_sign_message, abs, signature_validity_seconds,
}

-- The request carries a timestamp within the window and a signature of the request under its address.
pub record IsAuthentic {Key : Type 0} (crypto : Crypto Key) (now : ℤ) (request : Request)
    (headers : Headers) : Type 0 where
  pub timestamp : ℤ
  pub parsed : parse_int headers.timestamp ≡ some timestamp
  pub fresh : abs (now -ℤ timestamp) ≤ signature_validity_seconds
  pub signed :
      verify_stellar_signature crypto headers.address
        (create_sign_message crypto request.method request.path request.body timestamp)
        headers.signature
      ≡ true

module _ {Key : Type 0} (crypto : Crypto Key) (now : ℤ) (request : Request)
    (headers : Headers) where
  verify_at_sound :
      (o : Option ℤ) (address : Text)
      → parse_int headers.timestamp ≡ o
      → verify_at crypto now request headers o ≡ verified address
      → (address ≡ headers.address) × IsAuthentic crypto now request headers
  unfolding verify_at
  verify_at_sound none address e h = cc
  verify_at_sound (some timestamp) address e h =
      elim (Bool-cases (ltb signature_validity_seconds (abs (now -ℤ timestamp)))) [
        | inl old ↦ cc (rw old at h)
        | inr fresh ↦
            elim (Bool-cases (
              verify_stellar_signature crypto headers.address
                (create_sign_message crypto request.method request.path request.body timestamp)
                headers.signature)) [
                  | inl signed ↦ (
                    cc (rw (fresh, signed) at h),
                    record {
                      timestamp = timestamp;
                      parsed = e;
                      fresh = ground arith;
                      signed = signed;
                    },
                  )
                  | inr forged ↦ cc (rw (fresh, forged) at h)
                ]
      ]

  -- `verify_request_signature` answers with an address exactly when the timestamp header is an
  -- integer at most 300 seconds from the clock, in the past or in the future, and the signature
  -- of the request with that timestamp verifies under the address header; the answer is then that
  -- address.
  pub verify_request_signature-exact :
      ((address : Text)
        → verify_request_signature crypto now request headers ≡ verified address
        → (address ≡ headers.address) × IsAuthentic crypto now request headers)
      × (IsAuthentic crypto now request headers
          → verify_request_signature crypto now request headers ≡ verified headers.address)
  unfolding verify_request_signature
  verify_request_signature-exact =
      ((λ address h. verify_at_sound (parse_int headers.timestamp) address refl h), complete)
    where
      complete :
          IsAuthentic crypto now request headers
          → verify_request_signature crypto now request headers ≡ verified headers.address
      complete a =
          let fresh : ltb signature_validity_seconds (abs (now -ℤ a.timestamp)) ≡ false =
            ground arith in
          rw (a.parsed, fresh, a.signed)
