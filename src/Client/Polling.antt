-- ===== src/Client/Polling.antt =====
-- client/lumendark_client/client.py: `_request` and `wait_for_acceptance`, and the exceptions of
-- exceptions.py. What the HTTP library answers to a poll, and what the clock shows after it, are
-- parameters, by the number of the poll. Texts of responses are passed on.
pub mod Returns
use Prim.Native.String.{String}
use text.Mathlib.Text.{◌==◌ as str_eq}
use lumendark.Common.{ℕ, zero, suc, Bool, Option, none, some, ltb, leb, ◌==◌, ◌||◌, if◌then◌else◌}

-- `LumenDarkError` and its subclasses
pub data ClientError : Type 0 where
  authentication_error not_found_error network_error : ClientError
  order_rejected_error : ℕ → String → ClientError
  timeout_error : ℕ → ClientError

pub data Outcome (A : Type 0) : Type 0 where
  returned : A → Outcome A
  raised : ClientError → Outcome A

-- What the HTTP library does: it raises a `RequestError`, or it has a response with a status code.
pub data HttpAnswer (A : Type 0) : Type 0 where
  request_error : HttpAnswer A
  response : ℕ → A → HttpAnswer A

-- The end of `_request`
unfoldable pub request : {A : Type 0} → HttpAnswer A → Outcome A
request request_error = raised network_error
request (response status_code json) =
    if status_code == 401
    then raised authentication_error
    else if status_code == 404
    then raised not_found_error
    else if leb 400 status_code
    then raised network_error
    else returned json

pub record StatusResponse : Type 0 where
  pub message_id : ℕ
  pub status : String
  pub rejection_reason : Option String
  pub order_id : Option ℕ
  pub trades_count : Option ℕ

abbrev pub is_pending : StatusResponse → Bool
is_pending r = str_eq r.status "pending" || str_eq r.status "processing"

abbrev pub is_accepted : StatusResponse → Bool
is_accepted r = str_eq r.status "accepted"

abbrev pub is_rejected : StatusResponse → Bool
is_rejected r = str_eq r.status "rejected"

-- `status.rejection_reason or "Unknown reason"`
unfoldable pub reason_of : Option String → String
reason_of none = "Unknown reason"
reason_of (some reason) = if str_eq reason "" then "Unknown reason" else reason

-- One round of the loop, behind `get_status`: how it ends the call, if it does.
unfoldable pub decide : ℕ → ℕ → Outcome StatusResponse → ℕ → Option (Outcome StatusResponse)
decide message_id timeout (raised e) elapsed = some (raised e)
decide message_id timeout (returned status) elapsed =
    if is_accepted status
    then some (returned status)
    else if is_rejected status
    then some (raised (order_rejected_error message_id (reason_of status.rejection_reason)))
    else if ltb timeout elapsed
    then some (raised (timeout_error message_id))
    else none

module _ (message_id timeout : ℕ) (answers : ℕ → HttpAnswer StatusResponse) (elapsed : ℕ → ℕ) where
  abbrev pub round : ℕ → Option (Outcome StatusResponse)
  round k = decide message_id timeout (request (answers k)) (elapsed k)

  -- The `while True` from the poll `k` on, with fuel; `none` means that the fuel ran out.
  unfoldable pub polling : ℕ → ℕ → Option (Outcome StatusResponse)
  polling zero k = none
  polling (suc fuel) k = elim (round k) [
    | some outcome ↦ some outcome
    | none ↦ polling fuel (suc k)
  ]

  unfoldable pub wait_for_acceptance : ℕ → Option (Outcome StatusResponse)
  unfolding polling
  wait_for_acceptance fuel = polling fuel 0
