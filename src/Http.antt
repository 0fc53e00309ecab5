-- ===== src/Http.antt =====
-- frontend/lib/http.ts: how every request of the client ends.
pub mod Errors
pub mod Request
pub mod Outcomes
mod Tests
use charge_api.Prelude.{ℕ, Option, String}

-- What a promise rejects with: a `RequestError` with its status and code, or any other `Error`.
pub data Reason : Type 0 where
  request_error : (message : String) (status : ℕ) (code : Option String) → Reason
  other_error : (message : String) → Reason

-- `(reason as Error).message`.
abbrev pub message_of : Reason → String
message_of (request_error message _ _) = message
message_of (other_error message) = message

-- How a promise settles.
pub data Settled {ℓ} (A : Type ℓ) : Type ℓ where
  resolved : A → Settled A
  rejected : Reason → Settled A
