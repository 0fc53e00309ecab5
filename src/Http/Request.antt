-- ===== src/Http/Request.antt =====
-- `request` of frontend/lib/http.ts.
use charge_api.Prelude.{
  ℕ, ◌==◌, Bool, false, not, ◌&&◌, Option, none, some, String, leb, str_eq, if◌then◌else◌,
}
use charge_api.Http.{Reason, request_error, Settled, resolved, rejected}
use charge_api.Http.Errors.{Body, ResponseError, response_error}

-- A response: its status, what its body says if it is an error, and what `response.json()` gives.
pub record Response (T : Type 0) : Type 0 where
  pub status : ℕ
  pub body : Body
  pub json : Settled T

-- `response.ok`.
abbrev pub is_ok : ℕ → Bool
is_ok status = leb 200 status && leb status 299

-- How `fetch` ends: with a response, or rejected, with the two signals as they are at that moment.
-- The controller's is aborted by the timer, or by the caller's signal.
pub data Fetched (T : Type 0) : Type 0 where
  response : Response T → Fetched T
  failure : Reason → (controller_aborted external_aborted : Bool) → Fetched T

abbrev pub timeout_error : Reason
timeout_error = request_error "请求超时，请检查网络后重试" 0 none

-- Whether the window is told that the session has expired.
unfoldable pub tells_expired : Bool → String → ℕ → Bool
tells_expired has_window path status =
    status == 401
    && not (str_eq path "/api/auth/login")
    && not (str_eq path "/api/auth/register")
    && has_window

-- `undefined`, or the value that was sent.
abbrev pub as_value : {A : Type 0} → Settled A → Settled (Option A)
as_value (resolved a) = resolved (some a)
as_value (rejected reason) = rejected reason

module _ {T : Type 0} (has_window : Bool) (path fallback : String) where
  abbrev pub as_error : ResponseError → ℕ → Settled (Option T)
  as_error e status = rejected (request_error e.message status e.code)

  -- The result, and whether `sessionExpiredEvent` is dispatched.
  unfoldable pub request_settle : Fetched T → Settled (Option T) × Bool
  unfolding tells_expired response_error
  request_settle (failure reason controller_aborted external_aborted) = (
    rejected (if controller_aborted && not external_aborted then timeout_error else reason),
    false,
  )
  request_settle (response r) =
      if not (is_ok r.status) && not (r.status == 204)
      then (
        as_error (response_error r.status r.body fallback) r.status,
        tells_expired has_window path r.status,
      )
      else if r.status == 204
      then (resolved none, false)
      else (as_value r.json, false)
