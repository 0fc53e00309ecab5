-- ===== src/Http/Outcomes.antt =====
-- What a caller of `request` can rely on.
use charge_api.Prelude.{
  ℕ, ◌≤◌, ◌<◌, ◌≡◌, ◌≢◌, ◌↔◌, ◌⊎◌, inl, inr, arith, Bool, true, false, Option, none, some, String,
  List, [], ◌∷◌, str_eq, eq_iff, lookup, All, Option-cases, Bool-cases,
}
use charge_api.Http.{request_error, resolved, rejected}
use charge_api.Http.Errors.{
  Body, code_in, known_message, response_error_message, response_error, public_error_messages,
}
use charge_api.Http.Request.{Response, response, request_settle, as_value}

lookup-IsFilled :
    (code : String) (table : List (String × String)) (message : String)
    → All (λ e. str_eq e.1 "" ≡ false) table
    → lookup code table ≡ some message
    → str_eq message "" ≡ false
unfolding lookup
lookup-IsFilled code [] message h e = cc
lookup-IsFilled code ((k, v) ∷ table) message (f, h) e = elim (Bool-cases (str_eq k code)) [
  | inl same ↦ ground arith
  | inr other ↦ lookup-IsFilled code table message h (rw other at e)
]

table-IsFilled : All (λ e. str_eq e.1 "" ≡ false) public_error_messages
unfolding public_error_messages
table-IsFilled = ground arith

known_message-IsFilled :
    (code : Option String) (message : String)
    → known_message code ≡ some message
    → str_eq message "" ≡ false
unfolding known_message
known_message-IsFilled none message e = cc
known_message-IsFilled (some code) message e = elim (Bool-cases (str_eq code "")) [
  | inl empty ↦ absurd (let no_message : none ≡ some message = rw empty at e in cc)
  | inr other ↦ lookup-IsFilled code public_error_messages message table-IsFilled (rw other at e)
]

response_error-message :
    (status : ℕ) (body : Body) (fallback : String)
    → (response_error status body fallback).message ≡ response_error_message status body fallback
unfolding response_error response_error_message
response_error-message status body fallback = elim (Option-cases (known_message (code_in body))) [
  | inl unknown ↦ ground arith
  | inr (message, found) ↦ ground (arith, known_message-IsFilled (code_in body) message found)
]

-- How `request` ends with a response. It resolves to nothing exactly at status 204, and to the body
-- at any other success; any other status rejects with that status, the code of the body and the
-- message that `responseErrorMessage` gives. The window is told that the session has expired exactly
-- at status 401, if there is a window and the request was no login or registration.
pub request_settle_lem :
    {T : Type 0} (has_window : Bool) (path fallback : String) (r : Response T)
    → let (result, told) = request_settle has_window path fallback (response r) in
      (r.status ≡ 204 → result ≡ resolved none)
      × (200 ≤ r.status → r.status ≤ 299 → r.status ≢ 204 → result ≡ as_value r.json)
      × ((r.status < 200) ⊎ (299 < r.status)
          → result
            ≡ rejected (
                request_error
                  (response_error_message r.status r.body fallback)
                  r.status
                  (code_in r.body)))
      × ((told ≡ true) ↔ (
          (r.status ≡ 401)
          × (path ≢ "/api/auth/login")
          × (path ≢ "/api/auth/register")
          × (has_window ≡ true)))
unfolding request_settle
request_settle_lem {T} has_window path fallback r = (
  λ h. ground arith,
  λ p q ne. ground arith,
  λ h. ground (arith, response_error-message r.status r.body fallback),
  (
    λ h. ground (arith, eq_iff path "/api/auth/login", eq_iff path "/api/auth/register"),
    λ h. ground (arith, eq_iff path "/api/auth/login", eq_iff path "/api/auth/register"),
  ),
)
