-- ===== src/Requests.antt =====
-- The API modules of the client: frontend/lib/watch-api.ts, wxpusher-api.ts, history-api.ts and
-- admin-api.ts. An API function is the request that it hands to `request`. `encodeURIComponent`, and the
-- text of `URLSearchParams`, belong to the host.
pub mod Watch
pub mod Channel
pub mod History
pub mod Admin
pub mod Filename
mod Tests
use charge_api.Prelude.{Option, none, some, String, List, [], ◌∷◌, concat}

pub data Method : Type 0 where
  get post patch put delete : Method

-- The path, the method, the payload that is sent as JSON, and the message for an error without one.
pub record ApiRequest {ℓ} (P : Type ℓ) : Type ℓ where
  pub path : String
  pub method : Method
  pub payload : Option P
  pub fallback : String

-- A request without a payload.
abbrev pub plain : Method → String → String → ApiRequest (Unit {0})
plain method path fallback = record {
  path = path;
  method = method;
  payload = none;
  fallback = fallback;
}

-- A request that sends a payload as JSON.
abbrev pub sending {ℓ} : {P : Type ℓ} → Method → String → P → String → ApiRequest P
sending method path payload fallback = record {
  path = path;
  method = method;
  payload = some payload;
  fallback = fallback;
}
