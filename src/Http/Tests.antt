-- ===== src/Http/Tests.antt =====
-- A request that is answered with 401.
use charge_api.Prelude.{◌≡◌, ◌≢◌, ◌↔◌, ℕ, true, none, some, String}
use charge_api.Http.{resolved}
use charge_api.Http.Request.{Response, response, request_settle}
use charge_api.Http.Outcomes.{request_settle_lem}

abbrev unauthorized : Response String
unauthorized = record { status = 401; body = some none; json = resolved "" }

request_settle_lem_example :
    ((request_settle true "/api/piles" "failed" (response unauthorized)).1 ≡ true) ↔ (
      ◌≡◌ {A = ℕ} 401 401
      × (◌≢◌ {A = String} "/api/piles" "/api/auth/login")
      × (◌≢◌ {A = String} "/api/piles" "/api/auth/register")
      × (true ≡ true))
request_settle_lem_example = (request_settle_lem true "/api/piles" "failed" unauthorized).3
