-- ===== src/Auth/Tests.antt =====
-- A client that signs in, meets a failure, and is told that its session has expired.
use charge_api.Prelude.{◌≡◌, true, none, some, List, [], ◌∷◌}
use charge_api.Types.{CurrentUser, user}
use charge_api.Http.{resolved, rejected, request_error, other_error}
use charge_api.Auth.{initial}
use charge_api.Auth.Sessions.{
  Event, fetch_me, fetch_me_reply, sign_in_reply, logout_reply, run, run_lem,
}

abbrev me : CurrentUser
me = record {
  id = "u1";
  username = "li";
  role = user;
  enabled = true;
  created_at = "";
  device_limit = 3;
  refresh_enabled = true;
  must_change_password = none;
  usage_guide_ack_at = none;
}

abbrev events : List Event
events =
    fetch_me
    ∷ fetch_me_reply (rejected (request_error "" 401 none))
    ∷ sign_in_reply (resolved me)
    ∷ fetch_me_reply (rejected (request_error "" 500 none))
    ∷ logout_reply (rejected (other_error "offline"))
    ∷ []

run_lem_example :
    ((run events initial).current_user ≡ some me)
    × (initial.ready ≡ true → (run events initial).ready ≡ true)
run_lem_example = run_lem events initial
