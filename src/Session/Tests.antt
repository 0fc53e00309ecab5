-- ===== src/Session/Tests.antt =====
-- A visit, and a visit that is left while the snapshot is on its way.
use charge_api.Prelude.{true, none}
use charge_api.Types.{CurrentUser, user}
use charge_api.Session.{State}

abbrev me : CurrentUser
me = record {
  id = "u1";
  username = "li";
  role = user;
  enabled = true;
  created_at = "";
  device_limit = 3;
  refresh_enabled = true;
  must_change_password = none;
  usage_guide_ack_at = none;
}

-- The state while the first snapshot is on its way.
abbrev waiting : State
waiting = record { authorized = true; initial_loading = true; error = none; version = 1 }
