-- ===== src/Prototype/Seed.antt =====
-- `initialData` of frontend/app/prototype/model.ts: the sample data of the preview.
use charge_api.Prelude.{true, false, [], ◌∷◌}
use charge_api.Types.Admin.{healthy, RegistrationSettings}
use charge_api.Prototype.Model.{
  user, light, pile_available, pile_offline, pile_recovered, credential_expired, no_test,
  PrototypeData,
}
use charge_api.Prototype.Fixtures.{snapshot_at, piles}
use charge_api.Prototype.Samples.{watches, notices, users, incidents, audit, invites}

abbrev settings : RegistrationSettings
settings = record {
  open_registration = true;
  invite_required = true;
  default_device_limit = 10;
  default_refresh_enabled = true;
  stats_retention_days = 30;
  port_history_retention_days = 90;
  background_reminders_enabled = true;
  recurring_reminders_enabled = false;
  watch_refresh_interval_minutes = 5;
  watch_pile_limit_per_user = 3;
  watch_daily_refresh_quota = 120;
  notification_retention_days = 30;
  scheduled_power_off_enabled = true;
  scheduled_power_off_start_minute = 1380;
  scheduled_power_off_end_minute = 360;
  scheduled_power_off_timezone = "Asia/Shanghai";
  power_restore_jitter_minutes = 10;
}

unfoldable pub initial_data : PrototypeData
initial_data = record {
  version = 2;
  demo_role = user;
  theme = light;
  reduce_motion = false;
  username = "林一";
  snapshot_at = snapshot_at;
  piles = piles;
  watches = watches;
  notices = notices;
  credential = healthy;
  wx_bound = true;
  wx_enabled = true;
  wx_events = pile_available ∷ credential_expired ∷ pile_offline ∷ pile_recovered ∷ [];
  wx_test = no_test;
  browser_enabled = false;
  quiet_enabled = true;
  quiet_start = "23:00";
  quiet_end = "07:00";
  other_sessions = true;
  users = users;
  incidents = incidents;
  audit = audit;
  invites = invites;
  settings = settings;
}
