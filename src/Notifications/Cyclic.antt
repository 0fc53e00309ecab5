-- ===== src/Notifications/Cyclic.antt =====
-- Quiet hours as an interval on the clock's circle.
use charge_api.Prelude.{ℕ, ◌+◌, ◌-◌, ◌%◌, ◌<◌, ◌≡◌, ◌↔◌, ◌⊎◌, arith, true, some, String, List}
use charge_api.Api.{NotificationPreference}
use charge_api.Notifications.Quiet.{minute_in_timezone, is_quiet_hours}

module _ (format_to_parts : String → ℕ → List (String × String)) where
  -- Where the host gives the minute `m` of the day, it is quiet exactly if quiet hours are enabled and
  -- either the whole day is quiet or `m` lies less far after the start than the end does, going
  -- forward round the clock; so hours across midnight are one interval.
  pub is_quiet_hours_iff :
      (p : NotificationPreference) (date m : ℕ)
      → p.quiet_start_minute < 1440
      → p.quiet_end_minute < 1440
      → m < 1440
      → minute_in_timezone format_to_parts date p.timezone ≡ some m
      → (is_quiet_hours format_to_parts (some p) date ≡ true) ↔ (
          (p.quiet_hours_enabled ≡ true)
          × ((p.quiet_start_minute ≡ p.quiet_end_minute)
              ⊎ ((m + 1440 - p.quiet_start_minute) % 1440
                  < (p.quiet_end_minute + 1440 - p.quiet_start_minute) % 1440)))
  unfolding is_quiet_hours
  is_quiet_hours_iff p date m s e d h = rw h (λ q. ground arith, λ q. ground arith)
