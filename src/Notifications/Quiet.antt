-- ===== src/Notifications/Quiet.antt =====
-- frontend/lib/notification-time.ts: the hours in which no browser notification is shown.
use charge_api.Prelude.{
  ℕ, ◌+◌, ◌*◌, Bool, true, false, not, ◌&&◌, ◌||◌, Option, none, some, String, List, [], ◌∷◌,
  str_eq, ltb, leb, ◌==◌, if◌then◌else◌, to_number,
}
use charge_api.Api.{NotificationPreference}

-- `parts.find((part) => part.type === type)?.value ?? 0`, as a number.
part_number : String → List (String × String) → Option ℕ
unfolding to_number
part_number type [] = some 0
part_number type ((t, value) ∷ parts) =
    if str_eq t type then to_number value else part_number type parts

-- NaN in either part makes the sum NaN.
abbrev minutes : Option ℕ → Option ℕ → Option ℕ
minutes (some hour) (some minute) = some (hour * 60 + minute)
minutes _ _ = none

-- `Intl.DateTimeFormat(…).formatToParts` belongs to the host: it is the parameter, given the time
-- zone and the instant, and returns the kinds and texts of the parts.
module _ (format_to_parts : String → ℕ → List (String × String)) where
  unfoldable pub minute_in_timezone : ℕ → String → Option ℕ
  unfolding part_number
  minute_in_timezone date timezone =
      let parts = format_to_parts timezone date in
      minutes (part_number "hour" parts) (part_number "minute" parts)

  -- Comparisons with NaN are false.
  abbrev pub within : Option ℕ → ℕ → ℕ → Bool
  within none start end = false
  within (some current) start end =
      if ltb start end
      then leb start current && ltb current end
      else leb start current || ltb current end

  unfoldable pub is_quiet_hours : Option NotificationPreference → ℕ → Bool
  unfolding minute_in_timezone
  is_quiet_hours none date = false
  is_quiet_hours (some preference) date =
      if not preference.quiet_hours_enabled
      then false
      else if preference.quiet_start_minute == preference.quiet_end_minute
      then true
      else within (minute_in_timezone date preference.timezone) preference.quiet_start_minute
          preference.quiet_end_minute
