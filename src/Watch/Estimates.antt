-- ===== src/Watch/Estimates.antt =====
-- frontend/lib/watch-format.ts: how many checks a reminder makes, and how long it still runs. Intervals
-- and lengths are whole minutes.
use Prim.Native.Nat.{max}
use charge_api.Prelude.{
  ℕ, ◌+◌, ◌-◌, ◌*◌, ◌/◌, ◌%◌, Bool, true, false, not, ◌||◌, Option, none, some, String, List, [],
  ◌∷◌, ltb, ◌==◌, concat, decimal, is_truthy, ℤ, pos_part, neg_part, if◌then◌else◌,
}
use charge_api.Api.{WatchTemporaryDuration, one_hour, two_hours, four_hours, until_power_off}
use charge_api.Watch.Format.{DurationOption, temporary_duration_options}

abbrev pub same_duration : WatchTemporaryDuration → WatchTemporaryDuration → Bool
same_duration one_hour one_hour = true
same_duration two_hours two_hours = true
same_duration four_hours four_hours = true
same_duration until_power_off until_power_off = true
same_duration _ _ = false

-- `find(…)?.minutes`.
minutes_in : WatchTemporaryDuration → List DurationOption → Option ℕ
minutes_in duration [] = none
minutes_in duration (o ∷ options) =
    if same_duration o.value duration then o.minutes else minutes_in duration options

-- `Math.ceil(a / b)` of whole numbers, b not 0.
abbrev pub ceil_div : ℕ → ℕ → ℕ
ceil_div a b = (a + (b - 1)) / b

-- The common end of both estimates.
abbrev pub checks : Option ℕ → ℕ → Option ℕ
checks none interval_minutes = none
checks (some duration_minutes) interval_minutes =
    if duration_minutes == 0 || interval_minutes == 0
    then none
    else some (max 1 (ceil_div duration_minutes interval_minutes))

unfoldable pub estimated_temporary_checks : WatchTemporaryDuration → ℕ → Option ℕ
unfolding minutes_in temporary_duration_options
estimated_temporary_checks duration interval_minutes =
    checks (minutes_in duration temporary_duration_options) interval_minutes

-- The length of a window of the day in minutes; equal ends are a whole day.
unfoldable pub window_minutes : ℕ → ℕ → ℕ
window_minutes start end =
    if start == end then 24 * 60 else if ltb start end then end - start else 24 * 60 - start + end

unfoldable pub estimated_recurring_checks : ℕ → ℕ → ℕ → Option ℕ
unfolding window_minutes
estimated_recurring_checks start_minute end_minute interval_minutes =
    if interval_minutes == 0
    then none
    else some (max 1 (ceil_div (window_minutes start_minute end_minute) interval_minutes))

-- `Math.max(0, Math.ceil((end - now) / 60_000))`.
unfoldable pub remaining_minutes : ℤ → ℤ → ℕ
remaining_minutes end now =
    ceil_div ((pos_part end + neg_part now) - (pos_part now + neg_part end)) 60000

-- The text for a number of minutes left.
unfoldable pub remaining_text : ℕ → String
unfolding decimal
remaining_text left =
    if left == 0
    then "即将结束"
    else if ltb left 60
    then concat ("约 " ∷ decimal left ∷ " 分钟" ∷ [])
    else if left % 60 == 0
    then concat (decimal (left / 60) ∷ " 小时" ∷ [])
    else concat (decimal (left / 60) ∷ " 小时 " ∷ decimal (left % 60) ∷ " 分钟" ∷ [])

-- `new Date(text).getTime()` is the host's, with `none` for NaN. A text that is no date leaves NaN
-- hours, which is what is shown.
unfoldable pub format_remaining_time : (String → Option ℤ) → Option String → ℤ → String
unfolding remaining_text remaining_minutes
format_remaining_time parse_date none now = "等待结束时间"
format_remaining_time parse_date (some expires_at) now =
    if not (is_truthy (some expires_at)) then "等待结束时间" else elim (parse_date expires_at) [
      | none ↦ "NaN 小时"
      | some end ↦ remaining_text (remaining_minutes end now)
    ]
