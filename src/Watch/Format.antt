-- ===== src/Watch/Format.antt =====
-- frontend/lib/watch-format.ts: times of the day, weekdays, and the options of a reminder.
use Prim.Native.Nat.{min, bit_and}
use Prim.Native.Char.{code}
use Prim.Native.String.{count}
use charge_api.Prelude.{
  ℕ, ◌+◌, ◌-◌, ◌*◌, ◌/◌, ◌%◌, Bool, true, false, not, ◌&&◌, ◌||◌, Option, none, some, String, List,
  [], ◌∷◌, map, filter, concat, decimal, leb, ltb, ◌==◌, if◌then◌else◌,
}
use charge_api.Api.{
  WatchRule, WatchTemporaryDuration, one_hour, two_hours, four_hours, until_power_off,
  WatchCompletionReason, notified, expired, cancelled,
}

pub record DurationOption : Type 0 where
  pub value : WatchTemporaryDuration
  pub label : String
  pub short_label : String
  pub minutes : Option ℕ

unfoldable pub temporary_duration_options : List DurationOption
temporary_duration_options =
    record { value = one_hour; label = "1 小时"; short_label = "1 小时"; minutes = some 60 }
    ∷ record { value = two_hours; label = "2 小时（推荐）"; short_label = "2 小时"; minutes = some 120 }
    ∷ record { value = four_hours; label = "4 小时"; short_label = "4 小时"; minutes = some 240 }
    ∷ record { value = until_power_off; label = "持续到今晚断电前"; short_label = "到断电前"; minutes = none }
    ∷ []

abbrev pub is_until_power_off : WatchTemporaryDuration → Bool
is_until_power_off until_power_off = true
is_until_power_off _ = false

unfoldable pub get_temporary_duration_options : Bool → List DurationOption
unfolding temporary_duration_options
get_temporary_duration_options scheduled_power_off_enabled =
    if scheduled_power_off_enabled
    then temporary_duration_options
    else filter (λ o. not (is_until_power_off o.value)) temporary_duration_options

pub record Weekday : Type 0 where
  pub bit : ℕ
  pub short : String
  pub label : String

unfoldable pub weekdays : List Weekday
weekdays =
    record { bit = 1; short = "一"; label = "周一" }
    ∷ record { bit = 2; short = "二"; label = "周二" }
    ∷ record { bit = 4; short = "三"; label = "周三" }
    ∷ record { bit = 8; short = "四"; label = "周四" }
    ∷ record { bit = 16; short = "五"; label = "周五" }
    ∷ record { bit = 32; short = "六"; label = "周六" }
    ∷ record { bit = 64; short = "日"; label = "周日" }
    ∷ []

-- `padStart(2, "0")` of a text that is not empty.
abbrev pub pad_start : String → String
pad_start s = if ltb (count s) 2 then concat ("0" ∷ s ∷ []) else s

unfoldable pub minutes_to_time : ℕ → String
unfolding decimal
minutes_to_time value =
    let normalized = min 1439 value in
    concat
      (pad_start (decimal (normalized / 60)) ∷ ":" ∷ pad_start (decimal (normalized % 60)) ∷ [])

abbrev pub is_digit : ℕ → Bool
is_digit c = leb 48 c && leb c 57

-- The number of two digits, in the time where both are in range.
abbrev pub clock : ℕ → ℕ → ℕ → ℕ → Option ℕ
clock a b d e =
    let hour = (a - 48) * 10 + (b - 48) in
    let minute = (d - 48) * 10 + (e - 48) in
    if ltb 23 hour || ltb 59 minute then none else some (hour * 60 + minute)

-- `/^(\d{2}):(\d{2})$/`.
unfoldable pub time_to_minutes : String → Option ℕ
time_to_minutes
      (String.◌∷◌ a (String.◌∷◌ b (String.◌∷◌ c (String.◌∷◌ d (String.◌∷◌ e String.[]))))) =
    if is_digit (code a)
      && is_digit (code b)
      && code c == 58
      && is_digit (code d)
      && is_digit (code e)
    then clock (code a) (code b) (code d) (code e)
    else none
time_to_minutes _ = none

-- `Array.prototype.join`.
abbrev pub join : String → List String → String
join separator [] = ""
join separator (s ∷ []) = s
join separator (s ∷ t ∷ ss) = concat (s ∷ separator ∷ join separator (t ∷ ss) ∷ [])

unfoldable pub format_weekdays : ℕ → String
unfolding weekdays
format_weekdays mask =
    if mask == 127
    then "每天"
    else if mask == 31
    then "工作日"
    else if mask == 96
    then "周末"
    else join "、" (map (λ w. w.label) (filter (λ w. not (bit_and mask w.bit == 0)) weekdays))

unfoldable pub format_active_time : ℕ → ℕ → String
unfolding minutes_to_time
format_active_time start end =
    if start == end
    then "全天"
    else concat (
        minutes_to_time start
        ∷ "–"
        ∷ minutes_to_time end
        ∷ (if ltb end start then "（跨午夜）" else "")
        ∷ [])

unfoldable pub format_rule_schedule : WatchRule → String
unfolding format_weekdays format_active_time
format_rule_schedule rule = concat (
    format_weekdays rule.active_weekdays
    ∷ " · "
    ∷ format_active_time rule.active_start_minute rule.active_end_minute
    ∷ [])

unfoldable pub format_power_window : ℕ → ℕ → String
unfolding minutes_to_time
format_power_window start end = concat (minutes_to_time start ∷ "–" ∷ minutes_to_time end ∷ [])

unfoldable pub format_completion_reason : Option WatchCompletionReason → String
format_completion_reason (some notified) = "已发现空闲口并完成提醒"
format_completion_reason (some expired) = "等待时间已结束"
format_completion_reason (some cancelled) = "已由你取消"
format_completion_reason none = "提醒已结束"
