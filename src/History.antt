-- ===== src/History.antt =====
-- frontend/components/device-history-sheet.tsx: the durations, and the loads (Loads).
pub mod Durations
pub mod Loads
mod Tests
use charge_api.Prelude.{
  ℕ, ◌+◌, ◌*◌, ◌/◌, ◌%◌, ◌==◌, Option, none, some, String, [], ◌∷◌, concat, decimal, ltb,
  if◌then◌else◌,
}

-- `Math.round((seconds % 3600) / 60)`: half a minute is rounded up.
unfoldable pub rounded_minutes : ℕ → ℕ
rounded_minutes seconds = (seconds % 3600 + 30) / 60

-- The last three lines: hours and minutes.
unfoldable pub hours_text : (hours minutes : ℕ) → String
hours_text hours minutes =
    if hours == 0
    then concat (decimal minutes ∷ " 分钟" ∷ [])
    else if minutes == 0
    then concat (decimal hours ∷ " 小时" ∷ [])
    else concat (decimal hours ∷ " 小时 " ∷ decimal minutes ∷ " 分钟" ∷ [])

unfoldable pub format_duration : Option ℕ → String
unfolding decimal rounded_minutes hours_text
format_duration none = "数据不足"
format_duration (some seconds) =
    if ltb seconds 60
    then concat (decimal seconds ∷ " 秒" ∷ [])
    else hours_text (seconds / 3600) (rounded_minutes seconds)
