-- ===== src/Prototype/Checks.antt =====
-- What the forms of frontend/app/prototype test before they call `commit`: the regular expressions, the limits,
-- `validateIdentifier` and `watchEnd` of model.ts.

use Prim.Native.Char.{code}
use Prim.Native.Nat.{min}
use charge_api.Prelude.{
  ℕ, ◌+◌, ◌*◌, ◌==◌, Bool, true, not, ◌&&◌, ◌||◌, Option, none, some, String, List, [], ◌∷◌, any,
  str_eq, trim, to_number, ltb, leb, if◌then◌else◌,
}
use charge_api.Types.{Pile}
use charge_api.Types.Admin.{RegistrationSettings}
use charge_api.SignIn.{utf16_length}
use charge_api.Prototype.Model.{Duration, one_hour, two_hours, four_hours, until_power_off}

abbrev pub is_digit : ℕ → Bool
is_digit c = leb 48 c && leb c 57

abbrev pub is_upper : ℕ → Bool
is_upper c = leb 65 c && leb c 90

abbrev pub is_letter : ℕ → Bool
is_letter c = is_upper c || (leb 97 c && leb c 122)

-- `_` and `-`.
abbrev pub is_mark : ℕ → Bool
is_mark c = c == 95 || c == 45

unfoldable pub all_of : (ℕ → Bool) → String → Bool
all_of test String.[] = true
all_of test (String.◌∷◌ c s) = test (code c) && all_of test s

-- `/^[…]{low,high}$/`. The classes are of the first plane, so a character is one unit of the text.
unfoldable pub matches : (ℕ → Bool) → (low high : ℕ) → String → Bool
unfolding all_of utf16_length
matches test low high s = all_of test s && leb low (utf16_length s) && leb (utf16_length s) high

abbrev pub is_name : ℕ → Bool
is_name c = is_letter c || is_digit c || is_mark c

abbrev pub is_code : ℕ → Bool
is_code c = is_upper c || is_digit c || is_mark c

-- `[\w一-鿿-]`.
abbrev pub is_word : ℕ → Bool
is_word c = is_name c || (leb 19968 c && leb c 40959)

-- `validateIdentifier`; the empty text where nothing is wrong.
unfoldable pub validate_identifier : String → List Pile → String
unfolding matches
validate_identifier value existing =
    let v = trim value in
    if not (matches is_digit 6 64 v)
    then "请输入 6–64 位数字桩号或设备 ID。"
    else if any (λ (p : Pile). str_eq p.id v || str_eq p.number v) existing
    then "这个充电桩已经在常用列表里了。"
    else ""

abbrev pub hours_of : Duration → ℕ
hours_of one_hour = 1
hours_of two_hours = 2
hours_of four_hours = 4
hours_of until_power_off = 2

abbrev pub end_for : (start end_of_day : ℕ) → Duration → ℕ
end_for start end_of_day until_power_off = end_of_day
end_for start end_of_day duration = start + hours_of duration * 3600000

-- `watchEnd` between instants: the start, and the time of the day when the power is off.
unfoldable pub watch_end_time :
    (midnight : ℕ → ℕ)
    → Duration
    → (start : ℕ) → (power_off_enabled : Bool) → (power_off_minute : ℕ) → ℕ
watch_end_time midnight duration start power_off_enabled power_off_minute =
    let end_of_day = midnight start + power_off_minute * 60000 in
    let end = end_for start end_of_day duration in
    if power_off_enabled then min end end_of_day else end

-- `Number.isInteger(Number(limit))`, from 0 to 100.
unfoldable pub limit_of : String → Option ℕ
unfolding to_number
limit_of limit = elim (to_number limit) [
  | none ↦ none
  | some n ↦ if ltb 100 n then none else some n
]

abbrev is_bad : ℕ → Bool
is_bad n = ltb n 1 || ltb 10000 n

-- `save` of PoliciesPage; the empty text where nothing is wrong. A number field of a draft holds a natural
-- number here, so `Number.isInteger` is true of it.
unfoldable pub policy_error : RegistrationSettings → String
policy_error draft =
    if any is_bad (
      draft.default_device_limit ∷ draft.stats_retention_days ∷ draft.port_history_retention_days
      ∷ draft.watch_refresh_interval_minutes ∷ draft.watch_pile_limit_per_user
      ∷ draft.watch_daily_refresh_quota ∷ draft.notification_retention_days ∷ [])
    then "上限、间隔和保留天数需要填写大于 0 的整数。"
    else if draft.scheduled_power_off_enabled
        && draft.scheduled_power_off_start_minute == draft.scheduled_power_off_end_minute
    then "断电开始和结束时间不能相同。"
    else if ltb 60 draft.power_restore_jitter_minutes
    then "供电恢复错峰时间需要在 0–60 分钟之间。"
    else ""

-- `submit` of PasswordDialog.
unfoldable pub password_error : (current next confirm : String) → String
unfolding utf16_length
password_error current next confirm =
    if str_eq current "" || ltb (utf16_length next) 8
    then "请填写当前演示密码，新演示密码至少 8 位。"
    else if not (str_eq next confirm)
    then "两次填写的新密码不一致。"
    else if str_eq current next
    then "新密码需要与当前密码不同。"
    else ""

-- `submit` of AuthPage.
unfoldable pub sign_in_error :
    (offline fails register agreed : Bool)
    → (username password captcha captcha_code invite : String) → String
unfolding matches utf16_length
sign_in_error offline fails register agreed username password captcha captcha_code invite =
    if offline
    then "当前离线，请联网后再登录。"
    else if not (matches is_word 2 32 (trim username))
    then "用户名需要 2–32 个字母、数字、中文或下划线。"
    else if ltb (utf16_length password) 8
    then "请填写至少 8 位演示密码，不要使用真实密码。"
    else if not (str_eq captcha captcha_code)
    then "演示验证码不正确，请重新输入。"
    else if register && not (str_eq invite "GARDEN-2026")
    then "演示邀请码为 GARDEN-2026。"
    else if register && not agreed
    then "请先确认使用范围。"
    else if fails
    then "暂时无法登录，输入内容已保留，请稍后重试。"
    else ""
