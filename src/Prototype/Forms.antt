-- ===== src/Prototype/Forms.antt =====
-- The `submit` handlers of frontend/app/prototype, up to their call of `commit`: what a form or a button does in
-- the render that its user sees (State). `upper` is `toUpperCase`.

use charge_api.Prelude.{
  ℕ, Bool, true, false, not, ◌&&◌, ◌||◌, Option, none, some, String, List, [], ◌∷◌, any, filter,
  length, str_eq, trim, concat, decimal, leb, ltb, if◌then◌else◌,
}
use charge_api.Types.{Port, Pile}
use charge_api.Types.Admin.{CredentialState, unbound, RegistrationSettings}
use charge_api.SignIn.{utf16_length}
use charge_api.Prototype.Model.{
  Scenario, power_off, quota, empty, Duration, UserRole, IncidentStatus, PrototypeData, Clock,
}
use charge_api.Prototype.Update.{find}
use charge_api.Prototype.Change.{Action, is_active}
use charge_api.Prototype.Recipes.{Change, add_pile, save_watch, watches}
use charge_api.Prototype.App.{data_of, ModalKind, success, close, show_pile, Request, State, After}
use charge_api.Prototype.Checks.{validate_identifier, watch_end_time}

pub data Form : Type 0 where
  add_form : (identifier name address : String) → Form
  edit_form : (id identifier name address : String) → Form
  watch_form : (device_id : String) → Duration → Form
  cookie_form : (cookie : String) → Form
  password_form : (current next confirm : String) → Form
  user_form : (stamp : ℕ) → (username password : String) → UserRole → (limit : String) → Form
  invite_form : (code expires : String) → Form
  -- `Date.now()`, and the time of the last refresh of the page.
  refresh_form : (now refresh_at : ℕ) → Form
  limit_form : (id username limit : String) → UserRole → Form
  incident_form : (id title note : String) → IncidentStatus → Form
  policy_form : RegistrationSettings → Form
  quiet_form : (start end : String) → Form
  -- The confirmation of a deletion, with the name that was typed.
  delete_form : (id username text : String) → Form
  button : (in_dialog : Bool) → Action → Form

-- A form shows an error, calls `commit`, opens a dialog, shows a message, or cannot be sent.
pub data Answer : Type 0 where
  refused : (message : String) → Answer
  asked : Request → Answer
  opened : ModalKind → Answer
  told : (message : String) → Answer
  disabled : Answer

abbrev pub is_empty : Scenario → Bool
is_empty empty = true
is_empty _ = false

abbrev is_expired_scenario : Scenario → Bool
is_expired_scenario Scenario.expired = true
is_expired_scenario _ = false

abbrev is_lost : CredentialState → Bool
is_lost unbound = true
is_lost CredentialState.expired = true
is_lost _ = false

abbrev pub needs_scan : State → Bool
needs_scan s = is_expired_scenario s.scenario || is_lost (data_of s).credential

abbrev pub request : Change → String → After → Request
request change message after = record {
  change = change;
  success = message;
  tone = success;
  after = after;
}

-- The error, where there is one.
abbrev pub checked : String → Answer → Answer
checked message answer = if str_eq message "" then answer else refused message

abbrev pub is_long : (name address : String) → Bool
is_long name address = ltb 40 (utf16_length (trim name)) || ltb 80 (utf16_length (trim address))

unfoldable pub answer_add : (identifier name address : String) → State → Answer
unfolding validate_identifier utf16_length
answer_add identifier name address s =
    let afresh = is_empty s.scenario in
    checked (validate_identifier identifier (if afresh then [] else (data_of s).piles)) (
      if not afresh && leb (data_of s).settings.default_device_limit (length (data_of s).piles)
      then refused (
          concat (
            "已达到 "
            ∷ decimal (data_of s).settings.default_device_limit
            ∷ " 台设备上限，请先移除不需要的充电桩。"
            ∷ []))
      else if is_long name address
      then refused "名称不超过 40 字，位置不超过 80 字。"
      else asked (
          request (add_pile afresh identifier name address) "已加入常用桩。首次读取前不会显示空闲数量。"
            (show_pile (trim identifier))))

abbrev pub is_planned : Scenario → Bool
is_planned power_off = true
is_planned _ = false

abbrev pub is_used_up : Scenario → Bool
is_used_up quota = true
is_used_up _ = false

abbrev pub no_ports : List Port → Bool
no_ports [] = true
no_ports (_ ∷ _) = false

abbrev pub active_count : PrototypeData → ℕ
active_count d = length (filter is_active d.watches)

-- `blockedReason` of WatchForm; the empty text where nothing is in the way.
unfoldable pub blocked_reason : (device_id : String) → (ports : List Port) → State → String
blocked_reason device_id ports s =
    let d = (data_of s) in
    if not d.settings.background_reminders_enabled
    then "管理员暂时关闭了后台提醒。"
    else if needs_scan s
    then "平台登录需要恢复，请先重新扫码。"
    else if is_planned s.scenario
    then "当前处于计划断电时段，供电恢复后再开启提醒。"
    else if is_used_up s.scenario
    then "今日远端检查额度已用完，明天会恢复。"
    else if not (any (watches device_id) d.watches)
        && leb d.settings.watch_pile_limit_per_user (active_count d)
    then concat ("你已经在等待 " ∷ decimal (active_count d) ∷ " 台充电桩，先结束一条提醒再继续。" ∷ [])
    else if no_ports ports
    then "这个充电桩还没有成功读取过端口状态。"
    else ""

abbrev pub watch_message : Bool → (name : String) → String
watch_message true name = "提醒时长已更新。"
watch_message false name = concat ("已开始等待" ∷ name ∷ "，有空闲时通知一次。" ∷ [])

-- From the snapshot's instant. `safeData` lets no snapshot pass whose time is NaN.
abbrev pub answer_watch_at : Clock → Option ℕ → Pile → Duration → State → Answer
answer_watch_at clock none pile duration s = disabled
answer_watch_at clock (some start) pile duration s =
    let settings = (data_of s).settings in
    let end =
      watch_end_time clock.midnight duration start settings.scheduled_power_off_enabled
        settings.scheduled_power_off_start_minute in
    if leb end start
    then refused "已到当天计划断电时间，供电恢复后再开启提醒。"
    else asked (
        request (save_watch pile.id duration (clock.to_iso end))
          (watch_message (any (watches pile.id) (data_of s).watches) pile.name) close)

abbrev pub answer_watch_for : Clock → (device_id : String) → Option Pile → Duration → State → Answer
answer_watch_for clock device_id none duration s =
    checked (blocked_reason device_id [] s) (refused "请先选择充电桩。")
answer_watch_for clock device_id (some pile) duration s =
    checked (blocked_reason pile.id pile.ports s)
      (answer_watch_at clock (clock.time_of (data_of s).snapshot_at) pile duration s)

unfoldable pub answer_watch : Clock → (device_id : String) → Duration → State → Answer
unfolding find blocked_reason watch_end_time
answer_watch clock device_id duration s =
    answer_watch_for clock device_id (find (λ (p : Pile). str_eq p.id device_id) (data_of s).piles)
      duration s
