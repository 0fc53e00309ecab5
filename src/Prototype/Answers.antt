-- ===== src/Prototype/Answers.antt =====
-- The other forms of frontend/app/prototype, and what each form and button does.

use Prim.Native.Char.{code}
use charge_api.Prelude.{
  ℕ, zero, suc, ◌+◌, ◌-◌, ◌==◌, Bool, true, false, not, ◌&&◌, ◌||◌, Option, none, some, String, [],
  ◌∷◌, any, length, str_eq, trim, concat, decimal, ltb, if◌then◌else◌,
}
use charge_api.SignIn.{utf16_length}
use charge_api.Workbench.Selection.{includes}
use charge_api.Prototype.Model.{
  UserRole, users, DemoUser, DemoInvite, IncidentStatus, resolved, Clock,
}
use charge_api.Prototype.Change.{delete_user}
use charge_api.Prototype.Recipes.{
  edit_pile, update_cookie, change_password, create_user, create_invite, refresh_snapshot,
  save_user, update_incident, save_policies, save_quiet,
}
use charge_api.Prototype.App.{data_of, scan, nothing, close, show_pile, go_to, State}
use charge_api.Prototype.Checks.{matches, is_name, is_code, limit_of, policy_error, password_error}
use charge_api.Prototype.Buttons.{press, is_offered}
use charge_api.Prototype.Forms.{
  Form, add_form, edit_form, watch_form, cookie_form, password_form, user_form, invite_form,
  refresh_form, limit_form, incident_form, policy_form, quiet_form, delete_form, button, Answer,
  refused, asked, opened, told, disabled, request, checked, is_long, is_planned, is_used_up,
  needs_scan, answer_add, answer_watch,
}

abbrev answer_edit : (id identifier name address : String) → Answer
answer_edit id identifier name address =
    if is_long name address
    then refused "名称不超过 40 字，位置不超过 80 字。"
    else asked (request (edit_pile id identifier name address) "充电桩信息已保存。" (show_pile id))

abbrev pub user_limit : Option ℕ → (stamp : ℕ) → (username : String) → UserRole → State → Answer
user_limit none stamp username role s = refused "设备上限需要填写 0–100 之间的整数。"
user_limit (some limit) stamp username role s =
    let id = concat ("user-" ∷ decimal stamp ∷ []) in
    asked (
      request (create_user id username role limit (data_of s).settings.default_refresh_enabled)
        "示例用户已创建，密码未保存。" (go_to (record { view = users; id = some id; tab = none; port = none })))

unfoldable pub answer_user :
    (stamp : ℕ) → (username password : String) → UserRole → (limit : String) → State → Answer
unfolding matches utf16_length limit_of
answer_user stamp username password role limit s =
    if not (matches is_name 3 32 username)
    then refused "用户名需要 3–32 位字母、数字、下划线或连字符。"
    else if any (λ (u : DemoUser). str_eq u.username username) (data_of s).users
    then refused "这个用户名已经存在。"
    else if ltb (utf16_length password) 8
    then refused "请设置至少 8 位演示密码。"
    else user_limit (limit_of limit) stamp username role s

unfoldable zeros : ℕ → String
zeros zero = ""
zeros (suc n) = String.◌∷◌ "0" (zeros n)

-- `text.padStart(4, "0")`.
abbrev pad_four : String → String
pad_four text = concat (zeros (4 - utf16_length text) ∷ text ∷ [])

-- `a < b` between texts of the first plane: the first place where they differ decides.
unfoldable pub is_before : String → String → Bool
is_before String.[] String.[] = false
is_before String.[] (String.◌∷◌ d t) = true
is_before (String.◌∷◌ c s) String.[] = false
is_before (String.◌∷◌ c s) (String.◌∷◌ d t) =
    let rest = is_before s t in if code c == code d then rest else ltb (code c) (code d)

-- `code.trim().toUpperCase() || …`.
unfoldable pub invite_code : (upper : String → String) → (code : String) → State → String
unfolding zeros utf16_length
invite_code upper code s =
    let value = upper (trim code) in
    if str_eq value ""
    then concat ("CHARGE-" ∷ pad_four (decimal (length (data_of s).invites + 1)) ∷ [])
    else value

unfoldable pub answer_invite : (upper : String → String) → (code expires : String) → State → Answer
unfolding invite_code matches is_before
answer_invite upper code expires s =
    let value = invite_code upper code s in
    if not (matches is_code 4 32 value)
    then refused "邀请码使用 4–32 位字母、数字、下划线或连字符。"
    else if any (λ (i : DemoInvite). str_eq i.code value) (data_of s).invites
    then refused "这个邀请码已经存在。"
    else if not (str_eq expires "") && is_before expires "2026-09-10"
    then refused "到期时间不能早于示例日期 9 月 10 日。"
    else asked (request (create_invite value expires) "邀请码已创建。" close)

-- `refresh` of PilesPage. The time of the last refresh is written by the page where `commit` gives true.
abbrev answer_refresh : (now refresh_at : ℕ) → State → Answer
answer_refresh now refresh_at s =
    if needs_scan s
    then opened scan
    else if is_used_up s.scenario
    then told "今天的远端检查额度已用完，明天会恢复。"
    else if is_planned s.scenario
    then told "当前处于计划断电时段，供电恢复后再刷新。"
    else if ltb now (refresh_at + 15000)
    then told "刚刚已更新，正在使用最近一次快照。"
    else asked (request refresh_snapshot "已更新示例快照；离线设备仍保留上次状态。" nothing)

abbrev pub answer_limit : Option ℕ → (id username : String) → UserRole → Answer
answer_limit none id username role = refused "设备上限必须是 0–100 之间的整数。"
answer_limit (some limit) id username role =
    asked (request (save_user id username limit role) "用户设置已保存。" nothing)

abbrev is_resolved : IncidentStatus → Bool
is_resolved resolved = true
is_resolved _ = false

abbrev incident_message : IncidentStatus → String
incident_message resolved = "已记录处理结果，并标记为解决。"
incident_message _ = "异常处理记录已更新。"

-- What a form or a button does.
unfoldable pub answer : (clock : Clock) → (upper : String → String) → Form → State → Answer
unfolding answer_add answer_watch answer_user answer_invite policy_error password_error limit_of
    is_offered
answer clock upper (add_form identifier name address) s = answer_add identifier name address s
answer clock upper (edit_form id identifier name address) s = answer_edit id identifier name address
answer clock upper (watch_form device_id duration) s = answer_watch clock device_id duration s
answer clock upper (cookie_form cookie) s =
    if includes cookie "="
    then asked (request update_cookie "已模拟更新平台凭据。输入内容没有保存。" close)
    else refused "请使用下方演示凭据，体验更新流程。"
answer clock upper (password_form current next confirm) s =
    checked (password_error current next confirm)
      (asked (request change_password "密码修改流程已演示，其他示例会话已退出；没有改动真实密码。" close))
answer clock upper (user_form stamp username password role limit) s =
    answer_user stamp username password role limit s
answer clock upper (invite_form code expires) s = answer_invite upper code expires s
answer clock upper (refresh_form now refresh_at) s = answer_refresh now refresh_at s
answer clock upper (limit_form id username limit role) s =
    answer_limit (limit_of limit) id username role
answer clock upper (incident_form id title note status) s =
    if is_resolved status && ltb (utf16_length (trim note)) 2
    then refused "请简要记录处理结果，再标记为解决。"
    else asked (request (update_incident id title note status) (incident_message status) nothing)
answer clock upper (policy_form draft) s =
    checked (policy_error draft) (asked (request (save_policies draft) "系统策略已保存，原型内立即生效。" nothing))
answer clock upper (quiet_form start end) s =
    if str_eq start "" || str_eq end "" || str_eq start end
    then refused "请选择不同的开始和结束时间。"
    else asked (request (save_quiet start end) "免打扰时段已保存。" nothing)
answer clock upper (delete_form id username text) s =
    if str_eq text username then asked (press true (delete_user id username)) else disabled
answer clock upper (button in_dialog action) s =
    if is_offered action (data_of s) then asked (press in_dialog action) else disabled
