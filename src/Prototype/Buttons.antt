-- ===== src/Prototype/Buttons.antt =====
-- The buttons of frontend/app/prototype that call `commit` with a recipe of no form: when they can be pressed,
-- the message of their success, and what follows.
use charge_api.Prelude.{◌+◌, Bool, true, false, not, ◌&&◌, String, any, length, str_eq, ltb}
use charge_api.Prototype.Model.{
  piles, users, login, WxTest, no_test, queued, PrototypeData, DemoNotice,
}
use charge_api.Prototype.Change.{
  Action, remove_pile, delete_user, end_sessions, log_out, clear_notices, unbind_wx,
  unbind_platform, cancel_watch, complete_scan, reset_password, sync_credential, set_browser,
  set_wx, set_quiet, set_wx_event, queue_test, recheck_test, read_all, mark_read, enable_user,
  allow_refresh, refresh_user, toggle_invite, move_up, move_down, is_cleared,
}
use charge_api.Prototype.Recipes.{did}
use charge_api.Prototype.App.{
  Tone, success, error, After, nothing, close, show_ready, go_to, Request, view_route,
}

abbrev is_queued : WxTest → Bool
is_queued queued = true
is_queued _ = false

abbrev is_untested : WxTest → Bool
is_untested no_test = true
is_untested _ = false

-- The button is shown and not disabled by the data; those that the network disables `commit` refuses too. A
-- user is deleted by a form of its own.
unfoldable pub is_offered : Action → PrototypeData → Bool
is_offered (delete_user id username) d = false
is_offered unbind_wx d = d.wx_bound
is_offered (set_wx v) d = d.wx_bound
is_offered (set_wx_event type checked) d = d.wx_bound && d.wx_enabled
is_offered queue_test d = d.wx_bound && d.wx_enabled && not (is_queued d.wx_test)
is_offered recheck_test d = d.wx_bound && not (is_untested d.wx_test)
is_offered clear_notices d = any is_cleared d.notices
is_offered read_all d = any (λ (n : DemoNotice). not n.read) d.notices
is_offered (enable_user id username v) d = not (str_eq id "admin-1")
is_offered (move_up index) d = ltb 0 index && ltb index (length d.piles)
is_offered (move_down index) d = ltb (index + 1) (length d.piles)
is_offered _ d = true

abbrev on_off : Bool → (on off : String) → String
on_off true on off = on
on_off false on off = off

-- The second argument of `commit`.
abbrev pub success_of : Action → String
success_of (remove_pile id) = "已从常用桩移除，关联提醒已结束。"
success_of (delete_user id username) = "示例账户及其关联记录已移除。"
success_of log_out = "已退出演示账户。"
success_of end_sessions = "更改已完成。"
success_of clear_notices = "更改已完成。"
success_of unbind_wx = "更改已完成。"
success_of unbind_platform = "更改已完成。"
success_of (cancel_watch id) = "这次提醒已取消。"
success_of (complete_scan wx) = on_off wx "已模拟绑定微信提醒。" "已模拟恢复平台连接。"
success_of (reset_password id username) = "已模拟重置密码并退出全部会话。"
success_of sync_credential = "示例凭据已同步。"
success_of (set_browser v) = on_off v "原型已模拟开启浏览器通知，不申请真实权限。" "浏览器通知已关闭。"
success_of (set_wx v) = on_off v "微信提醒已开启。" "微信提醒已关闭，站内通知仍会保留。"
success_of (set_quiet v) = "免打扰设置已保存。"
success_of (set_wx_event type checked) = "微信消息偏好已保存。"
success_of queue_test = "测试消息已进入原型发送队列。"
success_of recheck_test = "已查询原测试消息，没有重复发送。"
success_of read_all = "所有通知已标为已读。待处理问题仍然保留。"
success_of (mark_read id) = "通知已标为已读。"
success_of (enable_user id username v) = on_off v "账户已启用。" "账户已停用，已有会话已退出。"
success_of (allow_refresh id username v) = "刷新权限已保存。"
success_of (refresh_user id username expired) = on_off expired "示例刷新未成功，需要用户重新扫码。" "已刷新该用户的示例设备状态。"
success_of (toggle_invite id code was_enabled) = on_off was_enabled "邀请码已停用。" "邀请码已启用。"
success_of (move_up index) = "常用桩顺序已保存。"
success_of (move_down index) = "常用桩顺序已保存。"

abbrev pub tone_of : Action → Tone
tone_of (refresh_user id username true) = error
tone_of _ = success

-- `in_dialog` where the watch is ended in its dialog, which closes then.
abbrev pub after_of : (in_dialog : Bool) → Action → After
after_of in_dialog (remove_pile id) = go_to (view_route piles)
after_of in_dialog (delete_user id username) = go_to (view_route users)
after_of in_dialog log_out = go_to (view_route login)
after_of in_dialog end_sessions = close
after_of in_dialog clear_notices = close
after_of in_dialog unbind_wx = close
after_of in_dialog unbind_platform = close
after_of true (cancel_watch id) = close
after_of false (cancel_watch id) = nothing
after_of in_dialog (complete_scan wx) = show_ready
after_of in_dialog _ = nothing

abbrev pub press : (in_dialog : Bool) → Action → Request
press in_dialog action = record {
  change = did action;
  success = success_of action;
  tone = tone_of action;
  after = after_of in_dialog action;
}
