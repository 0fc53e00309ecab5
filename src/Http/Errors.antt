-- ===== src/Http/Errors.antt =====
-- The messages of frontend/lib/http.ts for the codes of the server's errors.
use charge_api.Prelude.{
  ℕ, ◌==◌, Option, none, some, String, List, [], ◌∷◌, lookup, str_eq, if◌then◌else◌,
}

unfoldable pub public_error_messages : List (String × String)
public_error_messages =
    ("YYB_RECOVERY_FAILED", "已保留平台绑定，登录状态暂时无法恢复，请稍后重试。")
    ∷ ("ANNOUNCEMENT_CONFLICT", "公告已更新或状态已变化，请重新加载后操作。")
    ∷ ("ANNOUNCEMENT_NOT_FOUND", "公告不存在、已撤下或当前不可操作。")
    ∷ ("ANNOUNCEMENT_INVALID", "请检查公告内容、链接和有效时间。")
    ∷ ("ANNOUNCEMENT_UNAVAILABLE", "公告暂时不可用，请稍后重试。")
    ∷ ("YYB_BINDING_BUSY", "平台连接正在更新，请稍后重试。")
    ∷ ("QR_SESSION_INVALID", "二维码会话已失效，请重新生成。")
    ∷ ("QR_SESSION_UNAVAILABLE", "暂时无法创建扫码会话，请稍后重试。")
    ∷ ("QR_NOT_AUTHORIZED", "请先在微信中确认授权。")
    ∷ ("QR_CONFIRM_IN_PROGRESS", "正在确认绑定，请检查扫码状态。")
    ∷ ("YYB_RESCAN_REQUIRED", "平台登录需要重新确认，请重新扫码绑定。")
    ∷ ("AUTH_INPUT_INVALID", "用户名或密码格式无效")
    ∷ ("AUTH_INVALID_CREDENTIALS", "用户名或密码错误")
    ∷ ("LOGIN_CAPTCHA_REQUIRED", "用户名或密码错误，请完成图片验证码后重试。")
    ∷ ("LOGIN_CAPTCHA_INVALID", "图片验证码错误或已过期，请重新获取。")
    ∷ ("REGISTER_INPUT_INVALID", "用户名需要 3-64 个字符，密码需要 8-128 个字符")
    ∷ ("REGISTER_CAPTCHA_INVALID", "图片验证码错误或已过期，请重新获取。")
    ∷ ("RATE_LIMITED", "请求过于频繁，请稍后再试")
    ∷ ("YYB_BINDING_REQUIRED", "请先完成扫码登录绑定，再添加充电桩")
    ∷ ("PILE_IDENTIFIER_REQUIRED", "请输入桩号或设备长ID")
    ∷ ("PILE_ID_INVALID", "设备ID必须是 6-64 位数字")
    ∷ ("PILE_NUMBER_INVALID", "桩号必须是 6-64 位数字")
    ∷ ("PILE_FIELDS_INVALID", "充电桩字段长度超出限制")
    ∷ ("PILE_PORT_COUNT_INVALID", "充电口数量必须在 1-20 之间")
    ∷ ("COOKIE_REQUIRED", "请输入 Cookie")
    ∷ ("COOKIE_TOO_LARGE", "Cookie 内容过长")
    ∷ ("DEVICE_ID_INVALID", "设备 ID 格式无效")
    ∷ ("PORT_ID_INVALID", "充电口编号格式无效")
    ∷ ("HISTORY_QUERY_INVALID", "历史范围或时区参数无效")
    ∷ ("HISTORY_NOT_FOUND", "未找到对应的历史记录")
    ∷ ("HISTORY_RANGE_TOO_LARGE", "该范围内历史变化过多，请缩短查询范围")
    ∷ ("HISTORY_REMOVED", "使用历史已下线，请查看充电桩最近状态。")
    ∷ ("HISTORY_UNAVAILABLE", "历史数据暂时不可用，请稍后重试")
    ∷ ("ADMIN_TREND_QUERY_INVALID", "趋势范围或时区参数无效")
    ∷ ("ADMIN_TRENDS_UNAVAILABLE", "运营趋势暂时不可用，请稍后重试")
    ∷ ("WATCH_RULE_INVALID", "空闲提醒设置无效")
    ∷ ("WATCH_TARGET_NOT_FOUND", "未找到当前账户下的充电桩")
    ∷ ("WATCH_RULE_NOT_FOUND", "未找到这条空闲提醒")
    ∷ ("WATCH_RULE_CONFLICT", "该充电桩已设置空闲提醒")
    ∷ ("WATCH_PILE_LIMIT_REACHED", "已达到当前账户的提醒充电桩上限")
    ∷ ("WATCH_UNAVAILABLE", "空闲提醒功能暂时不可用，请稍后重试")
    ∷ ("NOTIFICATION_PREFERENCE_INVALID", "免打扰设置无效")
    ∷ ("NOTIFICATION_UNAVAILABLE", "通知设置暂时不可用，请稍后重试")
    ∷ ("WXPUSHER_NOT_CONFIGURED", "管理员暂未启用微信提醒")
    ∷ ("WXPUSHER_ALREADY_BOUND", "请先解除当前微信绑定")
    ∷ ("WXPUSHER_BIND_SESSION_ACTIVE", "已有等待扫码的二维码，请稍后再试")
    ∷ ("WXPUSHER_BIND_SESSION_NOT_FOUND", "绑定二维码已失效，请重新获取")
    ∷ ("WXPUSHER_UID_CONFLICT", "这个微信接收账号已绑定其他账户")
    ∷ ("WXPUSHER_NOT_BOUND", "请先绑定微信提醒")
    ∷ ("WXPUSHER_CHANNEL_DISABLED", "请先开启微信提醒")
    ∷ ("WXPUSHER_INVALID", "微信提醒设置无效")
    ∷ ("WXPUSHER_RATE_LIMITED", "操作过于频繁，请稍后再试")
    ∷ ("WXPUSHER_UNAVAILABLE", "微信提醒服务暂时不可用，请稍后重试")
    ∷ []

-- What `response.json()` gives of an error: `none` where the body is no JSON, and then the `code`.
abbrev pub Body : Type 0
Body = Option (Option String)

-- `body?.code`.
abbrev pub code_in : Body → Option String
code_in none = none
code_in (some code) = code

-- `body?.code && publicErrorMessages[body.code]`. Only the table's own keys are looked up: no code of
-- the server is spelled like a property that every object inherits.
unfoldable pub known_message : Option String → Option String
unfolding public_error_messages lookup
known_message none = none
known_message (some code) = if str_eq code "" then none else lookup code public_error_messages

abbrev pub session_expired_message : String
session_expired_message = "登录已失效，请重新登录"

unfoldable pub response_error_message : ℕ → Body → String → String
unfolding known_message
response_error_message status body fallback = elim (known_message (code_in body)) [
  | some message ↦ message
  | none ↦ if status == 401 then session_expired_message else fallback
]

pub record ResponseError : Type 0 where
  pub code : Option String
  pub message : String

-- `(body?.code && publicErrorMessages[body.code]) || (…)`.
abbrev pub or_default : Option String → String → String
or_default none other = other
or_default (some message) other = if str_eq message "" then other else message

unfoldable pub response_error : ℕ → Body → String → ResponseError
unfolding known_message
response_error status body fallback = record {
  code = code_in body;
  message =
      or_default (known_message (code_in body))
        (if status == 401 then session_expired_message else fallback);
}
