-- ===== src/Channel/Texts.antt =====
-- The texts and times of frontend/components/wxpusher-channel-card.tsx.
use charge_api.Prelude.{
  ℕ, ◌+◌, ◌-◌, ◌/◌, ◌%◌, ◌<◌, ◌↔◌, arith, Bool, Option, none, some, String, [], ◌∷◌, ℤ, pos_part,
  neg_part, ◌<ℤ◌, concat, decimal, is_truthy, if◌then◌else◌,
}
use charge_api.Api.{
  NotificationDeliverySummary, NotificationDeliveryUserState, WxPusherErrorCode, rate_limited,
  invalid_token, invalid_uid, recipient_rejected, provider_unavailable, timeout, invalid_response,
  ambiguous_result,
}
use charge_api.Notifications.Semantics.{DeliveryPresentationState, delivery_presentation_state}
use charge_api.Watch.Estimates.{ceil_div}
use charge_api.Watch.Format.{pad_start}

-- The second `switch`, on the error code of a failed delivery.
abbrev pub failure_suggestion : Bool → Option WxPusherErrorCode → String
failure_suggestion is_test (some invalid_uid) = "当前接收账号可能已取消关注，请解除绑定后重新扫码。"
failure_suggestion is_test (some recipient_rejected) = "当前接收账号可能已取消关注，请解除绑定后重新扫码。"
failure_suggestion is_test (some invalid_token) = "服务配置暂时不可用，请联系管理员检查 WxPusher 配置。"
failure_suggestion is_test (some provider_unavailable) =
    if is_test then "WxPusher 暂时繁忙，可以稍后重新发送测试消息。" else "微信提醒暂时繁忙，消息仍会保留在通知中心。"
failure_suggestion is_test (some timeout) =
    if is_test then "WxPusher 暂时繁忙，可以稍后重新发送测试消息。" else "微信提醒暂时繁忙，消息仍会保留在通知中心。"
failure_suggestion is_test (some rate_limited) =
    if is_test then "WxPusher 暂时繁忙，可以稍后重新发送测试消息。" else "微信提醒暂时繁忙，消息仍会保留在通知中心。"
failure_suggestion is_test (some ambiguous_result) = "暂时无法确认是否已发送，请先检查手机，避免重复发送。"
failure_suggestion is_test (some invalid_response) = "暂时无法确认是否已发送，请先检查手机，避免重复发送。"
failure_suggestion is_test _ =
    if is_test then "请检查 WxPusher App 和微信是否收到，稍后也可以重新发送。" else "微信提醒没有发出，消息仍会保留在通知中心。"

-- `deliverySuggestion`, by the state that is presented.
abbrev pub state_suggestion : DeliveryPresentationState → NotificationDeliverySummary → String
state_suggestion NotificationDeliveryUserState.queued delivery = "测试消息正在发送，请稍候。"
state_suggestion NotificationDeliveryUserState.submitted delivery =
    "消息已交给 WxPusher；暂未取得进一步状态，这不代表发送失败。"
state_suggestion NotificationDeliveryUserState.processed delivery = "消息已发送，请检查 WxPusher App 或微信。"
state_suggestion NotificationDeliveryUserState.suppressed delivery =
    "当前处于免打扰时段，本次没有发送到微信，消息已保留在通知中心。"
state_suggestion NotificationDeliveryUserState.cancelled delivery = "本次没有发送到微信。"
state_suggestion NotificationDeliveryUserState.unknown delivery = "暂时无法确认是否已发送，请稍后重新查询。"
state_suggestion NotificationDeliveryUserState.failed delivery =
    failure_suggestion delivery.is_test delivery.error_code

unfoldable pub delivery_suggestion : Option NotificationDeliverySummary → String
unfolding delivery_presentation_state
delivery_suggestion none = "发送一条测试消息，确认手机能收到微信提醒。"
delivery_suggestion (some delivery) =
    state_suggestion (delivery_presentation_state delivery) delivery

-- Whole seconds up to an instant, 0 if it is past.
unfoldable pub seconds_between : ℤ → ℤ → ℕ
seconds_between time now =
    ceil_div ((pos_part time + neg_part now) - (pos_part now + neg_part time)) 1000

unfoldable pub format_countdown : ℕ → String
unfolding decimal
format_countdown seconds =
    concat (pad_start (decimal (seconds / 60)) ∷ ":" ∷ pad_start (decimal (seconds % 60)) ∷ [])

-- `new Date(text).getTime()` is the host's, with `none` for NaN.
module _ (parse_date : String → Option ℤ) where
  abbrev at_time : Option ℤ → ℤ → Option ℕ
  at_time none now = none
  at_time (some time) now = some (seconds_between time now)

  -- `none` is NaN, which no comparison holds of.
  unfoldable pub seconds_until : Option String → ℤ → Option ℕ
  unfolding seconds_between
  seconds_until none now = some 0
  seconds_until (some value) now =
      if is_truthy (some value) then at_time (parse_date value) now else some 0

-- There is a second left exactly up to the instant.
seconds_between_pos : (time now : ℤ) → (0 < seconds_between time now) ↔ (now <ℤ time)
unfolding seconds_between
seconds_between_pos time now = (λ h. omega arith, λ h. omega arith)
